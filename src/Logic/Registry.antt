-- ===== src/Logic/Registry.antt =====
-- logicServer/logicServer.cpp: the heap of the MessageQueue objects and the two maps of LogicServer
-- that lead into it, and what the handlers do with the three.
use mq_cplusplus.Base.{
  ℕ, ◌+◌, ◌<◌, ◌≡◌, sym, ap, ◌∙◌, inl, inr, true, false, none, some, List, ◌==◌, Bytes, arith,
  subst, Bool-cases, ==_iff, name_eq, name_eq_iff, find, insert, erase, find-insert_self,
  find-insert_ne, find-erase_self, find-erase_ne,
}
use mq_cplusplus.Logic.Queue.{MessageQueue}

abbrev Heap : Type 0
Heap = List (ℕ × MessageQueue)

abbrev Names : Type 0
Names = List (Bytes × ℕ)

-- A pointer leads to a queue of the name.
abbrev pub LeadsTo : List (ℕ × MessageQueue) → Bytes → ℕ → Type 0
LeadsTo qs name p = (q : MessageQueue) × (find ◌==◌ p qs ≡ some q) × (q.name ≡ name)

-- Each map leads to queues of its names, no name stands in both, and the next pointer is new.
pub record IsRegistry (qs : List (ℕ × MessageQueue)) (next : ℕ) (u b : List (Bytes × ℕ))
    : Type 0 where
  pub unsubscribed_live : (name : Bytes) (p : ℕ) → find name_eq name u ≡ some p → LeadsTo qs name p
  pub subscribed_live : (name : Bytes) (p : ℕ) → find name_eq name b ≡ some p → LeadsTo qs name p
  pub apart : (name : Bytes) (p : ℕ) → find name_eq name u ≡ some p → find name_eq name b ≡ none
  pub fresh : (p : ℕ) (q : MessageQueue) → find ◌==◌ p qs ≡ some q → p < next

pub some-injective : {A : Type 0} {a b : A} → some a ≡ some b → a ≡ b
some-injective {a} e = ap (λ o. elim o [ none ↦ a | some x ↦ x ]) e

pub none-some : {A : Type 0} {a : A} → none ≡ some a → ⊥
none-some e = cc

LeadsTo-put :
    (qs : Heap) (name : Bytes) (p o : ℕ) (q q' : MessageQueue)
    → find ◌==◌ p qs ≡ some q
    → q'.name ≡ q.name
    → LeadsTo qs name o
    → LeadsTo (insert ◌==◌ p q' qs) name o
LeadsTo-put qs name p o q q' at same (x, f, n) = elim (Bool-cases (p == o)) [
  | inl e ↦ (
    q',
    ap (λ z. find ◌==◌ z (insert ◌==◌ p q' qs)) (sym ((==_iff p o).0 e))
        ∙ find-insert_self ◌==◌ ==_iff p q' qs,
    same
        ∙ ap (λ z. z.name)
            (some-injective (sym at ∙ ap (λ z. find ◌==◌ z qs) ((==_iff p o).0 e) ∙ f))
        ∙ n,
  )
  | inr ne ↦ (x, find-insert_ne ◌==◌ ==_iff p o q' qs ne ∙ f, n)
]

fresh_put :
    (qs : Heap) (next p : ℕ) (q : MessageQueue)
    → p < next
    → ((o : ℕ) (x : MessageQueue) → find ◌==◌ o qs ≡ some x → o < next)
    → (o : ℕ) (x : MessageQueue) → find ◌==◌ o (insert ◌==◌ p q qs) ≡ some x
    → o < next
fresh_put qs next p q h f o x e = elim (Bool-cases (p == o)) [
  | inl same ↦ ground (arith, same, h)
  | inr ne ↦ f o x (sym (find-insert_ne ◌==◌ ==_iff p o q qs ne) ∙ e)
]

-- A queue changes, but not its name.
pub put-IsRegistry :
    (qs : Heap) (next : ℕ) (u b : Names) (p : ℕ) (q q' : MessageQueue)
    → IsRegistry qs next u b
    → find ◌==◌ p qs ≡ some q
    → q'.name ≡ q.name
    → IsRegistry (insert ◌==◌ p q' qs) next u b
put-IsRegistry qs next u b p q q' r at same = record {
  unsubscribed_live =
      λ name o e. LeadsTo-put qs name p o q q' at same (r.unsubscribed_live name o e);
  subscribed_live = λ name o e. LeadsTo-put qs name p o q q' at same (r.subscribed_live name o e);
  apart = r.apart;
  fresh = fresh_put qs next p q' (r.fresh p q at) r.fresh;
}

LeadsTo-new :
    (qs : Heap) (name : Bytes) (next o : ℕ) (q' : MessageQueue)
    → ((p : ℕ) (q : MessageQueue) → find ◌==◌ p qs ≡ some q → p < next)
    → LeadsTo qs name o
    → LeadsTo (insert ◌==◌ next q' qs) name o
LeadsTo-new qs name next o q' fresh (x, f, n) =
    (x, find-insert_ne ◌==◌ ==_iff next o q' qs (ground (arith, fresh o x f)) ∙ f, n)

Live : Heap → Names → Type 0
Live qs m = (k : Bytes) (o : ℕ) → find name_eq k m ≡ some o → LeadsTo qs k o

insert-Live :
    (qs : Heap) (m : Names) (name : Bytes) (p : ℕ)
    → Live qs m
    → LeadsTo qs name p
    → Live qs (insert name_eq name p m)
unfolding Live
insert-Live qs m name p live l k o e = elim (Bool-cases (name_eq name k)) [
  | inl same ↦
      let name=k : name ≡ k = (name_eq_iff name k).0 same in
      let p=o : p ≡ o = some-injective (
        sym (find-insert_self name_eq name_eq_iff name p m)
        ∙ ap (λ z. find name_eq z (insert name_eq name p m)) name=k
        ∙ e) in
      subst (λ z. LeadsTo qs z o) name=k (subst (LeadsTo qs name) p=o l)
  | inr ne ↦ live k o (sym (find-insert_ne name_eq name_eq_iff name k p m ne) ∙ e)
]

module _ {A : Type 0} where
  -- What a map without a name finds, it found before, under another name.
  find-erase-some :
      (m : List (Bytes × A)) (name k : Bytes) (o : A)
      → find name_eq k (erase name_eq name m) ≡ some o
      → (name_eq name k ≡ false) × (find name_eq k m ≡ some o)
  find-erase-some m name k o e = elim (Bool-cases (name_eq name k)) [
    | inl same ↦ absurd (
        none-some (
          sym (find-erase_self name_eq name_eq_iff name m)
          ∙ ap (λ z. find name_eq z (erase name_eq name m)) ((name_eq_iff name k).0 same)
          ∙ e))
    | inr ne ↦ (ne, sym (find-erase_ne name_eq name_eq_iff name k m ne) ∙ e)
  ]

  find-erase-none :
      (m : List (Bytes × A)) (name k : Bytes)
      → find name_eq k m ≡ none
      → find name_eq k (erase name_eq name m) ≡ none
  find-erase-none m name k e = elim (Bool-cases (name_eq name k)) [
    | inl same ↦
        ap (λ z. find name_eq z (erase name_eq name m)) (sym ((name_eq_iff name k).0 same))
        ∙ find-erase_self name_eq name_eq_iff name m
    | inr ne ↦ find-erase_ne name_eq name_eq_iff name k m ne ∙ e
  ]

erase-Live : (qs : Heap) (m : Names) (name : Bytes) → Live qs m → Live qs (erase name_eq name m)
unfolding Live
erase-Live qs m name live k o e = live k o (find-erase-some m name k o e).1

-- A new queue, under a name that neither map has.
pub register-IsRegistry :
    (qs : Heap) (next : ℕ) (u b : Names) (name : Bytes) (q : MessageQueue)
    → IsRegistry qs next u b
    → find name_eq name b ≡ none
    → q.name ≡ name
    → IsRegistry (insert ◌==◌ next q qs) (next + 1) (insert name_eq name next u) b
unfolding Live
register-IsRegistry qs next u b name q r free named = record {
  unsubscribed_live =
      insert-Live (insert ◌==◌ next q qs) u name next
        (λ k o e. LeadsTo-new qs k next o q r.fresh (r.unsubscribed_live k o e))
        (q, find-insert_self ◌==◌ ==_iff next q qs, named);
  subscribed_live = λ k o e. LeadsTo-new qs k next o q r.fresh (r.subscribed_live k o e);
  apart = λ k o e. elim (Bool-cases (name_eq name k)) [
    | inl same ↦ ap (λ z. find name_eq z b) (sym ((name_eq_iff name k).0 same)) ∙ free
    | inr ne ↦ r.apart k o (sym (find-insert_ne name_eq name_eq_iff name k next u ne) ∙ e)
  ];
  fresh = fresh_put qs (next + 1) next q (omega arith) (λ o x e. omega (arith, r.fresh o x e));
}

-- A name goes from the unsubscribed queues to the subscribed ones.
pub subscribe-IsRegistry :
    (qs : Heap) (next : ℕ) (u b : Names) (name : Bytes) (p : ℕ)
    → IsRegistry qs next u b
    → LeadsTo qs name p
    → IsRegistry qs next (erase name_eq name u) (insert name_eq name p b)
unfolding Live
subscribe-IsRegistry qs next u b name p r l = record {
  unsubscribed_live = erase-Live qs u name r.unsubscribed_live;
  subscribed_live = insert-Live qs b name p r.subscribed_live l;
  apart = λ k o e.
      let (ne, found) = find-erase-some u name k o e in
      find-insert_ne name_eq name_eq_iff name k p b ne ∙ r.apart k o found;
  fresh = r.fresh;
}

-- A name goes the other way.
pub unsubscribe-IsRegistry :
    (qs : Heap) (next : ℕ) (u b : Names) (name : Bytes) (p : ℕ)
    → IsRegistry qs next u b
    → LeadsTo qs name p
    → IsRegistry qs next (insert name_eq name p u) (erase name_eq name b)
unfolding Live
unsubscribe-IsRegistry qs next u b name p r l = record {
  unsubscribed_live = insert-Live qs u name p r.unsubscribed_live l;
  subscribed_live = erase-Live qs b name r.subscribed_live;
  apart = λ k o e. elim (Bool-cases (name_eq name k)) [
    | inl same ↦
        ap (λ z. find name_eq z (erase name_eq name b)) (sym ((name_eq_iff name k).0 same))
        ∙ find-erase_self name_eq name_eq_iff name b
    | inr ne ↦
        find-erase-none b name k
          (r.apart k o (sym (find-insert_ne name_eq name_eq_iff name k p u ne) ∙ e))
  ];
  fresh = r.fresh;
}

-- A name goes, out of both maps.
pub forget-IsRegistry :
    (qs : Heap) (next : ℕ) (u b : Names) (name : Bytes)
    → IsRegistry qs next u b
    → IsRegistry qs next (erase name_eq name u) (erase name_eq name b)
unfolding Live
forget-IsRegistry qs next u b name r = record {
  unsubscribed_live = erase-Live qs u name r.unsubscribed_live;
  subscribed_live = erase-Live qs b name r.subscribed_live;
  apart = λ k o e. find-erase-none b name k (r.apart k o (find-erase-some u name k o e).1);
  fresh = r.fresh;
}

LeadsTo-delete :
    (qs : Heap) (name k : Bytes) (p o : ℕ)
    → LeadsTo qs name p
    → name_eq name k ≡ false
    → LeadsTo qs k o
    → LeadsTo (erase ◌==◌ p qs) k o
LeadsTo-delete qs name k p o (q, f, n) ne (x, g, m) = elim (Bool-cases (p == o)) [
  | inl e ↦
      let q=x : q ≡ x = some-injective (sym f ∙ ap (λ z. find ◌==◌ z qs) ((==_iff p o).0 e) ∙ g) in
      absurd (differ (sym ((name_eq_iff name k).1 (sym n ∙ ap (λ z. z.name) q=x ∙ m)) ∙ ne))
  | inr d ↦ (x, find-erase_ne ◌==◌ ==_iff p o qs d ∙ g, m)
]
  where
    differ : true ≡ false → ⊥
    differ e = cc

fresh_delete :
    (qs : Heap) (next p : ℕ)
    → ((o : ℕ) (x : MessageQueue) → find ◌==◌ o qs ≡ some x → o < next)
    → (o : ℕ) (x : MessageQueue) → find ◌==◌ o (erase ◌==◌ p qs) ≡ some x
    → o < next
fresh_delete qs next p f o x e = elim (Bool-cases (p == o)) [
  | inl same ↦ absurd (
      none-some (
        sym (find-erase_self ◌==◌ ==_iff p qs)
        ∙ ap (λ z. find ◌==◌ z (erase ◌==◌ p qs)) ((==_iff p o).0 same)
        ∙ e))
  | inr d ↦ f o x (sym (find-erase_ne ◌==◌ ==_iff p o qs d) ∙ e)
]

-- A queue is deleted, and its name goes with it: no other name led to it.
pub delete-IsRegistry :
    (qs : Heap) (next : ℕ) (u b : Names) (name : Bytes) (p : ℕ)
    → IsRegistry qs next u b
    → LeadsTo qs name p
    → IsRegistry (erase ◌==◌ p qs) next (erase name_eq name u) (erase name_eq name b)
delete-IsRegistry qs next u b name p r l = record {
  unsubscribed_live = λ k o e.
      let (ne, f) = find-erase-some u name k o e in
      LeadsTo-delete qs name k p o l ne (r.unsubscribed_live k o f);
  subscribed_live = λ k o e.
      let (ne, f) = find-erase-some b name k o e in
      LeadsTo-delete qs name k p o l ne (r.subscribed_live k o f);
  apart = (forget-IsRegistry qs next u b name r).apart;
  fresh = fresh_delete qs next p r.fresh;
}

-- A name goes, out of the subscribed queues.
pub unlist-IsRegistry :
    (qs : List (ℕ × MessageQueue)) (next : ℕ) (u b : List (Bytes × ℕ)) (name : Bytes)
    → IsRegistry qs next u b
    → IsRegistry qs next u (erase name_eq name b)
unfolding Live
unlist-IsRegistry qs next u b name r = record {
  unsubscribed_live = r.unsubscribed_live;
  subscribed_live = erase-Live qs b name r.subscribed_live;
  apart = λ k o e. find-erase-none b name k (r.apart k o e);
  fresh = r.fresh;
}

delete-Live :
    (qs : Heap) (m : Names) (name : Bytes) (p : ℕ)
    → Live qs m
    → LeadsTo qs name p
    → find name_eq name m ≡ none
    → Live (erase ◌==◌ p qs) m
unfolding Live
delete-Live qs m name p live l free k o e = elim (Bool-cases (name_eq name k)) [
  | inl same ↦
      absurd (none-some (sym free ∙ ap (λ z. find name_eq z m) ((name_eq_iff name k).0 same) ∙ e))
  | inr ne ↦ LeadsTo-delete qs name k p o l ne (live k o e)
]

-- A queue is deleted whose name stands in neither map.
pub drop-IsRegistry :
    (qs : List (ℕ × MessageQueue)) (next : ℕ) (u b : List (Bytes × ℕ)) (name : Bytes) (p : ℕ)
    → IsRegistry qs next u b
    → LeadsTo qs name p
    → find name_eq name u ≡ none
    → find name_eq name b ≡ none
    → IsRegistry (erase ◌==◌ p qs) next u b
unfolding Live
drop-IsRegistry qs next u b name p r l free_u free_b = record {
  unsubscribed_live = delete-Live qs u name p r.unsubscribed_live l free_u;
  subscribed_live = delete-Live qs b name p r.subscribed_live l free_b;
  apart = r.apart;
  fresh = fresh_delete qs next p r.fresh;
}
