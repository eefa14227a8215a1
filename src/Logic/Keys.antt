-- ===== src/Logic/Keys.antt =====
-- logicServer/logicServer.cpp, Exchange: what the lists of queues behind the keys are after a queue was
-- bound or taken out.
use mq_cplusplus.Base.{
  ℕ, ◌≡◌, ◌≢◌, refl, sym, ap, ◌∙◌, ◌⊎◌, inl, inr, true, false, none, some, List, [], ◌∷◌, arith,
  Bytes, subst, ℕ_discrete, Bool-cases, Option-cases, name_eq, name_eq→eq, name_eq_iff, find,
  insert, find-insert_self, find-insert_ne,
}
use mq_cplusplus.Logic.Queue.{is_empty_list}
use mq_cplusplus.Logic.Exchange.{Exchange, Bindings, create_binding, without, delete_queue_from}
use mq_cplusplus.Logic.Picked.{IsKeyed, IsSingle}

pub create-free :
    (key : Bytes) (queue : ℕ) (e : Exchange)
    → find name_eq key e.bindings ≡ none
    → create_binding key queue e
      ≡ record e { bindings = insert name_eq key (queue ∷ []) e.bindings }
unfolding create_binding
create-free key queue e n = rw (create_binding, n) refl

pub create-taken :
    (key : Bytes) (queue : ℕ) (e : Exchange) (queues : List ℕ)
    → find name_eq key e.bindings ≡ some queues
    → create_binding key queue e ≡ e
unfolding create_binding
create-taken key queue e queues f = rw (create_binding, f) refl

-- Binding a key that is free leads it to the queue alone, and binding one that is taken changes
-- nothing: the first queue keeps the key. No other key changes.
pub create_binding-find :
    (key : Bytes) (queue : ℕ) (e : Exchange)
    → (((find name_eq key e.bindings ≡ none)
          × (find name_eq key (create_binding key queue e).bindings ≡ some (queue ∷ [])))
        ⊎ ((queues : List ℕ) × (find name_eq key e.bindings ≡ some queues)
            × (find name_eq key (create_binding key queue e).bindings ≡ some queues)))
      × ((other : Bytes)
          → name_eq key other ≡ false
          → find name_eq other (create_binding key queue e).bindings
            ≡ find name_eq other e.bindings)
create_binding-find key queue e = elim (Option-cases (find name_eq key e.bindings)) [
  | inl n ↦ (
    inl (
      n,
      ap (λ x. find name_eq key x.bindings) (create-free key queue e n)
          ∙ find-insert_self name_eq name_eq_iff key (queue ∷ []) e.bindings,
    ),
    λ other h.
        ap (λ x. find name_eq other x.bindings) (create-free key queue e n)
        ∙ find-insert_ne name_eq name_eq_iff key other (queue ∷ []) e.bindings h,
  )
  | inr (queues, f) ↦ (
    inr (queues, f, ap (λ x. find name_eq key x.bindings) (create-taken key queue e queues f) ∙ f),
    λ other h. ap (λ x. find name_eq other x.bindings) (create-taken key queue e queues f),
  )
]

without_self : (queue : ℕ) → is_empty_list (without queue (queue ∷ [])) ≡ true
unfolding is_empty_list without
without_self queue = ground arith

without_ne : (queue x : ℕ) → x ≢ queue → is_empty_list (without queue (x ∷ [])) ≡ false
unfolding is_empty_list without
without_ne queue x h = ground arith

pub find_skip :
    (k key : Bytes) (qs : List ℕ) (bs : Bindings)
    → name_eq k key ≡ false
    → find name_eq key ((k, qs) ∷ bs) ≡ find name_eq key bs
unfolding find
find_skip k key qs bs e = rw e refl

pub find_here :
    (k key : Bytes) (qs : List ℕ) (bs : Bindings)
    → name_eq k key ≡ true
    → find name_eq key ((k, qs) ∷ bs) ≡ some qs
unfolding find
find_here k key qs bs e = rw e refl

delete_skip :
    (queue : ℕ) (k key : Bytes) (qs : List ℕ) (bs : Bindings)
    → name_eq k key ≡ false
    → find name_eq key (delete_queue_from queue ((k, qs) ∷ bs))
      ≡ find name_eq key (delete_queue_from queue bs)
unfolding delete_queue_from
delete_skip queue k key qs bs e = elim (Bool-cases (is_empty_list (without queue qs))) [
  | inl i ↦ rw i refl
  | inr i ↦ rw i (find_skip k key qs (delete_queue_from queue bs) e)
]

pub delete_queue_from-new :
    (queue : ℕ) (key : Bytes) (bs : Bindings)
    → find name_eq key bs ≡ none
    → find name_eq key (delete_queue_from queue bs) ≡ none
unfolding delete_queue_from
delete_queue_from-new queue key [] h = h
delete_queue_from-new queue key ((k, qs) ∷ bs) h = elim (Bool-cases (name_eq k key)) [
  | inl e ↦ absurd (cc (sym (find_here k key qs bs e) ∙ h))
  | inr e ↦
      delete_skip queue k key qs bs e
      ∙ delete_queue_from-new queue key bs (sym (find_skip k key qs bs e) ∙ h)
]

-- What deleting a queue leaves behind a key.
abbrev pub Deleted : ℕ → Bytes → Bindings → Type 0
Deleted queue key bs =
    ((find name_eq key bs ≡ some (queue ∷ []))
      × (find name_eq key (delete_queue_from queue bs) ≡ none))
    ⊎ ((find name_eq key bs ≢ some (queue ∷ []))
        × (find name_eq key (delete_queue_from queue bs) ≡ find name_eq key bs))

delete_here :
    (queue x : ℕ) (k key : Bytes) (bs : Bindings)
    → find name_eq k bs ≡ none
    → name_eq k key ≡ true
    → Deleted queue key ((k, x ∷ []) ∷ bs)
unfolding delete_queue_from
delete_here queue x k key bs new e = elim (ℕ_discrete x queue) [
  | yes same ↦ inl (
    find_here k key (x ∷ []) bs e ∙ ap (λ z. some (z ∷ [])) same,
    rw (same, without_self queue)
        (delete_queue_from-new queue key bs
          (ap (λ z. find name_eq z bs) (sym (name_eq→eq k key e)) ∙ new)),
  )
  | no ne ↦ inr (
    λ f. ne (head_eq (sym (find_here k key (x ∷ []) bs e) ∙ f)),
    rw (without_ne queue x ne) (
        find_here k key (x ∷ []) (delete_queue_from queue bs) e
        ∙ sym (find_here k key (x ∷ []) bs e)),
  )
]
  where
    head_eq : {a b : ℕ} → some (a ∷ []) ≡ some (b ∷ []) → a ≡ b
    head_eq f = cc

pub delete_queue_from-Deleted :
    (queue : ℕ) (key : Bytes) (bs : Bindings) → IsKeyed bs → IsSingle bs → Deleted queue key bs
unfolding delete_queue_from find
delete_queue_from-Deleted queue key [] keyed single = inr (λ e. cc, refl)
delete_queue_from-Deleted queue key ((k, qs) ∷ bs) (new, keyed) ((x, only), single) =
    elim (Bool-cases (name_eq k key)) [
      | inl e ↦
          subst (λ z. Deleted queue key ((k, z) ∷ bs)) (sym only)
            (delete_here queue x k key bs new e)
      | inr e ↦ elim (delete_queue_from-Deleted queue key bs keyed single) [
        | inl (f, d) ↦ inl (find_skip k key qs bs e ∙ f, delete_skip queue k key qs bs e ∙ d)
        | inr (f, d) ↦ inr (
          λ g. f (sym (find_skip k key qs bs e) ∙ g),
          delete_skip queue k key qs bs e ∙ d ∙ sym (find_skip k key qs bs e),
        )
      ]
    ]
