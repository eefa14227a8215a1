-- ===== src/Logic/Picked.antt =====
-- logicServer/logicServer.cpp, Exchange: the queues of the keys of an exchange that pass a test.
use mq_cplusplus.Base.{
  ℕ, ◌≡◌, refl, sym, ap, ◌∙◌, ◌⊎◌, inl, inr, Bool, true, false, ◌||◌, none, some, List, [], ◌∷◌,
  ◌++◌, arith, if◌then◌else◌, Bytes, All, Bool-cases, name_eq, name_eq→eq, name_eq_self, find,
}
use mq_cplusplus.Logic.Queue.{has}
use mq_cplusplus.Logic.Topic.{is_fit}
use mq_cplusplus.Logic.Exchange.{Bindings, all_queues, fit_queues}

-- No key stands twice.
abbrev pub IsKeyed : Bindings → Type 0
IsKeyed [] = Unit
IsKeyed ((key, queues) ∷ bs) = (find name_eq key bs ≡ none) × IsKeyed bs

-- A key leads to one queue.
abbrev pub IsSingle : Bindings → Type 0
IsSingle = All (λ b. (queue : ℕ) × (b.1 ≡ queue ∷ []))

-- The queues of the keys that pass a test.
unfoldable pub picked : (Bytes → Bool) → Bindings → List ℕ
picked p [] = []
picked p ((key, queues) ∷ bs) = let rest = picked p bs in if p key then queues ++ rest else rest

pub all_queues-picked : (bs : Bindings) → all_queues bs ≡ picked (λ key. true) bs
unfolding all_queues picked
all_queues-picked [] = refl
all_queues-picked ((key, queues) ∷ bs) = ap (◌++◌ queues) (all_queues-picked bs)

pub fit_queues-picked : (r : Bytes) (bs : Bindings) → fit_queues r bs ≡ picked (is_fit r) bs
unfolding fit_queues picked
fit_queues-picked r [] = refl
fit_queues-picked r ((key, queues) ∷ bs) =
    ap (λ rest. if is_fit r key then queues ++ rest else rest) (fit_queues-picked r bs)

has-append : (q : ℕ) (xs ys : List ℕ) → has q (xs ++ ys) ≡ has q xs || has q ys
unfolding has
has-append q [] ys = refl
has-append q (x ∷ xs) ys = ground (arith, has-append q xs ys)

-- A key that passes the test is bound to the queue.
abbrev pub Picks : (Bytes → Bool) → Bindings → ℕ → Type 0
Picks p bs q =
    (key : Bytes) × (queues : List ℕ) × (find name_eq key bs ≡ some queues)
    × (has q queues ≡ true)
    × (p key ≡ true)

or-true : (a b : Bool) → a || b ≡ true → (a ≡ true) ⊎ (b ≡ true)
or-true true b h = inl refl
or-true false b h = inr h

Picks-cons :
    (p : Bytes → Bool) (k : Bytes) (qs : List ℕ) (bs : Bindings) (q : ℕ)
    → IsKeyed ((k, qs) ∷ bs)
    → Picks p bs q
    → Picks p ((k, qs) ∷ bs) q
unfolding find
Picks-cons p k qs bs q (new, keyed) (key, queues, f, m, h) = elim (Bool-cases (name_eq k key)) [
  | inl e ↦ absurd (cc (sym new ∙ ap (λ z. find name_eq z bs) (name_eq→eq k key e) ∙ f))
  | inr e ↦ (key, queues, rw e f, m, h)
]

pub picked→Picks :
    (p : Bytes → Bool) (bs : Bindings) (q : ℕ)
    → IsKeyed bs
    → has q (picked p bs) ≡ true
    → Picks p bs q
unfolding picked has find
picked→Picks p [] q keyed h = ground (arith, h)
picked→Picks p ((k, qs) ∷ bs) q keyed h = elim (Bool-cases (p k)) [
  | inl e ↦
      elim (or-true (has q qs) (has q (picked p bs))
        (sym (has-append q qs (picked p bs)) ∙ sym (chosen e) ∙ h)) [
          | inl m ↦ (k, qs, rw (name_eq_self k) refl, m, e)
          | inr m ↦ Picks-cons p k qs bs q keyed (picked→Picks p bs q keyed.1 m)
        ]
  | inr e ↦ Picks-cons p k qs bs q keyed (picked→Picks p bs q keyed.1 (sym (chosen e) ∙ h))
]
  where
    chosen :
        {b : Bool}
        → p k ≡ b
        → has q (picked p ((k, qs) ∷ bs)) ≡ has q (if b then qs ++ picked p bs else picked p bs)
    chosen e = ap (λ b. has q (if b then qs ++ picked p bs else picked p bs)) e

pub Picks→picked :
    (p : Bytes → Bool) (bs : Bindings) (q : ℕ) → Picks p bs q → has q (picked p bs) ≡ true
unfolding picked find
Picks→picked p [] q (key, queues, f, m, h) = absurd cc
Picks→picked p ((k, qs) ∷ bs) q (key, queues, f, m, h) = elim (Bool-cases (name_eq k key)) [
  | inl e ↦
      let same : some qs ≡ some queues =
        sym (ap (λ b. if b then some qs else find name_eq key bs) e) ∙ f in
      rw
        (
          ap p (name_eq→eq k key e) ∙ h,
          has-append q qs (picked p bs),
          ap (has q) (some-injective same) ∙ m,
        )
        refl
  | inr e ↦
      let found : find name_eq key bs ≡ some queues =
        sym (ap (λ b. if b then some qs else find name_eq key bs) e) ∙ f in
      kept (Picks→picked p bs q (key, queues, found, m, h)) (Bool-cases (p k))
]
  where
    some-injective : {xs ys : List ℕ} → some xs ≡ some ys → xs ≡ ys
    some-injective e = cc

    kept :
        has q (picked p bs) ≡ true
        → (p k ≡ true) ⊎ (p k ≡ false)
        → has q (if p k then qs ++ picked p bs else picked p bs) ≡ true
    kept m' (inl e) = rw (e, has-append q qs (picked p bs)) (ground (arith, m'))
    kept m' (inr e) = rw e m'
