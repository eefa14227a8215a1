-- ===== src/Base/Maps.antt =====
-- std::unordered_map as an association list: `find`, assignment to `m[k]`, and `erase` of a key. The
-- key test is a parameter. A new key goes to the end; the order in which a map is walked is the
-- list's, one of those that the standard leaves open.
use mathlib.Core.Path.{◌≡◌, refl, ap}
use mathlib.Core.Logic.{◌↔◌, inl, inr}
use mathlib.Core.Bool.{Bool, true, false}
use mathlib.Core.List.{List, [], ◌∷◌}
use mathlib.Core.Option.{Option, none, some}
use mq_cplusplus.Base.Tests.{if◌then◌else◌, Bool-cases}

module _ {κ ℓ} {K : Type κ} {A : Type ℓ} (same : K → K → Bool) where
  unfoldable pub find : K → List (K × A) → Option A
  find k [] = none
  find k ((x, a) ∷ m) = let rest = find k m in if same x k then some a else rest

  unfoldable pub insert : K → A → List (K × A) → List (K × A)
  insert k v [] = (k, v) ∷ []
  insert k v ((x, a) ∷ m) =
      let rest = insert k v m in if same x k then (x, v) ∷ m else (x, a) ∷ rest

  unfoldable pub erase : K → List (K × A) → List (K × A)
  erase k [] = []
  erase k ((x, a) ∷ m) = let rest = erase k m in if same x k then rest else (x, a) ∷ rest

  module _ (same_iff : (x k : K) → (same x k ≡ true) ↔ (x ≡ k)) where
    pub find-insert_self : (k : K) (v : A) (m : List (K × A)) → find k (insert k v m) ≡ some v
    unfolding find insert
    find-insert_self k v [] = rw ((same_iff k k).1 refl) refl
    find-insert_self k v ((x, a) ∷ m) = elim (Bool-cases (same x k)) [
      | inl e ↦ rw (e, e) refl
      | inr e ↦ rw (e, e) (find-insert_self k v m)
    ]

    pub find-insert_ne :
        (k j : K) (v : A) (m : List (K × A)) → same k j ≡ false → find j (insert k v m) ≡ find j m
    unfolding find insert
    find-insert_ne k j v [] h = rw h refl
    find-insert_ne k j v ((x, a) ∷ m) h = elim (Bool-cases (same x k)) [
      | inl e ↦ rw (e, ap (λ z. same z j) ((same_iff x k).0 e), h) refl
      | inr e ↦ rw (e, find-insert_ne k j v m h) refl
    ]

    pub find-erase_self : (k : K) (m : List (K × A)) → find k (erase k m) ≡ none
    unfolding find erase
    find-erase_self k [] = refl
    find-erase_self k ((x, a) ∷ m) = elim (Bool-cases (same x k)) [
      | inl e ↦ rw e (find-erase_self k m)
      | inr e ↦ rw (e, e) (find-erase_self k m)
    ]

    pub find-erase_ne :
        (k j : K) (m : List (K × A)) → same k j ≡ false → find j (erase k m) ≡ find j m
    unfolding find erase
    find-erase_ne k j [] h = refl
    find-erase_ne k j ((x, a) ∷ m) h = elim (Bool-cases (same x k)) [
      | inl e ↦ rw (e, ap (λ z. same z j) ((same_iff x k).0 e), h) (find-erase_ne k j m h)
      | inr e ↦ rw (e, find-erase_ne k j m h) refl
    ]
