-- ===== src/Persist/Known.antt =====
-- PersistenceServer/PersistenceServer.cpp: the map from the indices of a queue's messages to their group.
use mq_cplusplus.Base.{
  insert, inl, inr, none, ◌==◌, ==_iff, find, find-insert_self, find-insert_ne, Option-cases,
  Bool-cases, ℕ, ◌≡◌, refl, sym, ap, ◌∙◌, some, List, [], ◌∷◌, All, Bytes,
}
use mq_cplusplus.Persist.Publish.{insert_new}
use mq_cplusplus.Persist.Entries.{noted}

-- The map leads only to the group.
IsOnly : Bytes → List (ℕ × Bytes) → Type 0
IsOnly group known = (k : ℕ) (w : Bytes) → find ◌==◌ k known ≡ some w → w ≡ group

module _ (group : Bytes) where
  insert_new-find :
      (i : ℕ) (known : List (ℕ × Bytes))
      → IsOnly group known
      → find ◌==◌ i (insert_new i group known) ≡ some group
  unfolding insert_new IsOnly
  insert_new-find i known only = elim (Option-cases (find ◌==◌ i known)) [
    | inl n ↦ rw (insert_new, n) (find-insert_self ◌==◌ ==_iff i group known)
    | inr (w, f) ↦ rw (insert_new, f) (f ∙ ap some (only i w f))
  ]

  insert_new-kept :
      (i k : ℕ) (w : Bytes) (known : List (ℕ × Bytes))
      → find ◌==◌ k known ≡ some w
      → find ◌==◌ k (insert_new i group known) ≡ some w
  unfolding insert_new
  insert_new-kept i k w known e = elim (Option-cases (find ◌==◌ i known)) [
    | inl n ↦ elim (Bool-cases (i == k)) [
      | inl same ↦
          absurd (none-some (sym n ∙ ap (λ z. find ◌==◌ z known) ((==_iff i k).0 same) ∙ e))
      | inr ne ↦ rw (insert_new, n) (find-insert_ne ◌==◌ ==_iff i k group known ne ∙ e)
    ]
    | inr (v, f) ↦ rw (insert_new, f) e
  ]
    where
      none-some : none ≡ some w → ⊥
      none-some e = cc

  insert_new-IsOnly :
      (i : ℕ) (known : List (ℕ × Bytes))
      → IsOnly group known
      → IsOnly group (insert_new i group known)
  unfolding insert_new IsOnly
  insert_new-IsOnly i known only k w e = elim (Option-cases (find ◌==◌ i known)) [
    | inl n ↦
        let e' : find ◌==◌ k (insert ◌==◌ i group known) ≡ some w = sym (added n) ∙ e in
        elim (Bool-cases (i == k)) [
          | inl same ↦ some-injective (
              sym e'
              ∙ ap (λ z. find ◌==◌ z (insert ◌==◌ i group known)) (sym ((==_iff i k).0 same))
              ∙ find-insert_self ◌==◌ ==_iff i group known)
          | inr ne ↦ only k w (sym (find-insert_ne ◌==◌ ==_iff i k group known ne) ∙ e')
        ]
    | inr (v, f) ↦ only k w (sym (ap (find ◌==◌ k) (same_map v f)) ∙ e)
  ]
    where
      some-injective : {a b : Bytes} → some a ≡ some b → a ≡ b
      some-injective e = cc

      added :
          find ◌==◌ i known ≡ none
          → find ◌==◌ k (insert_new i group known) ≡ find ◌==◌ k (insert ◌==◌ i group known)
      added n = rw (insert_new, n) refl

      same_map : (v : Bytes) → find ◌==◌ i known ≡ some v → insert_new i group known ≡ known
      same_map v f = rw (insert_new, f) refl

  noted-kept :
      (ms known : List (ℕ × Bytes)) (k : ℕ) (w : Bytes)
      → find ◌==◌ k known ≡ some w
      → find ◌==◌ k (noted group ms known) ≡ some w
  unfolding noted
  noted-kept [] known k w e = e
  noted-kept ((i, m) ∷ ms) known k w e =
      noted-kept ms (insert_new i group known) k w (insert_new-kept i k w known e)

  noted-find :
      (ms known : List (ℕ × Bytes))
      → IsOnly group known
      → All (λ x. find ◌==◌ x.0 (noted group ms known) ≡ some group) ms
  unfolding noted
  noted-find [] known only = tt
  noted-find ((i, m) ∷ ms) known only = (
    noted-kept ms (insert_new i group known) i group (insert_new-find i known only),
    noted-find ms (insert_new i group known) (insert_new-IsOnly i known only),
  )

  -- A map that was empty leads the index of each message to the group.
  pub noted-All :
      (ms : List (ℕ × Bytes)) → All (λ x. find ◌==◌ x.0 (noted group ms []) ≡ some group) ms
  unfolding IsOnly find
  noted-All ms = noted-find ms [] (λ k w e. absurd cc)
