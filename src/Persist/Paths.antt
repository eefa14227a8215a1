-- ===== src/Persist/Paths.antt =====
-- PersistenceServer/PersistenceServer.cpp: the paths that it builds are apart, and mq_util/mq_util.cpp
-- and the file calls change what stands at their path only.
use mq_cplusplus.Base.{
  ℕ, ◌<◌, ◌≡◌, ◌≢◌, refl, sym, ap, ◌∙◌, ◌⊎◌, inl, inr, Bool, true, false, none, some, [], ◌∷◌, ◌++◌,
  arith, length, Bytes, Bool-cases, name_eq, name_eq→eq, name_eq_iff, find, insert,
  find-insert_self, find-insert_ne,
}
use mq_cplusplus.Persist.Disk.{Disk, file, slash, write, open_append, open_empty}
use mq_cplusplus.Persist.Publish.{group_path}

abbrev pub last_of : Bytes → ℕ
last_of [] = 0
last_of (b ∷ []) = b
last_of (b ∷ c ∷ rest) = last_of (c ∷ rest)

pub last_of-append :
    (s : Bytes) (c : ℕ) (rest : Bytes) → last_of (s ++ c ∷ rest) ≡ last_of (c ∷ rest)
last_of-append [] c rest = refl
last_of-append (a ∷ []) c rest = refl
last_of-append (a ∷ b ∷ s) c rest = last_of-append (b ∷ s) c rest

-- Paths with different last bytes, and paths of different lengths.
pub ends_apart : (s t : Bytes) → last_of s ≢ last_of t → name_eq s t ≡ false
ends_apart s t ne = elim (Bool-cases (name_eq s t)) [
  | inl same ↦ absurd (ne (ap last_of (name_eq→eq s t same)))
  | inr e ↦ e
]

pub longer_apart : (s t : Bytes) → length t < length s → name_eq s t ≡ false
longer_apart s t h = elim (Bool-cases (name_eq s t)) [
  | inl same ↦ absurd (omega (arith, h, ap length (name_eq→eq s t same)))
  | inr e ↦ e
]

-- The last byte of a group's file is its extension's.
pub group_last :
    (path group : Bytes) (c : ℕ) (rest : Bytes)
    → last_of (group_path path group (c ∷ rest)) ≡ last_of (c ∷ rest)
group_last path group c rest =
    last_of-append path slash (group ++ c ∷ rest) ∙ last_of-append (slash ∷ group) c rest

-- A path that a file with these bytes can be opened at: the file stands there, or nothing does.
abbrev pub CanHold : Disk → Bytes → Bytes → Type 0
CanHold d path bytes =
    (find name_eq path d ≡ some (file bytes)) ⊎ ((find name_eq path d ≡ none) × (bytes ≡ []))

-- What stands at other paths is the same.
abbrev pub SameBut : Bytes → Disk → Disk → Type 0
SameBut path d d' = (q : Bytes) → name_eq path q ≡ false → find name_eq q d' ≡ find name_eq q d

pub write_self :
    (path old bytes : Bytes) (d : Disk)
    → find name_eq path d ≡ some (file old)
    → find name_eq path (write path bytes d) ≡ some (file (old ++ bytes))
unfolding write
write_self path old bytes d e =
    rw (write, e) (find-insert_self name_eq name_eq_iff path (file (old ++ bytes)) d)

pub write_other :
    (path bytes : Bytes) (d : Disk) (old : Bytes)
    → find name_eq path d ≡ some (file old)
    → SameBut path d (write path bytes d)
unfolding write
write_other path bytes d old e q ne =
    rw (write, e) (find-insert_ne name_eq name_eq_iff path q (file (old ++ bytes)) d ne)

module _ (opens : Bytes → Bool) (path : Bytes) (may : opens path ≡ true) where
  pub open_append-lem :
      (bytes : Bytes) (d : Disk)
      → CanHold d path bytes
      → (d' : Disk) × (open_append opens path d ≡ some d')
        × (find name_eq path d' ≡ some (file bytes))
        × SameBut path d d'
  unfolding open_append
  open_append-lem bytes d (inl e) = (d, rw (may, e) refl, e, λ q ne. refl)
  open_append-lem bytes d (inr (e, empty)) = (
    insert name_eq path (file []) d,
    rw (may, e) refl,
    find-insert_self name_eq name_eq_iff path (file []) d ∙ ap (λ b. some (file b)) (sym empty),
    λ q ne. find-insert_ne name_eq name_eq_iff path q (file []) d ne,
  )

  pub open_empty-lem :
      (bytes : Bytes) (d : Disk)
      → CanHold d path bytes
      → (d' : Disk) × (open_empty opens path d ≡ some d')
        × (find name_eq path d' ≡ some (file []))
        × SameBut path d d'
  unfolding open_empty
  open_empty-lem bytes d h = (
    insert name_eq path (file []) d,
    elim h [ inl e ↦ rw (may, e) refl | inr (e, empty) ↦ rw (may, e) refl ],
    find-insert_self name_eq name_eq_iff path (file []) d,
    λ q ne. find-insert_ne name_eq name_eq_iff path q (file []) d ne,
  )
