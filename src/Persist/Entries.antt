-- ===== src/Persist/Entries.antt =====
-- PersistenceServer/PersistenceServer.cpp: the bytes of the files of messages, and what ProcessIndexFile
-- reads of them.
use mq_cplusplus.Base.{
  ℕ, zero, suc, ◌+◌, ◌^◌, ◌≤◌, ◌<◌, ◌≡◌, refl, sym, ap, subst, ◌∙◌, some, List, [], ◌∷◌, ◌++◌,
  arith, length, take, span, All, Bytes, append_assoc, append-nil, length-append, take-append,
  drop-append,
}
use mq_cplusplus.Message.Wire.{int_bytes, read_int}
use mq_cplusplus.Persist.Publish.{insert_new}
use mq_cplusplus.Persist.Recover.{read_entries, insert_entries}

-- Messages with their indices: their bytes, and the entries from a position of the data file on.
unfoldable pub bodies : List (ℕ × Bytes) → Bytes
bodies [] = []
bodies ((i, m) ∷ ms) = m ++ bodies ms

unfoldable pub entries_at : ℕ → List (ℕ × Bytes) → Bytes
entries_at pos [] = []
entries_at pos ((i, m) ∷ ms) = (int_bytes i ++ int_bytes pos) ++ entries_at (pos + length m) ms

unfoldable pub positions : ℕ → List (ℕ × Bytes) → List (ℕ × ℕ)
positions pos [] = []
positions pos ((i, m) ∷ ms) = (i, pos) ∷ positions (pos + length m) ms

-- The map with the messages' indices.
unfoldable pub noted : Bytes → List (ℕ × Bytes) → List (ℕ × Bytes) → List (ℕ × Bytes)
noted group [] known = known
noted group ((i, m) ∷ ms) known = noted group ms (insert_new i group known)

pub bodies-last :
    (ms : List (ℕ × Bytes)) (i : ℕ) (m : Bytes) → bodies (ms ++ (i, m) ∷ []) ≡ bodies ms ++ m
unfolding bodies
bodies-last [] i m = append-nil m
bodies-last ((j, n) ∷ ms) i m =
    ap (◌++◌ n) (bodies-last ms i m) ∙ sym (append_assoc n (bodies ms) m)

pub entries_at-last :
    (pos : ℕ) (ms : List (ℕ × Bytes)) (i : ℕ) (m : Bytes)
    → entries_at pos (ms ++ (i, m) ∷ [])
      ≡ entries_at pos ms ++ (int_bytes i ++ int_bytes (pos + length (bodies ms)))
unfolding entries_at bodies
entries_at-last pos [] i m = ap (λ n. int_bytes i ++ int_bytes n) (omega arith)
entries_at-last pos ((j, n) ∷ ms) i m = ap (◌++◌ (int_bytes j ++ int_bytes pos)) (
    entries_at-last (pos + length n) ms i m
    ∙ ap (λ k. entries_at (pos + length n) ms ++ (int_bytes i ++ int_bytes k))
        (omega (arith, length-append n (bodies ms))))

pub entries_at-start :
    (ms : List (ℕ × Bytes)) (i : ℕ) (m : Bytes)
    → entries_at 0 (ms ++ (i, m) ∷ [])
      ≡ entries_at 0 ms ++ (int_bytes i ++ int_bytes (length (bodies ms)))
entries_at-start ms i m =
    entries_at-last 0 ms i m
    ∙ ap (λ n. entries_at 0 ms ++ (int_bytes i ++ int_bytes n)) {x = 0 + length (bodies ms)}
        {y = length (bodies ms)} (omega arith)

pub noted-last :
    (group : Bytes) (ms known : List (ℕ × Bytes)) (i : ℕ) (m : Bytes)
    → noted group (ms ++ (i, m) ∷ []) known ≡ insert_new i group (noted group ms known)
unfolding noted
noted-last group [] known i m = refl
noted-last group ((j, n) ∷ ms) known i m = noted-last group ms (insert_new j group known) i m

pub insert_entries-positions :
    (group : Bytes) (pos : ℕ) (ms known : List (ℕ × Bytes))
    → insert_entries group (positions pos ms) known ≡ noted group ms known
unfolding insert_entries positions noted
insert_entries-positions group pos [] known = refl
insert_entries-positions group pos ((i, m) ∷ ms) known =
    insert_entries-positions group (pos + length m) ms (insert_new i group known)

read_int-int_bytes :
    (v : ℕ) (rest : Bytes) → v < 2 ^ 32 → read_int (int_bytes v ++ rest) ≡ some (v, rest)
unfolding read_int
read_int-int_bytes v rest h = ap (λ n. some (n, rest)) (omega arith)

pub read_entries-entries_at :
    (fuel pos : ℕ) (ms : List (ℕ × Bytes))
    → length ms ≤ fuel
    → All (λ x. x.0 < 2 ^ 32) ms
    → pos + length (bodies ms) < 2 ^ 32
    → read_entries fuel (entries_at pos ms) ≡ some (positions pos ms)
unfolding read_entries entries_at positions bodies
read_entries-entries_at fuel pos [] h k b = refl
read_entries-entries_at zero pos ((i, m) ∷ ms) h k b = absurd (omega arith)
read_entries-entries_at (suc fuel) pos ((i, m) ∷ ms) h (k, ks) b =
    rw
      (
        read_int-int_bytes i (int_bytes pos ++ entries_at (pos + length m) ms) k,
        read_int-int_bytes pos (entries_at (pos + length m) ms) (omega arith),
        read_entries-entries_at fuel (pos + length m) ms (omega (arith, h)) ks
            (omega (arith, b, length-append m (bodies ms))),
      )
      refl

pub length-entries_at : (pos : ℕ) (ms : List (ℕ × Bytes)) → length ms ≤ length (entries_at pos ms)
unfolding entries_at
length-entries_at pos [] = omega arith
length-entries_at pos ((i, m) ∷ ms) = omega (arith, length-entries_at (pos + length m) ms)

-- What the entries point to.
pub Points : Bytes → ℕ → List (ℕ × Bytes) → Type 0
Points stored pos [] = Unit
Points stored pos ((i, m) ∷ ms) =
    (span pos (length m) stored ≡ m) × Points stored (pos + length m) ms

pub bodies-Points :
    (front : Bytes) (pos : ℕ) (ms : List (ℕ × Bytes))
    → pos ≡ length front
    → Points (front ++ bodies ms) pos ms
unfolding Points bodies
bodies-Points front pos [] e = tt
bodies-Points front pos ((i, m) ∷ ms) e = (
  ap (take (length m)) (drop-append front (m ++ bodies ms) pos e)
      ∙ take-append m (bodies ms) (length m) refl,
  subst (λ z. Points z (pos + length m) ms) (append_assoc front m (bodies ms))
      (bodies-Points (front ++ m) (pos + length m) ms (omega (arith, e, length-append front m))),
)

-- Entries lead to the messages, in their order: the index of each, and a position where it stands.
pub Leads : Bytes → List (ℕ × ℕ) → List (ℕ × Bytes) → Type 0
Leads stored [] [] = Unit
Leads stored ((i, pos) ∷ es) ((j, m) ∷ ms) =
    (i ≡ j) × (span pos (length m) stored ≡ m) × Leads stored es ms
Leads stored _ _ = ⊥

pub positions-Leads :
    (stored : Bytes) (pos : ℕ) (ms : List (ℕ × Bytes))
    → Points stored pos ms
    → Leads stored (positions pos ms) ms
unfolding Leads Points positions
positions-Leads stored pos [] h = tt
positions-Leads stored pos ((i, m) ∷ ms) (h, hs) =
    (refl, h, positions-Leads stored (pos + length m) ms hs)
