-- ===== src/Base/Lists.antt =====
-- Lists measured and indexed by native numbers, under the library's names.
use Prim.Native.Nat.{ℕ, zero, suc, ◌+◌, ◌-◌, ◌≤◌, ◌<◌, min}
use mathlib.Core.Path.{◌≡◌, refl, sym, ap, ap₂, ◌∙◌}
use mathlib.Core.Logic.{◌≢◌}
use mathlib.Core.List.{List, [], ◌∷◌, ◌++◌, append_assoc}
use native.Mathlib.Omega.{arith}

module _ {ℓ} {A : Type ℓ} where
  abbrev pub length : List A → ℕ
  length [] = 0
  length (x ∷ xs) = suc (length xs)

  abbrev pub get_or : List A → ℕ → A → A
  get_or [] i d = d
  get_or (x ∷ xs) zero d = x
  get_or (x ∷ xs) (suc i) d = get_or xs i d

  -- A write out of bounds changes nothing.
  abbrev pub set : List A → ℕ → A → List A
  set [] i v = []
  set (x ∷ xs) zero v = v ∷ xs
  set (x ∷ xs) (suc i) v = x ∷ set xs i v

  abbrev pub take : ℕ → List A → List A
  take zero xs = []
  take (suc n) [] = []
  take (suc n) (x ∷ xs) = x ∷ take n xs

  abbrev pub drop : ℕ → List A → List A
  drop zero xs = xs
  drop (suc n) [] = []
  drop (suc n) (x ∷ xs) = drop n xs

  -- `n` elements from place `i` on, and an array after a memcpy of `xs` to place `i`.
  abbrev pub span : ℕ → ℕ → List A → List A
  span i n ys = take n (drop i ys)

  abbrev pub put_at : ℕ → List A → List A → List A
  put_at i xs ys = take i ys ++ (xs ++ drop (i + length xs) ys)

  abbrev pub replicate : ℕ → A → List A
  replicate zero a = []
  replicate (suc n) a = a ∷ replicate n a

module _ {ℓ} {A : Type ℓ} where
  pub length-append : (xs ys : List A) → length (xs ++ ys) ≡ length xs + length ys
  length-append [] ys = omega arith
  length-append (x ∷ xs) ys = omega (arith, length-append xs ys)

  pub length-set : (xs : List A) (i : ℕ) (v : A) → length (set xs i v) ≡ length xs
  length-set [] i v = refl
  length-set (x ∷ xs) zero v = refl
  length-set (x ∷ xs) (suc i) v = ap suc (length-set xs i v)

  pub length-take : (n : ℕ) (xs : List A) → length (take n xs) ≡ min n (length xs)
  length-take zero xs = omega arith
  length-take (suc n) [] = omega arith
  length-take (suc n) (x ∷ xs) = omega (arith, length-take n xs)

  pub length-drop : (n : ℕ) (xs : List A) → length (drop n xs) ≡ length xs - n
  length-drop zero xs = omega arith
  length-drop (suc n) [] = omega arith
  length-drop (suc n) (x ∷ xs) = omega (arith, length-drop n xs)

  pub length-replicate : (n : ℕ) (a : A) → length (replicate n a) ≡ n
  length-replicate zero a = refl
  length-replicate (suc n) a = ap suc (length-replicate n a)

  pub take-append-drop : (n : ℕ) (xs : List A) → take n xs ++ drop n xs ≡ xs
  take-append-drop zero xs = refl
  take-append-drop (suc n) [] = refl
  take-append-drop (suc n) (x ∷ xs) = ap (◌∷◌ x) (take-append-drop n xs)

  -- A prefix is taken back off what it was put before.
  pub take-append : (xs ys : List A) (n : ℕ) → n ≡ length xs → take n (xs ++ ys) ≡ xs
  take-append [] ys zero e = refl
  take-append [] ys (suc n) e = absurd (omega arith)
  take-append (x ∷ xs) ys zero e = absurd (omega arith)
  take-append (x ∷ xs) ys (suc n) e = ap (◌∷◌ x) (take-append xs ys n (omega arith))

  pub drop-append : (xs ys : List A) (n : ℕ) → n ≡ length xs → drop n (xs ++ ys) ≡ ys
  drop-append [] ys zero e = refl
  drop-append [] ys (suc n) e = absurd (omega arith)
  drop-append (x ∷ xs) ys zero e = absurd (omega arith)
  drop-append (x ∷ xs) ys (suc n) e = drop-append xs ys n (omega arith)

  pub take_all : (xs : List A) (n : ℕ) → length xs ≤ n → take n xs ≡ xs
  take_all [] zero h = refl
  take_all [] (suc n) h = refl
  take_all (x ∷ xs) zero h = absurd (omega arith)
  take_all (x ∷ xs) (suc n) h = ap (◌∷◌ x) (take_all xs n (omega arith))

  pub drop_all : (xs : List A) (n : ℕ) → length xs ≤ n → drop n xs ≡ []
  drop_all [] zero h = refl
  drop_all [] (suc n) h = refl
  drop_all (x ∷ xs) zero h = absurd (omega arith)
  drop_all (x ∷ xs) (suc n) h = drop_all xs n (omega arith)

  -- Two splittings of one list at the same place are the same.
  pub append-injective :
      (as' bs cs ds : List A)
      → length as' ≡ length cs
      → as' ++ bs ≡ cs ++ ds
      → (as' ≡ cs) × (bs ≡ ds)
  append-injective [] bs [] ds h e = (refl, e)
  append-injective [] bs (c ∷ cs) ds h e = absurd (omega arith)
  append-injective (a ∷ as') bs [] ds h e = absurd (omega arith)
  append-injective (a ∷ as') bs (c ∷ cs) ds h e =
      let rest = append-injective as' bs cs ds (omega arith) (cc) in (cc, rest.1)

  pub get_or-set_self :
      (xs : List A) (i : ℕ) (v d : A) → i < length xs → get_or (set xs i v) i d ≡ v
  get_or-set_self [] i v d h = absurd (omega arith)
  get_or-set_self (x ∷ xs) zero v d h = refl
  get_or-set_self (x ∷ xs) (suc i) v d h = get_or-set_self xs i v d (omega arith)

  pub get_or-set_ne :
      (xs : List A) {i j : ℕ} (v d : A) → i ≢ j → get_or (set xs i v) j d ≡ get_or xs j d
  get_or-set_ne [] v d h = refl
  get_or-set_ne (x ∷ xs) {i = zero} {j = zero} v d h = absurd (h refl)
  get_or-set_ne (x ∷ xs) {i = zero} {j = suc j} v d h = refl
  get_or-set_ne (x ∷ xs) {i = suc i} {j = zero} v d h = refl
  get_or-set_ne (x ∷ xs) {i = suc i} {j = suc j} v d h = get_or-set_ne xs v d (λ e. h (ap suc e))

  -- A predicate on every element, by recursion: the tactics read it as a tuple.
  abbrev pub All {κ} : (A → Type κ) → List A → Type κ
  All P [] = Unit
  All P (x ∷ xs) = P x × All P xs

  pub All-append {κ} : (P : A → Type κ) (xs ys : List A) → All P xs → All P ys → All P (xs ++ ys)
  All-append P [] ys hx hy = hy
  All-append P (x ∷ xs) ys hx hy = (hx.0, All-append P xs ys hx.1 hy)

  pub All-split {κ} : (P : A → Type κ) (xs ys : List A) → All P (xs ++ ys) → All P xs × All P ys
  All-split P [] ys h = (tt, h)
  All-split P (x ∷ xs) ys h = let (hx, hy) = All-split P xs ys h.1 in ((h.0, hx), hy)

-- A place in an appended list stands in the first part or in the second.
module _ {ℓ} {A : Type ℓ} where
  pub take-append_le : (n : ℕ) (xs ys : List A) → n ≤ length xs → take n (xs ++ ys) ≡ take n xs
  take-append_le zero xs ys h = refl
  take-append_le (suc n) [] ys h = absurd (omega arith)
  take-append_le (suc n) (x ∷ xs) ys h = ap (◌∷◌ x) (take-append_le n xs ys (omega arith))

  pub drop-append_le :
      (n : ℕ) (xs ys : List A) → n ≤ length xs → drop n (xs ++ ys) ≡ drop n xs ++ ys
  drop-append_le zero xs ys h = refl
  drop-append_le (suc n) [] ys h = absurd (omega arith)
  drop-append_le (suc n) (x ∷ xs) ys h = drop-append_le n xs ys (omega arith)

  pub take-append_add :
      (xs ys : List A) (i n : ℕ) → n ≡ length xs + i → take n (xs ++ ys) ≡ xs ++ take i ys
  take-append_add [] ys i n e = ap (λ m. take m ys) {x = n} {y = i} (omega arith)
  take-append_add (x ∷ xs) ys i zero e = absurd (omega arith)
  take-append_add (x ∷ xs) ys i (suc n) e = ap (◌∷◌ x) (take-append_add xs ys i n (omega arith))

  pub drop-append_add :
      (xs ys : List A) (i n : ℕ) → n ≡ length xs + i → drop n (xs ++ ys) ≡ drop i ys
  drop-append_add [] ys i n e = ap (λ m. drop m ys) {x = n} {y = i} (omega arith)
  drop-append_add (x ∷ xs) ys i zero e = absurd (omega arith)
  drop-append_add (x ∷ xs) ys i (suc n) e = drop-append_add xs ys i n (omega arith)

  -- A write behind a list, and one inside it.
  pub put_at-append_add :
      (xs ys bs : List A) (i n : ℕ)
      → n ≡ length xs + i
      → put_at n bs (xs ++ ys) ≡ xs ++ put_at i bs ys
  put_at-append_add xs ys bs i n e =
      ap₂ (λ front back. front ++ (bs ++ back)) (take-append_add xs ys i n e)
        (drop-append_add xs ys (i + length bs) (n + length bs) (omega arith))
      ∙ append_assoc xs (take i ys) (bs ++ drop (i + length bs) ys)

  pub put_at-append_le :
      (xs ys bs : List A) (i : ℕ)
      → i + length bs ≤ length xs
      → put_at i bs (xs ++ ys) ≡ put_at i bs xs ++ ys
  put_at-append_le xs ys bs i h =
      ap₂ (λ front back. front ++ (bs ++ back)) (take-append_le i xs ys (omega arith))
        (drop-append_le (i + length bs) xs ys h)
      ∙ ap (λ back. take i xs ++ back) (sym (append_assoc bs (drop (i + length bs) xs) ys))
      ∙ sym (append_assoc (take i xs) (bs ++ drop (i + length bs) xs) ys)

  pub length-put_at :
      (bs xs : List A) (i : ℕ) → i + length bs ≤ length xs → length (put_at i bs xs) ≡ length xs
  length-put_at bs xs i h = omega (
    arith,
    length-append (take i xs) (bs ++ drop (i + length bs) xs),
    length-append bs (drop (i + length bs) xs),
    length-take i xs,
    length-drop (i + length bs) xs,
  )

  abbrev pub concat : List (List A) → List A
  concat [] = []
  concat (xs ∷ xss) = xs ++ concat xss
