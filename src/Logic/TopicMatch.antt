-- ===== src/Logic/TopicMatch.antt =====
-- logicServer/logicServer.cpp, Exchange::IsFit: the table of matches against its recurrence, and the
-- words of a key.
use mq_cplusplus.Base.{
  inl, inr, ◌↔◌, arith, name_eq→eq, name_eq_self, Bool-cases, ◌≡◌, refl, sym, ap, ap₂, ◌∙◌, Bool,
  true, false, ◌||◌, List, [], ◌∷◌, if◌then◌else◌, replicate, length, Bytes, name_eq, All,
}
use mq_cplusplus.Logic.Topic.{star, hash, split, dp_cell, dp_row, dp_rows, last_or, is_fit}

-- The last words first.
abbrev pub backwards : List Bytes → List Bytes → List Bytes
backwards acc [] = acc
backwards acc (w ∷ ws) = backwards (w ∷ acc) ws

-- Whether words of a binding key match words of a routing key, both from the last word on: "#" in
-- the routing key covers the last word of the binding key, or no word of a binding key that has
-- one; "*" covers any word, and every other word itself.
unfoldable pub matches : List Bytes → List Bytes → Bool
matches [] [] = true
matches [] (r ∷ rs) = false
matches (b ∷ bs) [] = false
matches (b ∷ bs) (r ∷ rs) =
    let left = matches (b ∷ bs) rs in
    let up = matches bs (r ∷ rs) in
    let corner = matches bs rs in
    if name_eq r hash then up || left else if name_eq r star || name_eq b r then corner else false

-- A row of the table from a column on: `acc` are the words of the columns before, last word first.
cells : List Bytes → List Bytes → List Bytes → List Bool
cells bs acc [] = matches bs acc ∷ []
cells bs acc (r ∷ rs) = matches bs acc ∷ cells bs (r ∷ acc) rs

cells-tail : List Bytes → List Bytes → List Bytes → List Bool
cells-tail bs acc [] = []
cells-tail bs acc (r ∷ rs) = cells bs (r ∷ acc) rs

dp_row-cells :
    (b : Bytes) (bs acc rs : List Bytes)
    → dp_row b rs (matches (b ∷ bs) acc) (cells bs acc rs) ≡ cells-tail (b ∷ bs) acc rs
unfolding dp_row dp_cell cells cells-tail matches
dp_row-cells b bs acc [] = refl
dp_row-cells b bs acc (r ∷ []) = refl
dp_row-cells b bs acc (r ∷ r' ∷ rs) =
    ap (◌∷◌ (matches (b ∷ bs) (r ∷ acc))) (dp_row-cells b bs (r ∷ acc) (r' ∷ rs))

cells-parts : (bs acc rs : List Bytes) → cells bs acc rs ≡ matches bs acc ∷ cells-tail bs acc rs
unfolding cells cells-tail
cells-parts bs acc [] = refl
cells-parts bs acc (r ∷ rs) = refl

first-row : (acc rs : List Bytes) → replicate (length rs) false ≡ cells-tail [] acc rs
unfolding cells-tail matches
first-row acc [] = refl
first-row acc (r ∷ rs) = ap (◌∷◌ false) (first-row (r ∷ acc) rs) ∙ sym (cells-parts [] (r ∷ acc) rs)

dp_rows-cells :
    (bs before rs : List Bytes)
    → dp_rows bs rs (cells before [] rs) ≡ cells (backwards before bs) [] rs
unfolding dp_rows matches
dp_rows-cells [] before rs = refl
dp_rows-cells (b ∷ bs) before rs =
    ap (dp_rows bs rs)
      (ap (◌∷◌ false) (dp_row-cells b before [] rs) ∙ sym (cells-parts (b ∷ before) [] rs))
    ∙ dp_rows-cells bs (b ∷ before) rs

last_or-cells :
    (d : Bool) (bs acc rs : List Bytes)
    → last_or d (cells bs acc rs) ≡ matches bs (backwards acc rs)
unfolding last_or cells
last_or-cells d bs acc [] = refl
last_or-cells d bs acc (r ∷ rs) = last_or-cells (matches bs acc) bs (r ∷ acc) rs

-- The table that is filled row by row has in its last cell what the recurrence says of the words of
-- both keys.
pub is_fit-matches :
    (routing_key binding_key : Bytes)
    → is_fit routing_key binding_key
      ≡ matches (backwards [] (split binding_key)) (backwards [] (split routing_key))
unfolding is_fit matches cells
is_fit-matches routing_key binding_key =
    let bs = split binding_key in
    let rs = split routing_key in
    ap (λ row. last_or false (dp_rows bs rs row))
      (ap (◌∷◌ true) (first-row [] rs) ∙ sym (cells-parts [] [] rs))
    ∙ ap (last_or false) (dp_rows-cells bs [] rs)
    ∙ last_or-cells false (backwards [] bs) [] rs

backwards_again : (acc ws : List Bytes) → backwards [] (backwards acc ws) ≡ backwards ws acc
backwards_again acc [] = refl
backwards_again acc (w ∷ ws) = backwards_again (w ∷ acc) ws

backwards-All :
    (P : Bytes → Type 0) (acc ws : List Bytes) → All P acc → All P ws → All P (backwards acc ws)
backwards-All P acc [] h hs = h
backwards-All P acc (w ∷ ws) h hs = backwards-All P (w ∷ acc) ws (hs.0, h) hs.1

-- Neither "*" nor "#".
abbrev pub IsPlain : Bytes → Type 0
IsPlain w = (name_eq w star ≡ false) × (name_eq w hash ≡ false)

matches-plain : (bs rs : List Bytes) → All IsPlain rs → (matches bs rs ≡ true) ↔ (bs ≡ rs)
unfolding matches
matches-plain [] [] h = (λ e. refl, λ e. refl)
matches-plain [] (r ∷ rs) h = (λ e. ground (arith, e), λ e. cc)
matches-plain (b ∷ bs) [] h = (λ e. ground (arith, e), λ e. cc)
matches-plain (b ∷ bs) (r ∷ rs) ((hs, hh), h) = elim (Bool-cases (name_eq b r)) [
  | inl e ↦
      rw (hh, hs, e)
        (
          λ m. ap₂ ◌∷◌ (name_eq→eq b r e) ((matches-plain bs rs h).0 m),
          λ p. (matches-plain bs rs h).1 cc,
        )
  | inr e ↦ rw (hh, hs, e) (λ m. ground (arith, m), λ p. absurd (differs b r e cc))
]
  where
    differs : (b r : Bytes) → name_eq b r ≡ false → b ≡ r → ⊥
    differs b r e p = ground (arith, sym e ∙ ap (name_eq b) (sym p) ∙ name_eq_self b)

-- A routing key none of whose words is "*" or "#" fits a binding key exactly if the two have the
-- same words: a "*" or "#" in the binding key stands for itself alone.
pub is_fit-plain :
    (routing_key binding_key : Bytes)
    → All IsPlain (split routing_key)
    → (is_fit routing_key binding_key ≡ true) ↔ (split binding_key ≡ split routing_key)
is_fit-plain routing_key binding_key h =
    let bs = split binding_key in
    let rs = split routing_key in
    let (to, from) =
      matches-plain (backwards [] bs) (backwards [] rs) (backwards-All IsPlain [] rs tt h) in
    (
      λ e.
          sym (backwards_again [] bs)
          ∙ ap (backwards []) (to (sym (is_fit-matches routing_key binding_key) ∙ e))
          ∙ backwards_again [] rs,
      λ e. is_fit-matches routing_key binding_key ∙ from (ap (backwards []) e),
    )
