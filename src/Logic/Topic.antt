-- ===== src/Logic/Topic.antt =====
-- logicServer/logicServer.cpp, Exchange::IsFit: the words of the keys, and the table of matches.
use mq_cplusplus.Base.{
  ℕ, Bool, true, false, ◌||◌, List, [], ◌∷◌, ◌++◌, ◌==◌, if◌then◌else◌, replicate, length, Bytes,
  name_eq,
}

-- '.', and the terminator.
abbrev pub is_dot : ℕ → Bool
is_dot c = (c == 46) || (c == 0)

-- "*" and "#"
abbrev pub star : Bytes
star = 42 ∷ []

abbrev pub hash : Bytes
hash = 35 ∷ []

-- A word that is not empty goes to the end of the vector.
unfoldable pub word_then : Bytes → List Bytes → List Bytes
word_then [] words = words
word_then (c ∷ cs) words = (c ∷ cs) ∷ words

-- The loop over `hi`; `word` is what stands between `lo` and `hi`.
unfoldable pub split_from : Bytes → Bytes → List Bytes
split_from word [] = word_then word []
split_from word (c ∷ cs) =
    let after = split_from [] cs in
    let longer = split_from (word ++ c ∷ []) cs in if is_dot c then word_then word after else longer

unfoldable pub split : Bytes → List Bytes
split = split_from []

-- `dp[i][j]` from the word of the binding key in row `i`, the word of the routing key in column `j`
-- and the three neighbours.
unfoldable pub dp_cell : Bytes → Bytes → (left up corner : Bool) → Bool
dp_cell b r left up corner =
    if name_eq r hash then up || left else if name_eq r star || name_eq b r then corner else false

-- The columns of row `i` from `j` on: `left` is `dp[i][j-1]`, `row` is row `i-1` from `j-1` on.
unfoldable pub dp_row : Bytes → List Bytes → Bool → List Bool → List Bool
dp_row b [] left row = []
dp_row b (r ∷ rs) left [] = []
dp_row b (r ∷ rs) left (corner ∷ []) = []
dp_row b (r ∷ rs) left (corner ∷ up ∷ row) =
    let cell = dp_cell b r left up corner in cell ∷ dp_row b rs cell (up ∷ row)

-- The rows one after the other; `dp[i][0]` stays false.
unfoldable pub dp_rows : List Bytes → List Bytes → List Bool → List Bool
dp_rows [] rs row = row
dp_rows (b ∷ bs) rs row = dp_rows bs rs (false ∷ dp_row b rs false row)

unfoldable pub last_or : Bool → List Bool → Bool
last_or d [] = d
last_or d (b ∷ bs) = last_or b bs

unfoldable pub is_fit : Bytes → Bytes → Bool
is_fit routing_key binding_key =
    let rs = split routing_key in
    last_or false (dp_rows (split binding_key) rs (true ∷ replicate (length rs) false))
