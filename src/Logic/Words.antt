-- ===== src/Logic/Words.antt =====
-- logicServer/logicServer.cpp, Exchange::IsFit: the two loops that cut a key into words.
use mq_cplusplus.Base.{
  ◌≡◌, refl, sym, ap, ◌∙◌, false, List, [], ◌∷◌, ◌++◌, Bytes, All, append_assoc, append-nil,
  Bool-cases, inl, inr, All-append,
}
use mq_cplusplus.Logic.Topic.{is_dot, word_then, split_from, split}

-- Not empty, without a dot or a terminator.
abbrev pub IsWord : Bytes → Type 0
IsWord [] = ⊥
IsWord (c ∷ cs) = All (λ x. is_dot x ≡ false) (c ∷ cs)

-- Words with a dot between them.
abbrev pub join : List Bytes → Bytes
join [] = []
join (w ∷ []) = w
join (w ∷ v ∷ ws) = w ++ 46 ∷ join (v ∷ ws)

split_from-append :
    (word w rest : Bytes)
    → All (λ x. is_dot x ≡ false) w
    → split_from word (w ++ rest) ≡ split_from (word ++ w) rest
unfolding split_from
split_from-append word [] rest h = ap (λ s. split_from s rest) (sym (append-nil word))
split_from-append word (c ∷ w) rest h =
    rw h.0 (split_from-append (word ++ c ∷ []) w rest h.1)
    ∙ ap (λ s. split_from s rest) (append_assoc word (c ∷ []) w)

word_then-IsWord : (w : Bytes) (ws : List Bytes) → IsWord w → word_then w ws ≡ w ∷ ws
unfolding word_then
word_then-IsWord [] ws h = absurd h
word_then-IsWord (c ∷ cs) ws h = refl

IsWord-dots : (w : Bytes) → IsWord w → All (λ x. is_dot x ≡ false) w
IsWord-dots [] h = absurd h
IsWord-dots (c ∷ cs) h = h

-- A key that is made of words with dots between them is cut into these words.
pub split-join : (ws : List Bytes) → All IsWord ws → split (join ws) ≡ ws
unfolding split split_from word_then
split-join [] h = refl
split-join (w ∷ []) h =
    ap (split_from []) (sym (append-nil w))
    ∙ split_from-append [] w [] (IsWord-dots w h.0)
    ∙ word_then-IsWord w [] h.0
split-join (w ∷ v ∷ ws) h =
    split_from-append [] w (46 ∷ join (v ∷ ws)) (IsWord-dots w h.0)
    ∙ word_then-IsWord w _ h.0
    ∙ ap (◌∷◌ w) (split-join (v ∷ ws) h.1)

word_then-All :
    (w : Bytes) (ws : List Bytes)
    → All (λ x. is_dot x ≡ false) w
    → All IsWord ws
    → All IsWord (word_then w ws)
unfolding word_then
word_then-All [] ws h hs = hs
word_then-All (c ∷ cs) ws h hs = (h, hs)

split_from-IsWord :
    (word cs : Bytes) → All (λ x. is_dot x ≡ false) word → All IsWord (split_from word cs)
unfolding split_from
split_from-IsWord word [] h = word_then-All word [] h tt
split_from-IsWord word (c ∷ cs) h = elim (Bool-cases (is_dot c)) [
  | inl e ↦ rw e (word_then-All word _ h (split_from-IsWord [] cs tt))
  | inr e ↦ rw e (split_from-IsWord (word ++ c ∷ []) cs (All-append _ word (c ∷ []) h (e, tt)))
]

-- Whatever the key is, no word that it is cut into is empty or holds a dot.
pub split-IsWord : (key : Bytes) → All IsWord (split key)
unfolding split
split-IsWord key = split_from-IsWord [] key tt
