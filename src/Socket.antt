-- ===== src/Socket.antt =====
-- mq_util/mq_util.cpp, Sendn and Recvn: the loops around send and recv. What the calls return comes
-- as a list; `none` is a loop that still waits when the list ends.
use mq_cplusplus.Base.{
  ℕ, zero, suc, ◌-◌, ◌≤◌, ◌≡◌, refl, ap, ◌∙◌, sym, Bool, true, false, Option, none, some, List, [],
  ◌∷◌, ◌++◌, arith, length, take, drop, Bytes, take-append-drop, append_assoc, append-nil, take_all,
  drop_all, ◌⊎◌, inl, inr, ◌>>=◌,
}

-- What one call of send or recv returns: an error after which the loop waits, another error, or how
-- many bytes went; 0 ends the loop too.
pub data Transfer : Type 0 where
  wait broken : Transfer
  moved : ℕ → Transfer

differ : false ≡ true → ⊥
differ e = cc

-- Whether all went out, and the bytes that went.
unfoldable pub sendn : List Transfer → Bytes → Option (Bool × Bytes)
sendn ts [] = some (true, [])
sendn [] (b ∷ bs) = none
sendn (wait ∷ ts) (b ∷ bs) = sendn ts (b ∷ bs)
sendn (broken ∷ ts) (b ∷ bs) = some (false, [])
sendn (moved zero ∷ ts) (b ∷ bs) = some (false, [])
sendn (moved (suc n) ∷ ts) (b ∷ bs) = do
  (whole, out) ← sendn ts (drop n bs)
  some (whole, b ∷ (take n bs ++ out))

-- Recvn of `left` bytes from the bytes `stream` on their way: whether all came, what came, and what is
-- still on its way. A call gives no more than it is asked for, and no more than there is.
unfoldable pub recvn : List Transfer → ℕ → Bytes → Option (Bool × Bytes × Bytes)
recvn ts zero stream = some (true, [], stream)
recvn [] (suc left) stream = none
recvn (wait ∷ ts) (suc left) stream = recvn ts (suc left) stream
recvn (broken ∷ ts) (suc left) stream = some (false, [], stream)
recvn (moved zero ∷ ts) (suc left) stream = some (false, [], stream)
recvn (moved (suc n) ∷ ts) (suc left) [] = some (false, [], [])
recvn (moved (suc n) ∷ ts) (suc left) (b ∷ stream) =
    let got : Bytes = take n (take left stream) in
    do
      (whole, more, rest) ← recvn ts (left - length got) (drop (length got) stream)
      some (whole, b ∷ (got ++ more), rest)

-- What Sendn sends is the front of what it is given, and all of it if it says so.
pub sendn-prefix :
    (ts : List Transfer) (bs : Bytes)
    → (sendn ts bs ≡ none)
      ⊎ ((whole : Bool) × (out : Bytes) × (rest : Bytes) × (sendn ts bs ≡ some (whole, out))
          × (bs ≡ out ++ rest)
          × (whole ≡ true → rest ≡ []))
unfolding sendn
sendn-prefix ts [] = inr (true, [], [], refl, refl, λ h. refl)
sendn-prefix [] (b ∷ bs) = inl refl
sendn-prefix (wait ∷ ts) (b ∷ bs) = sendn-prefix ts (b ∷ bs)
sendn-prefix (broken ∷ ts) (b ∷ bs) = inr (false, [], b ∷ bs, refl, refl, λ h. absurd (differ h))
sendn-prefix (moved zero ∷ ts) (b ∷ bs) =
    inr (false, [], b ∷ bs, refl, refl, λ h. absurd (differ h))
sendn-prefix (moved (suc n) ∷ ts) (b ∷ bs) = elim (sendn-prefix ts (drop n bs)) [
  | inl waits ↦ inl (rw waits refl)
  | inr (whole, out, rest, e, split, all) ↦ inr (
    whole,
    b ∷ (take n bs ++ out),
    rest,
    rw e refl,
    ap (◌∷◌ b) (
        sym (take-append-drop n bs)
        ∙ ap (◌++◌ (take n bs)) split
        ∙ sym (append_assoc (take n bs) out rest)),
    all,
  )
]

-- One call of send that takes all.
pub sendn-at_once :
    (n : ℕ) (ts : List Transfer) (bs : Bytes)
    → length bs ≤ suc n
    → sendn (moved (suc n) ∷ ts) bs ≡ some (true, bs)
unfolding sendn
sendn-at_once n ts [] h = refl
sendn-at_once n ts (b ∷ bs) h =
    rw (drop_all bs n (omega arith), take_all bs n (omega arith), append-nil) refl
