-- ===== src/Connect/Packets.antt =====
-- connectServer/connectServer.cpp, GetClientPackageFromBuff, where a whole packet stands, and where a
-- part of one does.
use mq_cplusplus.Base.{
  ℕ, ◌+◌, ◌*◌, ◌^◌, ◌≤◌, ◌<◌, ◌≡◌, refl, sym, ap, ◌∙◌, Option, none, some, List, [], ◌∷◌, ◌++◌,
  arith, length, drop, put_at, All, concat, Bytes, append_assoc, length-append, drop-append,
  put_at-append_add, put_at-append_le, lt→ltb, le→ltb, dec_lt,
}
use mq_cplusplus.Message.Wire.{int_bytes, read_short}
use mq_cplusplus.Message.Request.{head_len}
use mq_cplusplus.Connect.Receive.{get_client_package}

-- A packet: not shorter than its header, and as long as the header says.
pub record IsPacket (p : Bytes) : Type 0 where
  pub long : head_len ≤ length p
  pub short : length p < 2 ^ 16
  pub header : read_short p ≡ some (length p, drop 2 p)

-- The packet as the logic server gets it: with the client's index in the header.
abbrev pub with_index : ℕ → Bytes → Bytes
with_index index p = put_at 2 (int_bytes index) p

-- What waits is the beginning of the next packet, and not all of it.
abbrev pub Begins : List Bytes → Bytes → Type 0
Begins [] q = q ≡ []
Begins (p ∷ ps) q = length q < length p

pub read_short-append :
    (p t r : Bytes) (n : ℕ) → read_short p ≡ some (n, r) → read_short (p ++ t) ≡ some (n, r ++ t)
unfolding read_short
read_short-append [] t r n e = cc
read_short-append (a ∷ []) t r n e = cc
read_short-append (a ∷ b ∷ p) t r n e =
    ap (λ o. elim o [ none ↦ none | some x ↦ some (x.0, x.1 ++ t) ]) e

-- The first two bytes decide.
pub read_short-begins :
    (q y p t behind : Bytes)
    → q ++ y ≡ p ++ t
    → 2 ≤ length q
    → 2 ≤ length p
    → (r : Bytes) × (m : ℕ) × (n : ℕ) × (read_short (q ++ behind) ≡ some (n, r))
      × (read_short p ≡ some (m, drop 2 p))
      × (n ≡ m)
unfolding read_short
read_short-begins [] y p t behind e hq hp = absurd (omega arith)
read_short-begins (a ∷ []) y p t behind e hq hp = absurd (omega arith)
read_short-begins (a ∷ b ∷ q) y [] t behind e hq hp = absurd (omega arith)
read_short-begins (a ∷ b ∷ q) y (c ∷ []) t behind e hq hp = absurd (omega arith)
read_short-begins (a ∷ b ∷ q) y (c ∷ d ∷ p) t behind e hq hp =
    (q ++ behind, c * 256 + d, a * 256 + b, refl, refl, same)
  where
    heads : (a ≡ c) × (b ≡ d)
    heads = (cc, cc)

    same : a * 256 + b ≡ c * 256 + d
    same = omega (arith, heads)

first_of : Option (ℕ × Bytes) → ℕ
first_of none = 0
first_of (some x) = x.0

module _ (index : ℕ) (front behind : Bytes) where
  -- A whole packet stands at the place.
  pub get_client_package-whole :
      (p rest : Bytes) (len : ℕ)
      → IsPacket p
      → len ≡ length (p ++ rest)
      → get_client_package (front ++ ((p ++ rest) ++ behind)) (length front) len index
        ≡ some (front ++ ((with_index index p ++ rest) ++ behind), length p)
  unfolding get_client_package
  get_client_package-whole p rest len k e =
      rw
        (
          le→ltb len head_len (omega (arith, k.long, length-append p rest)),
          read,
          le→ltb len (length p) (omega (arith, length-append p rest)),
          le→ltb (length p) head_len k.long,
        )
        (ap (λ (x : Bytes). some (x, length p)) written)
    where
      read :
          read_short (drop (length front) (front ++ ((p ++ rest) ++ behind)))
          ≡ some (length p, drop 2 p ++ (rest ++ behind))
      read =
          ap read_short (
            drop-append front ((p ++ rest) ++ behind) (length front) refl
            ∙ append_assoc p rest behind)
          ∙ read_short-append p (rest ++ behind) (drop 2 p) (length p) k.header

      written :
          put_at (length front + 2) (int_bytes index) (front ++ ((p ++ rest) ++ behind))
          ≡ front ++ ((with_index index p ++ rest) ++ behind)
      written =
          put_at-append_add front ((p ++ rest) ++ behind) (int_bytes index) 2 (length front + 2)
            refl
          ∙ ap (◌++◌ front) (
              put_at-append_le (p ++ rest) behind (int_bytes index) 2
                (omega (arith, k.long, length-append p rest))
              ∙ ap (λ x. x ++ behind)
                  (put_at-append_le p rest (int_bytes index) 2 (omega (arith, k.long))))

  -- Only a part of a packet stands there.
  pub get_client_package-part :
      (q y : Bytes) (rs : List Bytes)
      → All IsPacket rs
      → q ++ y ≡ concat rs
      → Begins rs q
      → get_client_package (front ++ (q ++ behind)) (length front) (length q) index ≡ none
  unfolding get_client_package first_of
  get_client_package-part q y [] k e b = rw b refl
  get_client_package-part q y (p ∷ ps) k e b = elim (dec_lt (length q) head_len) [
    | yes few ↦ rw (lt→ltb (length q) head_len few) refl
    | no enough ↦
        let (r, m, n, front_read, p_read, same) =
          read_short-begins q y p (concat ps) behind e (omega arith) (omega (arith, k.0.long)) in
        rw
          (
            le→ltb (length q) head_len (omega arith),
            drop-append front (q ++ behind) (length front) refl,
            front_read,
            lt→ltb (length q) n (omega (arith, b, same, ap first_of (sym p_read ∙ k.0.header))),
          )
          refl
  ]
