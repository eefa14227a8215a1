-- ===== src/Connect/Cutting.antt =====
-- connectServer/connectServer.cpp, the loop over the receive buffer: it forwards the whole packets,
-- and moves the beginning of one more to the front.
use mq_cplusplus.Base.{
  ℕ, zero, suc, ◌+◌, ◌-◌, ◌≤◌, ◌<◌, ◌≡◌, refl, sym, ap, ap₂, ◌∙◌, none, some, List, [], ◌∷◌, ◌++◌,
  arith, length, take, drop, span, put_at, All, concat, Bytes, append_assoc, length-append,
  length-drop, take-append, drop-append, length-put_at, lt→ltb, le→ltb, dec_lt,
}
use mq_cplusplus.ShmQueue.Channel.{Channel}
use mq_cplusplus.Message.Wire.{int_bytes}
use mq_cplusplus.Connect.Receive.{
  get_client_package, Receiving, move_front, forward_packet, cut_packets,
}
use mq_cplusplus.Connect.Packets.{
  IsPacket, with_index, Begins, get_client_package-whole, get_client_package-part,
}

-- The bytes that a receive buffer holds between head and tail.
pub record Holding (r : Receiving) (front bytes behind : Bytes) : Type 0 where
  pub buff : r.buff ≡ front ++ (bytes ++ behind)
  pub head : r.head ≡ length front
  pub tail : r.tail ≡ length front + length bytes

length-with_index : (index : ℕ) (p : Bytes) → IsPacket p → length (with_index index p) ≡ length p
length-with_index index p k = length-put_at (int_bytes index) p 2 (omega (arith, k.long))

move_front-Holding :
    (r : Receiving) (front bytes behind : Bytes)
    → Holding r front bytes behind
    → (behind' : Bytes) × (move_front r
        ≡ record { buff = bytes ++ behind'; head = 0; tail = length bytes })
      × (length (bytes ++ behind') ≡ length r.buff)
unfolding move_front
move_front-Holding r front bytes behind h =
    (drop (0 + length bytes) r.buff, ap₂ moved held size, whole)
  where
    moved : Bytes → ℕ → Receiving
    moved bs n = record { buff = put_at 0 bs r.buff; head = 0; tail = n }

    size : r.tail - r.head ≡ length bytes
    size = omega (arith, h.head, h.tail)

    held : span r.head (r.tail - r.head) r.buff ≡ bytes
    held =
        ap₂ (λ n b. take (r.tail - r.head) (drop n b)) h.head h.buff
        ∙ ap (take (r.tail - r.head)) (drop-append front (bytes ++ behind) (length front) refl)
        ∙ take-append bytes behind (r.tail - r.head) size

    whole : length (bytes ++ drop (0 + length bytes) r.buff) ≡ length r.buff
    whole = omega (
      arith,
      length-append bytes (drop (0 + length bytes) r.buff),
      length-drop (0 + length bytes) r.buff,
      ap length h.buff,
      length-append front (bytes ++ behind),
      length-append bytes behind,
    )

-- Whole packets are not empty.
none_left :
    (qs : List Bytes) (q : Bytes)
    → All IsPacket qs
    → length (concat qs ++ q) ≡ 0
    → (qs ≡ []) × (q ≡ [])
none_left [] [] k e = (refl, refl)
none_left [] (b ∷ q) k e = absurd (omega arith)
none_left (p ∷ qs) q k e =
    absurd (omega (arith, k.0.long, length-append (p ++ concat qs) q, length-append p (concat qs)))

-- A round of the loop at a whole packet `p`, with `rest` behind it.
module _ (index : ℕ) (p rest front behind : Bytes) (r : Receiving) (k : IsPacket p)
    (h : Holding r front (p ++ rest) behind) where
  written : Bytes
  written = front ++ ((with_index index p ++ rest) ++ behind)

  after : Receiving
  after = record r { buff = written; head = r.head + length p }

  found :
      (len : ℕ)
      → len ≡ length (p ++ rest)
      → get_client_package r.buff r.head len index ≡ some (written, length p)
  unfolding written
  found len e =
      ap₂ (λ b i. get_client_package b i len index) h.buff h.head
      ∙ get_client_package-whole index front behind p rest len k e

  sent : span r.head (length p) written ≡ with_index index p
  unfolding written
  sent =
      ap (λ i. span i (length p) written) h.head
      ∙ ap (take (length p)) (
          drop-append front ((with_index index p ++ rest) ++ behind) (length front) refl
          ∙ append_assoc (with_index index p) rest behind)
      ∙ take-append (with_index index p) (rest ++ behind) (length p)
          (sym (length-with_index index p k))

  after-Holding : Holding after (front ++ with_index index p) rest behind
  unfolding after written
  after-Holding = record {
    buff =
        ap (◌++◌ front) (append_assoc (with_index index p) rest behind)
        ∙ sym (append_assoc front (with_index index p) (rest ++ behind));
    head =
        omega
          (arith, h.head, length-with_index index p k, length-append front (with_index index p));
    tail = omega (
      arith,
      h.tail,
      length-with_index index p k,
      length-append front (with_index index p),
      length-append p rest,
    );
  }

  length-written : length written ≡ length r.buff
  unfolding written
  length-written =
      parts (with_index index p)
      ∙ ap (λ n. length front + (n + length rest + length behind)) (length-with_index index p k)
      ∙ sym (ap length h.buff ∙ parts p)
    where
      parts :
          (x : Bytes)
          → length (front ++ ((x ++ rest) ++ behind))
            ≡ length front + (length x + length rest + length behind)
      parts x = omega (
        arith,
        length-append front ((x ++ rest) ++ behind),
        length-append (x ++ rest) behind,
        length-append x rest,
      )

  module _ {S : Type 0} (channel : Channel S) (fuel len : ℕ) (s : S)
      (l : len ≡ length (p ++ rest)) where
    round_more :
        length p < len
        → (x : Receiving × ℕ × S)
        → cut_packets channel index fuel
            (len - length p)
            after
            (forward_packet channel (with_index index p) s)
          ≡ x
        → cut_packets channel index (suc fuel) len r s ≡ (x.0, x.1 + 1, x.2)
    unfolding cut_packets after
    round_more more x e =
        rw (cut_packets, found len l, lt→ltb (length p) len more)
          (ap
              (λ b. counted (
                cut_packets channel index fuel (len - length p) after (forward_packet channel b s)))
              sent
            ∙ ap counted e)
      where
        counted : Receiving × ℕ × S → Receiving × ℕ × S
        counted y = (y.0, y.1 + 1, y.2)

    round_done :
        len ≤ length p
        → cut_packets channel index (suc fuel) len r s ≡ (
          record { buff = written; head = 0; tail = 0 },
          1,
          forward_packet channel (with_index index p) s,
        )
    unfolding cut_packets
    round_done done =
        rw (cut_packets, found len l, le→ltb (length p) len done)
          (ap (λ b. (cut_off, 1, forward_packet channel b s)) sent)
      where
        cut_off : Receiving
        cut_off = record { buff = written; head = 0; tail = 0 }

module _ {S : Type 0} (channel : Channel S) where
  -- The packets are sent to the logic server, one after the other, each once the queue has been waited for.
  unfoldable pub forward_all : ℕ → List Bytes → S → S
  forward_all index [] s = s
  forward_all index (p ∷ ps) s =
      forward_all index ps
        (channel.send (channel.room s (with_index index p)) (with_index index p)).1

  pub forward_all-append :
      (index : ℕ) (ps qs : List Bytes) (s : S)
      → forward_all index (ps ++ qs) s ≡ forward_all index qs (forward_all index ps s)
  unfolding forward_all
  forward_all-append index [] qs s = refl
  forward_all-append index (p ∷ ps) qs s = forward_all-append index ps qs _

  -- What the loop leaves of the buffer, how many packets it took, and the queue.
  abbrev Left : ℕ → List Bytes → Bytes → Bytes → S → Receiving × ℕ × S
  Left index qs q behind s =
      (record { buff = q ++ behind; head = 0; tail = length q }, length qs, forward_all index qs s)

  pub cut_packets-lem :
      (index : ℕ) (qs rs : List Bytes) (q y front behind : Bytes) (r : Receiving) (fuel len : ℕ)
      (s : S)
      → Holding r front (concat qs ++ q) behind
      → All IsPacket qs
      → All IsPacket rs
      → q ++ y ≡ concat rs
      → Begins rs q
      → len ≡ length (concat qs ++ q)
      → 0 < len
      → len ≤ fuel
      → (behind' : Bytes) × (cut_packets channel index fuel len r s ≡ Left index qs q behind' s)
        × (length (q ++ behind') ≡ length r.buff)
  unfolding cut_packets forward_all forward_packet after written
  cut_packets-lem index qs rs q y front behind r zero len s h kq kr e b l pos f =
      absurd (omega arith)
  cut_packets-lem index [] rs q y front behind r (suc fuel) len s h kq kr e b l pos f =
      let (behind', moved, size) = move_front-Holding r front q behind h in
      (behind', rw (cut_packets, nothing) (ap (λ (r : Receiving). (r, 0, s)) moved), size)
    where
      nothing : get_client_package r.buff r.head len index ≡ none
      nothing =
          ap (λ b. get_client_package b r.head len index) h.buff
          ∙ ap₂ (λ i n. get_client_package (front ++ (q ++ behind)) i n index) h.head l
          ∙ get_client_package-part index front behind q y rs kr e b
  cut_packets-lem index (p ∷ qs) rs q y front behind r (suc fuel) len s h kq kr e b l pos f =
      elim (dec_lt (length p) len) [
        | yes more ↦
            let (behind', path, size) =
              cut_packets-lem index qs rs q y (front ++ with_index index p) behind
                (after index p rest front behind r kq.0 h') fuel (len - length p)
                (forward_packet channel (with_index index p) s)
                (after-Holding index p rest front behind r kq.0 h') kq.1 kr e b
                (omega (arith, sizes)) (omega arith) (omega (arith, kq.0.long)) in
            (
              behind',
              round_more index p rest front behind r kq.0 h' channel fuel len s l' more _ path
                  ∙ ap (λ n. (left_of q behind', n, forward_all index (p ∷ qs) s))
                      {x = length qs + 1} {y = suc (length qs)} (omega arith),
              size ∙ length-written index p rest front behind r kq.0 h',
            )
        | no done ↦
            let (qs0, q0) = none_left qs q kq.1 (omega (arith, sizes)) in
            let buff = written index p rest front behind r kq.0 h' in
            (
              buff,
              round_done index p rest front behind r kq.0 h' channel fuel len s l' (omega arith)
                  ∙ sym (
                      ap₂ (λ x xs. (left_of x buff, suc (length xs), forward_all index (p ∷ xs) s))
                        q0 qs0),
              ap (λ x. length (x ++ buff)) q0 ∙ length-written index p rest front behind r kq.0 h',
            )
      ]
    where
      rest : Bytes
      rest = concat qs ++ q

      h' : Holding r front (p ++ rest) behind
      h' = rw (append_assoc p (concat qs) q) at h

      l' : len ≡ length (p ++ rest)
      l' = l ∙ ap length (append_assoc p (concat qs) q)

      sizes : len ≡ length p + length rest
      sizes = l' ∙ length-append p rest

      left_of : Bytes → Bytes → Receiving
      left_of x buff = record { buff = x ++ buff; head = 0; tail = length x }
