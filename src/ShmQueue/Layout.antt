-- ===== src/ShmQueue/Layout.antt =====
-- How Enqueue lays a block out: whichever branches its three writes take, the bytes of the block
-- stand in order on the ring from `m_iTail` on.
use native.Mathlib.Nat.{mod-eq_of_lt, mod-lt, mod-add-mod}
use mq_cplusplus.Base.{
  ℕ, ◌+◌, ◌-◌, ◌%◌, ◌≤◌, ◌<◌, ◌≡◌, refl, sym, ap, ap₂, ◌∙◌, inl, Bool, true, false, ◌||◌, ◌++◌,
  arith, ltb, leb, if◌then◌else◌, length, Bytes, length-append, dec_le, dec_lt,
}
use mq_cplusplus.ShmQueue.{
  ShmQueue, Cursor, head_size, tail_size, tail_mark, header_bytes, save_header, save_body,
  save_tail, save_block,
}
use mq_cplusplus.ShmQueue.Memory.{write_at}
use mq_cplusplus.ShmQueue.Ring.{ring_write, ring_write-append, write_at-ring_write}
use mq_cplusplus.ShmQueue.Writes.{
  Wrote, save_body-Wrote, save_header-save_body, save_tail-save_body,
}

-- The bytes of one block: header, data, six tail flags.
abbrev pub frame : ℕ → Bytes → Bytes
frame index date = header_bytes index (length date) ++ (date ++ tail_mark)

abbrev pub block_size : Bytes → ℕ
block_size date = head_size + length date + tail_size

pub length-frame : (i : ℕ) (date : Bytes) → length (frame i date) ≡ block_size date
length-frame i date = omega (arith, length-append date tail_mark)

-- Where the free region holds a block of this size: between the tail and the head, round the end
-- if the head is not after the tail.
pub record HasSpace (q : ShmQueue) (n : ℕ) : Type 0 where
  pub head_in : q.head < q.len
  pub tail_in : q.tail < q.len
  pub small : n ≤ q.len
  pub behind : q.tail < q.head → q.tail + n ≤ q.head
  pub around : q.head ≤ q.tail → q.tail + n ≤ q.len + q.head

ring_write-three :
    (len : ℕ) (mem : Bytes) (i : ℕ) (a b c : Bytes)
    → i < len
    → ring_write len mem i (a ++ (b ++ c))
      ≡ ring_write len
          (ring_write len (ring_write len mem i a) ((i + length a) % len) b)
          ((i + length a + length b) % len)
          c
ring_write-three len mem i a b c h =
    ring_write-append len mem i a (b ++ c) h
    ∙ ring_write-append len (ring_write len mem i a) ((i + length a) % len) b c
        (mod-lt _ (omega arith))
    ∙ ap
        (λ j. ring_write len (ring_write len (ring_write len mem i a) ((i + length a) % len) b) j c)
        (mod-add-mod (i + length a) len (length b))

module _ (q : ShmQueue) (hdr date : Bytes) (n : ℕ) (s : HasSpace q n) (h8 : length hdr ≡ head_size)
    (whole : n ≡ head_size + length date + tail_size) where
  start : Cursor
  start = record { bytes = q.mem; index = q.tail; space = q.len - q.tail }

  first : Cursor
  first = save_body q.len q.head start hdr

  second : Cursor
  second = save_body q.len q.head first date

  first-Wrote : q.head ≤ q.tail → Wrote q.len q.head start hdr n
  unfolding start
  first-Wrote e =
      save_body-Wrote q.len q.head start hdr n
        (record {
          inside = s.tail_in;
          bounded = s.small;
          limit = s.head_in;
          place = inl (omega (arith, s.tail_in), s.around e);
        })
        (omega arith)

  second-Wrote : q.head ≤ q.tail → Wrote q.len q.head first date (n - length hdr)
  unfolding first
  second-Wrote e =
      save_body-Wrote q.len q.head first date (n - length hdr) (first-Wrote e).room (omega arith)

  wrapped-ring_write :
      q.head ≤ q.tail
      → save_tail second ≡ ring_write q.len q.mem q.tail (hdr ++ (date ++ tail_mark))
  unfolding start first second
  wrapped-ring_write e =
      save_tail-save_body q.len q.head second
      ∙ third.bytes
      ∙ ap₂ (λ m j. ring_write q.len m j tail_mark) (second-Wrote e).bytes (second-Wrote e).index
      ∙ ap₂
          (λ m j.
            ring_write q.len (ring_write q.len m j date) ((j + length date) % q.len) tail_mark)
          (first-Wrote e).bytes (first-Wrote e).index
      ∙ ap
          (λ j.
            ring_write q.len
              (ring_write q.len (ring_write q.len q.mem q.tail hdr) ((q.tail + length hdr) % q.len)
                date)
              j tail_mark)
          (mod-add-mod (q.tail + length hdr) q.len (length date))
      ∙ sym (ring_write-three q.len q.mem q.tail hdr date tail_mark s.tail_in)
    where
      third : Wrote q.len q.head second tail_mark (n - length hdr - length date)
      third =
          save_body-Wrote q.len q.head second tail_mark (n - length hdr - length date)
            (second-Wrote e).room (omega arith)

  straight-ring_write :
      q.tail + n ≤ q.len
      → write_at
          (write_at (write_at q.mem q.tail hdr) (q.tail + head_size) date)
          (q.tail + head_size + length date)
          tail_mark
        ≡ ring_write q.len q.mem q.tail (hdr ++ (date ++ tail_mark))
  straight-ring_write e =
      write_at-ring_write q.len _ (q.tail + head_size + length date) tail_mark (omega arith)
      ∙ ap (λ m. ring_write q.len m (q.tail + head_size + length date) tail_mark)
          (write_at-ring_write q.len _ (q.tail + head_size) date (omega arith)
            ∙ ap (λ m. ring_write q.len m (q.tail + head_size) date)
                (write_at-ring_write q.len q.mem q.tail hdr (omega arith)))
      ∙ ap₂
          (λ j k.
            ring_write q.len (ring_write q.len (ring_write q.len q.mem q.tail hdr) j date) k
              tail_mark)
          (omega (arith, mod-eq_of_lt {n = q.tail + length hdr} {m = q.len} (omega arith)))
          (omega
            (arith, mod-eq_of_lt {n = q.tail + length hdr + length date} {m = q.len} (omega arith)))
      ∙ sym (ring_write-three q.len q.mem q.tail hdr date tail_mark s.tail_in)

not_behind : (q : ShmQueue) (n : ℕ) → HasSpace q n → ¬ (q.tail + n ≤ q.len) → q.head ≤ q.tail
not_behind q n s e = elim (dec_lt q.tail q.head) [
  | yes p ↦ absurd (omega (arith, s.behind p))
  | no p ↦ omega arith
]

-- Enqueue writes exactly the frame of the block, on the ring from the tail on.
pub save_block-ring_write :
    (q : ShmQueue) (date : Bytes)
    → HasSpace q (block_size date)
    → save_block q date ≡ ring_write q.len q.mem q.tail (frame q.tail date)
unfolding save_block start first second
save_block-ring_write q date s = elim (dec_le (q.tail + block_size date) q.len) [
  | yes fits ↦
      ap (λ (b : Bool). if b then straight else wrapped) (fits_test fits)
      ∙ straight-ring_write q hdr date (block_size date) s refl refl fits
  | no splits ↦
      ap (λ (b : Bool). if b then straight else wrapped) (splits_test splits)
      ∙ ap (λ c. save_tail (save_body q.len q.head c date))
          (save_header-save_body q.len q.head _ q.tail (length date))
      ∙ wrapped-ring_write q hdr date (block_size date) s refl refl
          (not_behind q (block_size date) s splits)
]
  where
    hdr : Bytes
    hdr = header_bytes q.tail (length date)

    straight : Bytes
    straight =
        write_at (write_at (write_at q.mem q.tail hdr) (q.tail + head_size) date)
          (q.tail + head_size + length date) tail_mark

    wrapped : Bytes
    wrapped = save_tail (
        save_body q.len q.head
          (save_header q.len q.head
            (record { bytes = q.mem; index = q.tail; space = q.len - q.tail }) hdr)
          date)

    test : Bool
    test = ltb q.tail q.head || leb (length date + head_size + tail_size) (q.len - q.tail)

    fits_test : q.tail + block_size date ≤ q.len → test ≡ true
    fits_test e = ground arith

    splits_test : ¬ (q.tail + block_size date ≤ q.len) → test ≡ false
    splits_test e = ground (arith, not_behind q (block_size date) s e)
