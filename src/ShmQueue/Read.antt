-- ===== src/ShmQueue/Read.antt =====
-- The reads of Dequeue: round the ring, and the three parts of a block.
use native.Mathlib.Nat.{mod-eq_of_lt, mod-lt, mod-add-mod, sub-zero}
use mq_cplusplus.Base.{
  ℕ, ◌+◌, ◌-◌, ◌%◌, ◌^◌, ◌≤◌, ◌<◌, ◌≡◌, sym, ap, ◌∙◌, ◌⊎◌, inl, inr, ◌++◌, arith, length, Bytes,
  append-injective, dec_le, le→leb, lt→leb,
}
use mq_cplusplus.ShmQueue.{head_size, tail_size, tail_mark, header_bytes, read_split, next_index}
use mq_cplusplus.ShmQueue.Memory.{read_at, int_at}
use mq_cplusplus.ShmQueue.Ring.{
  window, length-window, window-append, read_at-window, read_split-window, wrap_mod,
}
use mq_cplusplus.ShmQueue.Layout.{frame, block_size}

-- A split read from where the segment has `space` bytes left is a read round the ring.
pub read_split_lem :
    (len : ℕ) (mem : Bytes) (i space n : ℕ)
    → i < len
    → (i + space ≡ len) ⊎ ((i ≡ 0) × (space ≡ 0))
    → n ≤ len
    → read_split mem i space n ≡ window len mem i n
unfolding read_split read_at
read_split_lem len mem i space n hi place hn = elim (dec_le n space) [
  | yes fits ↦ rw (le→leb _ _ fits) (read_at-window len mem i n (omega arith))
  | no splits ↦ rw (lt→leb n space (omega arith)) (elim place [
    | inl at_end ↦ read_split-window len mem i space n hi at_end (omega arith) hn
    | inr (at_zero, no_space) ↦
        rw (at_zero, no_space, sub-zero) (read_at-window len mem 0 n (omega arith))
  ])
]

pub next_index_lem :
    (len i n : ℕ) → i < len → n ≤ len → next_index len i (len - i) n ≡ (i + n) % len
unfolding next_index
next_index_lem len i n hi hn = elim (dec_le n (len - i)) [
  | yes fits ↦ rw (le→leb _ _ fits)
  | no splits ↦ rw (lt→leb n (len - i) (omega arith)) (
      omega (
        arith,
        wrap_mod len i n (omega arith) (omega arith),
        mod-eq_of_lt {n = 0 + n - (len - i)} {m = len} (omega arith),
      ))
]

-- The header fields of a frame are read back.
pub int_at-header_bytes :
    (i n : ℕ)
    → i < 2 ^ 32
    → n < 2 ^ 32
    → (int_at (header_bytes i n) 0 ≡ i) × (int_at (header_bytes i n) 4 ≡ n)
int_at-header_bytes i n hi hn = (omega arith, omega arith)

-- The three parts of a block that stands on the ring at `i`.
pub record Parts (len : ℕ) (mem : Bytes) (i : ℕ) (d : Bytes) : Type 0 where
  pub header : window len mem i head_size ≡ header_bytes i (length d)
  pub body : window len mem ((i + head_size) % len) (length d) ≡ d
  pub mark : window len mem ((i + head_size + length d) % len) tail_size ≡ tail_mark

pub frame-Parts :
    (len : ℕ) (mem : Bytes) (i : ℕ) (d : Bytes)
    → i < len
    → window len mem i (block_size d) ≡ frame i d
    → Parts len mem i d
frame-Parts len mem i d hi e = record {
  header = outer.0;
  body = inner.0;
  mark =
      ap (λ j. window len mem j tail_size) (sym (mod-add-mod (i + head_size) len (length d)))
      ∙ inner.1;
}
  where
    outer :
        (window len mem i head_size ≡ header_bytes i (length d))
        × (window len mem ((i + head_size) % len) (length d + tail_size) ≡ d ++ tail_mark)
    outer =
        append-injective (window len mem i head_size) _ (header_bytes i (length d)) (d ++ tail_mark)
          (length-window len mem i head_size)
          (sym (window-append len mem i head_size (length d + tail_size) hi)
            ∙ ap (window len mem i) (omega arith)
            ∙ e)

    inner :
        (window len mem ((i + head_size) % len) (length d) ≡ d)
        × (window len mem (((i + head_size) % len + length d) % len) tail_size ≡ tail_mark)
    inner =
        append-injective (window len mem ((i + head_size) % len) (length d)) _ d tail_mark
          (length-window len mem ((i + head_size) % len) (length d))
          (sym (
              window-append len mem ((i + head_size) % len) (length d) tail_size
                (mod-lt _ (omega arith)))
            ∙ outer.1)
