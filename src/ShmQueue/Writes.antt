-- ===== src/ShmQueue/Writes.antt =====
-- shm_queue/shm_queue.cpp, one of the three writes of Enqueue: whichever branch it takes, its bytes
-- stand in order on the ring and the cursor is left behind them.
use native.Mathlib.Nat.{mod-eq_of_lt}
use mq_cplusplus.Base.{
  ℕ, ◌+◌, ◌-◌, ◌%◌, ◌≤◌, ◌<◌, ◌≡◌, refl, sym, ◌∙◌, ◌⊎◌, inl, inr, arith, length, take, drop, Bytes,
  le→leb, dec_le, dec_lt,
}
use mq_cplusplus.ShmQueue.{Cursor, tail_mark, header_bytes, save_header, save_body, save_tail}
use mq_cplusplus.ShmQueue.Memory.{write_at}
use mq_cplusplus.ShmQueue.Ring.{ring_write, write_at-ring_write, write_split, wrap_mod}

-- A cursor with `n` bytes still to write: before the end of the segment, exactly at it, or past it.
pub record HasRoom (len head : ℕ) (c : Cursor) (n : ℕ) : Type 0 where
  pub inside : c.index < len
  pub bounded : n ≤ len
  pub limit : head < len
  pub place :
      ((c.index + c.space ≡ len) × (c.index + n ≤ len + head))
      ⊎ (((c.index ≡ 0) × (c.space ≡ 0) × (n ≤ head))
          ⊎ ((c.index + c.space ≤ head) × (n ≤ c.space)))

module _ (len head : ℕ) where
  -- One write of `length bs` of the remaining `n` bytes.
  pub record Wrote (c : Cursor) (bs : Bytes) (n : ℕ) : Type 0 where
    pub bytes : (save_body len head c bs).bytes ≡ ring_write len c.bytes c.index bs
    pub index : (save_body len head c bs).index ≡ (c.index + length bs) % len
    pub room : HasRoom len head (save_body len head c bs) (n - length bs)

  module _ (c : Cursor) (bs : Bytes) (n : ℕ) (r : HasRoom len head c n) (h : length bs ≤ n) where
    straight : Cursor
    straight = record {
      bytes = write_at c.bytes c.index bs;
      index = (c.index + length bs) % len;
      space = c.space - length bs;
    }

    split : Cursor
    split = record {
      bytes = write_at (write_at c.bytes c.index (take c.space bs)) 0 (drop c.space bs);
      index = (0 + length bs - c.space) % len;
      space = head - (0 + length bs - c.space) % len;
    }

    save_body-straight : length bs ≤ c.space → save_body len head c bs ≡ straight
    unfolding save_body straight
    save_body-straight e = rw (le→leb _ _ e)

    save_body-split : c.space < length bs → save_body len head c bs ≡ split
    unfolding save_body split
    save_body-split e = ground arith

    straight_index :
        length bs ≤ c.space
        → ((c.index + length bs < len) × ((c.index + length bs) % len ≡ c.index + length bs))
          ⊎ ((c.index + length bs ≡ len) × ((c.index + length bs) % len ≡ 0))
    straight_index e = elim (dec_lt (c.index + length bs) len) [
      | yes p ↦ inl (p, mod-eq_of_lt p)
      | no p ↦
          inr (
            omega arith,
            omega (arith, wrap_mod len c.index (length bs) (omega arith) (omega arith)),
          )
    ]

    split_index : c.space < length bs → (0 + length bs - c.space) % len ≡ length bs - c.space
    split_index e =
        omega (arith, mod-eq_of_lt {n = 0 + length bs - c.space} {m = len} (omega arith))

    split_end : c.space < length bs → (c.index + length bs) % len ≡ length bs - c.space
    split_end e = elim (dec_lt (c.index + length bs) len) [
      | yes p ↦ omega (arith, mod-eq_of_lt p)
      | no p ↦ omega (arith, wrap_mod len c.index (length bs) (omega arith) (omega arith))
    ]

    -- The cursor stands before the end, or exactly at it with nothing left to write there.
    split_bytes :
        c.space < length bs
        → write_at (write_at c.bytes c.index (take c.space bs)) 0 (drop c.space bs)
          ≡ ring_write len c.bytes c.index bs
    unfolding write_at
    split_bytes e = elim r.place [
      | inl (at_end, room) ↦
          write_split len c.bytes c.index c.space bs r.inside at_end (omega arith) (omega arith)
      | inr (inl (at_zero, no_space, room)) ↦
          rw (at_zero, no_space) (write_at-ring_write len c.bytes 0 bs (omega arith))
      | inr (inr (past, room)) ↦ absurd (omega arith)
    ]

    Wrote-straight : length bs ≤ c.space → Wrote c bs n
    unfolding straight
    Wrote-straight e = record {
      bytes = rw (save_body-straight e) (write_at-ring_write len c.bytes c.index bs (omega arith));
      index = rw (save_body-straight e);
      room = rw (save_body-straight e) (omega (arith, straight_index e));
    }

    Wrote-split : c.space < length bs → Wrote c bs n
    unfolding split
    Wrote-split e = record {
      bytes = rw (save_body-split e) (split_bytes e);
      index = rw (save_body-split e) (sym (split_end e ∙ sym (split_index e)));
      room = rw (save_body-split e) (omega (arith, split_index e));
    }

  pub save_body-Wrote :
      (c : Cursor) (bs : Bytes) (n : ℕ) → HasRoom len head c n → length bs ≤ n → Wrote c bs n
  save_body-Wrote c bs n r h = elim (dec_le (length bs) c.space) [
    | yes fits ↦ Wrote-straight c bs n r h fits
    | no splits ↦ Wrote-split c bs n r h (omega arith)
  ]

  -- The three writes differ only in what they write.
  pub save_header-save_body :
      (c : Cursor) (i n : ℕ)
      → save_header len head c (header_bytes i n) ≡ save_body len head c (header_bytes i n)
  unfolding save_header save_body
  save_header-save_body c i n = refl

  pub save_tail-save_body : (c : Cursor) → save_tail c ≡ (save_body len head c tail_mark).bytes
  unfolding save_tail save_body
  save_tail-save_body c = ground arith
