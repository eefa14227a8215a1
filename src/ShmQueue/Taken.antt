-- ===== src/ShmQueue/Taken.antt =====
-- shm_queue/shm_queue.cpp, the reads of Dequeue at a head where a block stands.
use native.Mathlib.Nat.{mod-eq_of_lt, mod-lt, mod-add-mod}
use mq_cplusplus.Base.{
  ℕ, ◌+◌, ◌-◌, ◌%◌, ◌≤◌, ◌<◌, ◌≡◌, sym, ap, ap₂, subst, ◌∙◌, ◌⊎◌, inl, Bool, true, not, ◌||◌, ◌&&◌,
  List, [], ◌∷◌, arith, length, Bytes, dec_lt, Option, some, leb, ltb, ◌==◌, if◌then◌else◌,
  name_eq_self,
}
use mq_cplusplus.ShmQueue.{
  ShmQueue, success, empty, buf_small, Reply, head_size, tail_size, tail_mark, header_bytes, dec32,
  is_negative, read_split, next_index, take_block, read_block, dequeue_locked,
}
use mq_cplusplus.ShmQueue.Memory.{int_at}
use mq_cplusplus.ShmQueue.Ring.{wrap_mod}
use mq_cplusplus.ShmQueue.View.{total, Holds, Stored, counter_small}
use mq_cplusplus.ShmQueue.Read.{
  read_split_lem, next_index_lem, int_at-header_bytes, Parts, frame-Parts,
}

regroup : (i n : ℕ) → i + (head_size + n + tail_size) ≡ i + head_size + n + tail_size
regroup i n = omega arith

-- The whole of Dequeue's reading, at a head where a block stands.
module _ {q : ShmQueue} (d : Bytes) (ds : List Bytes) (h : Holds q (d ∷ ds)) where
  parts : Parts q.len q.mem q.head d
  parts = frame-Parts q.len q.mem q.head d h.head_in h.stored.0

  next : ℕ
  next = (q.head + head_size) % q.len

  header_read : read_split q.mem q.head (q.len - q.head) head_size ≡ header_bytes q.head (length d)
  header_read =
      read_split_lem q.len q.mem q.head (q.len - q.head) head_size h.head_in
        (inl (omega (arith, h.head_in))) (omega (arith, h.fits))
      ∙ parts.header

  next_read : next_index q.len q.head (q.len - q.head) head_size ≡ next
  unfolding next
  next_read = next_index_lem q.len q.head head_size h.head_in (omega (arith, h.fits))

  next_in : next < q.len
  unfolding next
  next_in = mod-lt _ (omega (arith, h.head_in))

  body_read : read_split q.mem next (q.len - next) (length d) ≡ d
  unfolding next
  body_read =
      read_split_lem q.len q.mem next (q.len - next) (length d) next_in
        (inl (omega (arith, next_in))) (omega (arith, h.fits))
      ∙ parts.body

  -- After the data the index stands at the tail flags, with the room to the end known.
  after_body :
      next_index q.len next (q.len - next) (length d) ≡ (q.head + head_size + length d) % q.len
  unfolding next
  after_body =
      next_index_lem q.len next (length d) next_in (omega (arith, h.fits)) ∙ mod-add-mod _ _ _

  at_tail : (next + length d) % q.len ≡ (q.head + head_size + length d) % q.len
  unfolding next
  at_tail = mod-add-mod _ _ _

  tail_space : ℕ
  tail_space =
      if leb (length d) (q.len - next)
      then q.len - next - length d
      else q.len - next_index q.len next (q.len - next) (length d)

  tail_place :
      ((q.head + head_size + length d) % q.len + tail_space ≡ q.len)
      ⊎ (((q.head + head_size + length d) % q.len ≡ 0) × (tail_space ≡ 0))
  unfolding tail_space
  tail_place = elim (dec_lt (next + length d) q.len) [
    | yes p ↦ ground (arith, at_tail, mod-eq_of_lt p, next_in)
    | no p ↦ ground (
      arith,
      at_tail,
      after_body,
      wrap_mod q.len next (length d) (omega arith) (omega (arith, next_in, h.fits)),
      next_in,
    )
  ]

  abbrev pub taken : Reply
  taken = record {
    status = success;
    buf_len = length d;
    date = d;
    queue = record q {
      head = (q.head + head_size + length d + tail_size) % q.len;
      block_num = dec32 q.block_num;
    };
  }

  mark_read :
      read_split q.mem (next_index q.len next (q.len - next) (length d)) tail_space tail_size
      ≡ tail_mark
  mark_read =
      ap (λ j. read_split q.mem j tail_space tail_size) after_body
      ∙ read_split_lem q.len q.mem _ tail_space tail_size (mod-lt _ (omega (arith, h.head_in)))
          tail_place (omega (arith, h.fits))
      ∙ parts.mark

  take_block_lem : take_block q next (length d) ≡ taken
  unfolding take_block tail_space
  take_block_lem = ground (arith, mark_read, body_read, name_eq_self tail_mark)

  pub taken-Holds : Holds taken.queue ds
  taken-Holds = record {
    head_in = mod-lt _ (omega (arith, h.head_in));
    len_small = h.len_small;
    mem_size = h.mem_size;
    fits = omega (arith, h.fits);
    tail_at =
        h.tail_at
        ∙ sym (
            mod-add-mod (q.head + head_size + length d + tail_size) q.len (total ds)
            ∙ ap (λ j. j % q.len) (omega arith));
    counted = omega (arith, h.counted, counter_small (d ∷ ds) h);
    stored = subst (λ j. Stored q.len q.mem (j % q.len) ds) (regroup q.head (length d)) h.stored.1;
  }

  dequeue_locked-read_block :
      (buf_len : ℕ) → dequeue_locked q buf_len ≡ read_block q buf_len next q.head (length d)
  unfolding dequeue_locked
  dequeue_locked-read_block buf_len =
      ap (λ (b : Bool). if b then reading else nothing) occupied
      ∙ ap (λ j. read_block q buf_len j (int_at hdr 0) (int_at hdr 4)) next_read
      ∙ ap₂ (read_block q buf_len next) (ap (λ b. int_at b 0) header_read ∙ fields.0)
          (ap (λ b. int_at b 4) header_read ∙ fields.1)
    where
      hdr : Bytes
      hdr = read_split q.mem q.head (q.len - q.head) head_size

      reading : Option Reply
      reading =
          read_block q buf_len (next_index q.len q.head (q.len - q.head) head_size) (int_at hdr 0)
            (int_at hdr 4)

      nothing : Option Reply
      nothing = some (record { status = empty; buf_len = buf_len; date = []; queue = q })

      occupied :
          ((ltb 0 q.block_num && not (is_negative q.block_num)) || not (q.head == q.tail)) ≡ true
      occupied = ground (arith, h.counted, counter_small (d ∷ ds) h)

      fields :
          (int_at (header_bytes q.head (length d)) 0 ≡ q.head)
          × (int_at (header_bytes q.head (length d)) 4 ≡ length d)
      fields =
          int_at-header_bytes q.head (length d) (omega (arith, h.head_in, h.len_small))
            (omega (arith, h.fits, h.len_small))

  pub dequeue_locked-small :
      (buf_len : ℕ)
      → buf_len < length d
      → dequeue_locked q buf_len
        ≡ some (record { status = buf_small; buf_len = length d; date = []; queue = q })
  unfolding read_block
  dequeue_locked-small buf_len e =
      dequeue_locked-read_block buf_len ∙ ground (arith, h.fits, h.len_small)

  pub dequeue_locked-taken :
      (buf_len : ℕ) → length d ≤ buf_len → dequeue_locked q buf_len ≡ some taken
  unfolding read_block
  dequeue_locked-taken buf_len e =
      dequeue_locked-read_block buf_len ∙ ground (arith, h.fits, h.len_small, take_block_lem)
