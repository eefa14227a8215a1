-- ===== src/ShmQueue/Put.antt =====
-- Enqueue against the bounded queue of blocks.
use native.Mathlib.Nat.{mod-lt, mod-add-mod}
use mq_cplusplus.Base.{
  ℕ, ◌+◌, ◌%◌, ◌≤◌, ◌<◌, ◌≡◌, refl, sym, ap, subst, ◌∙◌, List, [], ◌∷◌, ◌++◌, arith, length, Bytes,
  length-append, dec_le, some, le→leb, lt→leb,
}
use mq_cplusplus.ShmQueue.{
  ShmQueue, success, full, head_size, tail_size, inc32, enqueue_locked, enqueue, spin, cas32,
  save_block,
}
use mq_cplusplus.ShmQueue.Ring.{window, ring_write, window-ring_write_self, length-ring_write}
use mq_cplusplus.ShmQueue.Layout.{frame, block_size, length-frame, save_block-ring_write}
use mq_cplusplus.ShmQueue.View.{
  total, total-append, Holds, IsFree, Stored, Stored-ring_write, Stored-snoc, free_space-total,
  Holds-HasSpace, length-le-total,
}
use mq_cplusplus.ShmQueue.Fifo

module _ {q : ShmQueue} (ds : List Bytes) (d : Bytes) (h : Holds q ds)
    (room : total ds + block_size d ≤ q.len) where
  saved :
      save_block q d
      ≡ ring_write q.len q.mem ((q.head + total ds) % q.len) (frame ((q.head + total ds) % q.len) d)
  saved =
      save_block-ring_write q d (Holds-HasSpace ds (block_size d) h room)
      ∙ ap (λ j. ring_write q.len q.mem j (frame j d)) h.tail_at

  Stored-save_block : Stored q.len (save_block q d) q.head (ds ++ d ∷ [])
  Stored-save_block =
      subst (λ m. Stored q.len m q.head (ds ++ d ∷ [])) (sym saved)
        (Stored-snoc q.len _ q.head ds d h.head_in
          (Stored-ring_write q.len q.mem q.head (total ds) ds (frame at d) h.head_in (omega arith)
            (omega (arith, length-frame at d)) h.stored)
          (subst (λ n. window q.len (ring_write q.len q.mem at (frame at d)) at n ≡ frame at d)
            (length-frame at d)
            (window-ring_write_self q.len q.mem at (frame at d)
              (mod-lt _ (omega (arith, h.head_in))) h.mem_size (omega (arith, length-frame at d)))))
    where
      at : ℕ
      at = (q.head + total ds) % q.len

  extended : ShmQueue
  extended = record q {
    tail = (q.tail + length d + head_size + tail_size) % q.len;
    block_num = inc32 q.block_num;
    mem = save_block q d;
  }

  extended_tail :
      (q.tail + length d + head_size + tail_size) % q.len ≡ (q.head + total (ds ++ d ∷ [])) % q.len
  extended_tail =
      ap (λ j. (j + length d + head_size + tail_size) % q.len) h.tail_at
      ∙ ap (λ j. j % q.len) (omega arith)
      ∙ mod-add-mod (q.head + total ds) q.len (block_size d)
      ∙ ap (λ j. j % q.len) (omega (arith, total-append ds d))

  extended-Holds : Holds extended (ds ++ d ∷ [])
  unfolding extended
  extended-Holds = record {
    head_in = h.head_in;
    len_small = h.len_small;
    mem_size = omega (
      arith,
      h.mem_size,
      ap length saved,
      length-ring_write q.len q.mem ((q.head + total ds) % q.len)
          (frame ((q.head + total ds) % q.len) d),
    );
    fits = omega (arith, total-append ds d);
    tail_at = extended_tail;
    counted = omega (arith, h.counted, h.len_small, length-append ds (d ∷ []), length-le-total ds);
    stored = Stored-save_block;
  }

  enqueue_locked-room : enqueue_locked q d ≡ (success, extended)
  unfolding enqueue_locked extended
  enqueue_locked-room = ground (arith, free_space-total ds h)

enqueue_locked-full :
    {q : ShmQueue} (ds : List Bytes) (d : Bytes)
    → Holds q ds
    → q.len < total ds + block_size d
    → enqueue_locked q d ≡ (full, q)
unfolding enqueue_locked
enqueue_locked-full {q} ds d h e = ground (arith, free_space-total ds h, h.fits)

used_num-enqueue_locked : (q : ShmQueue) (d : Bytes) → (enqueue_locked q d).1.used_num ≡ q.used_num
unfolding enqueue_locked
used_num-enqueue_locked q d = ground arith

enqueue-free :
    (q : ShmQueue) (d : Bytes)
    → IsFree q
    → let (ret, q') = enqueue_locked (record q { used_num = 1 }) d in
      enqueue q d ≡ some (ret, record q' { used_num = 0 })
unfolding enqueue spin cas32
enqueue-free q d f = ground (arith, used_num-enqueue_locked (record q { used_num = 1 }) d)

pub held-Holds :
    {q : ShmQueue} (ds : List Bytes) (n : ℕ) → Holds q ds → Holds (record q { used_num = n }) ds
held-Holds ds n h = record {
  head_in = h.head_in;
  len_small = h.len_small;
  mem_size = h.mem_size;
  fits = h.fits;
  tail_at = h.tail_at;
  counted = h.counted;
  stored = h.stored;
}

-- Between the spin loops Enqueue does what the bounded queue of blocks does.
pub enqueue_locked-put :
    {q : ShmQueue} (ds : List Bytes) (d : Bytes)
    → Holds q ds
    → ((enqueue_locked q d).0 ≡ (Fifo.put q.len ds d).0)
      × Holds (enqueue_locked q d).1 (Fifo.put q.len ds d).1
      × ((enqueue_locked q d).1.len ≡ q.len)
      × ((enqueue_locked q d).1.used_num ≡ q.used_num)
      × ((enqueue_locked q d).1.attached ≡ q.attached)
unfolding Fifo.put extended
enqueue_locked-put {q} ds d h = elim (dec_le (total ds + block_size d) q.len) [
  | yes room ↦
      rw (le→leb _ _ room, enqueue_locked-room ds d h room)
        (refl, extended-Holds ds d h room, refl, refl, refl)
  | no small ↦
      rw
        (
          lt→leb (total ds + block_size d) q.len (omega arith),
          enqueue_locked-full ds d h (omega arith),
        )
        (refl, h, refl, refl, refl)
]

-- Enqueue on a queue that holds the blocks `ds` and that no process is in returns what the bounded
-- queue of blocks returns: `success` with the block behind the others if it fits, with its header
-- and tail flags, in what they leave of the segment, and otherwise `full` with the blocks as they
-- were. It gives the queue free again, at the same length.
pub enqueue-put :
    {q : ShmQueue} (ds : List Bytes) (d : Bytes)
    → Holds q ds
    → IsFree q
    → (q' : ShmQueue) × (enqueue q d ≡ some ((Fifo.put q.len ds d).0, q'))
      × Holds q' (Fifo.put q.len ds d).1
      × IsFree q'
      × (q'.len ≡ q.len)
enqueue-put {q} ds d h f =
    let (ret, holds, len, used, ready) = enqueue_locked-put ds d (held-Holds ds 1 h) in
    (
      record ((enqueue_locked (record q { used_num = 1 }) d).1) { used_num = 0 },
      enqueue-free q d f
          ∙ ap
              (λ r.
                some
                  (r, record ((enqueue_locked (record q { used_num = 1 }) d).1) { used_num = 0 }))
              ret,
      held-Holds (Fifo.put q.len ds d).1 0 holds,
      record { released = refl; ready = ready ∙ f.ready },
      len,
    )
