-- ===== src/ShmQueue/Get.antt =====
-- Dequeue against the bounded queue of blocks.
use mq_cplusplus.Base.{
  ℕ, ◌≡◌, refl, ◌∙◌, List, [], ◌∷◌, arith, length, Bytes, dec_lt, Option, some, lt→ltb, le→ltb,
}
use mq_cplusplus.ShmQueue.{ShmQueue, empty, Reply, dequeue_locked, dequeue, spin, cas32}
use mq_cplusplus.ShmQueue.View.{Holds, IsFree, tail_cases}
use mq_cplusplus.ShmQueue.Fifo
use mq_cplusplus.ShmQueue.Put.{held-Holds}
use mq_cplusplus.ShmQueue.Taken.{taken, taken-Holds, dequeue_locked-small, dequeue_locked-taken}

dequeue_locked-empty :
    {q : ShmQueue} (buf_len : ℕ)
    → Holds q []
    → dequeue_locked q buf_len
      ≡ some (record { status = empty; buf_len = buf_len; date = []; queue = q })
unfolding dequeue_locked
dequeue_locked-empty {q} buf_len h = ground (arith, h.counted, tail_cases [] h)

-- What Dequeue returns when it gives the queue free again.
freed : Reply → Option Reply
freed r = some (record r { queue = record (r.queue) { used_num = 0 } })

dequeue-free :
    (q : ShmQueue) (buf_len : ℕ) (r : Reply)
    → IsFree q
    → dequeue_locked (record q { used_num = 1 }) buf_len ≡ some r
    → r.queue.used_num ≡ 1
    → dequeue q (some buf_len) ≡ freed r
unfolding dequeue spin cas32 freed
dequeue-free q buf_len r f e u = ground arith

-- Between the spin loops Dequeue does what the bounded queue of blocks does.
pub dequeue_locked-get :
    {q : ShmQueue} (ds : List Bytes) (buf_len : ℕ)
    → Holds q ds
    → let a = Fifo.get ds buf_len in
      (q' : ShmQueue) × (dequeue_locked q buf_len
        ≡ some (record { status = a.status; buf_len = a.buf_len; date = a.date; queue = q' }))
      × Holds q' a.rest
      × (q'.len ≡ q.len)
      × (q'.used_num ≡ q.used_num)
      × (q'.attached ≡ q.attached)
unfolding Fifo.get
dequeue_locked-get {q} [] buf_len h = (q, dequeue_locked-empty buf_len h, h, refl, refl, refl)
dequeue_locked-get {q} (d ∷ ds) buf_len h = elim (dec_lt buf_len (length d)) [
  | yes small ↦
      rw (lt→ltb _ _ small) (q, dequeue_locked-small d ds h buf_len small, h, refl, refl, refl)
  | no fits ↦ rw (le→ltb buf_len (length d) (omega arith)) (
    (taken d ds h).queue,
    dequeue_locked-taken d ds h buf_len (omega arith),
    taken-Holds d ds h,
    refl,
    refl,
    refl,
  )
]

-- Dequeue, with a buffer of `buf_len` bytes, on a queue that holds the blocks `ds` and that no
-- process is in returns what the bounded queue of blocks returns: `empty`, or the oldest block if
-- the buffer holds it, or else `buf_small` with the length that is wanted and the blocks as they
-- were. It gives the queue free again, at the same length.
pub dequeue-get :
    {q : ShmQueue} (ds : List Bytes) (buf_len : ℕ)
    → Holds q ds
    → IsFree q
    → let a = Fifo.get ds buf_len in
      (q' : ShmQueue) × (dequeue q (some buf_len)
        ≡ some (record { status = a.status; buf_len = a.buf_len; date = a.date; queue = q' }))
      × Holds q' a.rest
      × IsFree q'
      × (q'.len ≡ q.len)
unfolding freed
dequeue-get {q} ds buf_len h f =
    let (q', e, holds, len, used, ready) = dequeue_locked-get ds buf_len (held-Holds ds 1 h) in
    (
      record q' { used_num = 0 },
      dequeue-free q buf_len _ f e used,
      held-Holds (Fifo.get ds buf_len).rest 0 holds,
      record { released = refl; ready = ready ∙ f.ready },
      len,
    )
