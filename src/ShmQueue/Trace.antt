-- ===== src/ShmQueue/Trace.antt =====
-- Whole sequences of calls on one queue, from the segment that Init lays out.
use native.Mathlib.Nat.{mod-eq_of_lt}
use mq_cplusplus.Base.{
  ℕ, ◌^◌, ◌<◌, ◌≡◌, refl, sym, List, [], ◌∷◌, arith, Bytes, Option, some, ◌>>=◌, length-replicate,
}
use mq_cplusplus.ShmQueue.{ShmQueue, Status, init_fresh, enqueue, dequeue}
use mq_cplusplus.ShmQueue.View.{Holds, IsFree}
use mq_cplusplus.ShmQueue.Fifo
use mq_cplusplus.ShmQueue.Put.{enqueue-put}
use mq_cplusplus.ShmQueue.Get.{dequeue-get}

pub data Op : Type 0 where
  put : Bytes → Op
  get : ℕ → Op

-- What a caller sees of one call: the status, the length and the bytes handed back.
abbrev pub Seen : Type 0
Seen = Status × ℕ × Bytes

unfoldable pub run : ShmQueue → List Op → Option (List Seen)
run q [] = some []
run q (put d ∷ ops) = do (ret, q') ← enqueue q d; rest ← run q' ops; some ((ret, 0, []) ∷ rest)
run q (get n ∷ ops) = do
  r ← dequeue q (some n)
  rest ← run r.queue ops
  some ((r.status, r.buf_len, r.date) ∷ rest)

pub run_fifo : ℕ → List Bytes → List Op → List Seen
run_fifo cap ds [] = []
run_fifo cap ds (put d ∷ ops) =
    let (ret, ds') = Fifo.put cap ds d in (ret, 0, []) ∷ run_fifo cap ds' ops
run_fifo cap ds (get n ∷ ops) =
    let a = Fifo.get ds n in (a.status, a.buf_len, a.date) ∷ run_fifo cap a.rest ops

-- A fresh segment of at least one byte and fewer than 2^31 holds no block, and is free.
pub init_fresh-Holds :
    (n : ℕ) → 0 < n → n < 2 ^ 31 → Holds (init_fresh n) [] × IsFree (init_fresh n)
unfolding init_fresh
init_fresh-Holds n pos small =
    let byte : ℕ = 0 in
    (
      record {
        head_in = pos;
        len_small = small;
        mem_size = omega (arith, length-replicate n byte);
        fits = omega arith;
        tail_at = sym (mod-eq_of_lt pos);
        counted = refl;
        stored = tt;
      },
      record { released = refl; ready = refl },
    )

-- A queue that holds blocks and that no process is in: no sequence of calls of Enqueue and Dequeue
-- tells it from the bounded queue of these blocks, since every call returns, and with the same
-- answer.
pub run-run_fifo :
    (ops : List Op) (ds : List Bytes) {q : ShmQueue}
    → Holds q ds
    → IsFree q
    → run q ops ≡ some (run_fifo q.len ds ops)
unfolding run run_fifo
run-run_fifo [] ds h f = refl
run-run_fifo (put d ∷ ops) ds {q} h f =
    let (q', e, h', f', same) = enqueue-put ds d h f in
    rw e (rw (run-run_fifo ops (Fifo.put q.len ds d).1 h' f') (rw same))
run-run_fifo (get n ∷ ops) ds {q} h f =
    let (q', e, h', f', same) = dequeue-get ds n h f in
    rw e (rw (run-run_fifo ops (Fifo.get ds n).rest h' f') (rw same))
