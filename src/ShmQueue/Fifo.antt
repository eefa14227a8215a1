-- ===== src/ShmQueue/Fifo.antt =====
-- What the shared-memory queue promises: a first-in first-out queue of data blocks that is bounded
-- by the bytes the blocks take, a block's header and tail flags included.
use mq_cplusplus.Base.{ℕ, ◌+◌, List, [], ◌∷◌, ◌++◌, ltb, leb, if◌then◌else◌, length, Bytes}
use mq_cplusplus.ShmQueue.{Status, success, full, empty, buf_small}
use mq_cplusplus.ShmQueue.Layout.{block_size}
use mq_cplusplus.ShmQueue.View.{total}

-- The answer of a dequeue: the status, the length, the bytes, and what stays in the queue.
pub record Answer : Type 0 where
  pub status : Status
  pub buf_len : ℕ
  pub date : Bytes
  pub rest : List Bytes

unfoldable pub put : ℕ → List Bytes → Bytes → Status × List Bytes
put cap ds d = if leb (total ds + block_size d) cap then (success, ds ++ d ∷ []) else (full, ds)

unfoldable pub get : List Bytes → ℕ → Answer
get [] buf_len = record { status = empty; buf_len = buf_len; date = []; rest = [] }
get (d ∷ ds) buf_len =
    if ltb buf_len (length d)
    then record { status = buf_small; buf_len = length d; date = []; rest = d ∷ ds }
    else record { status = success; buf_len = length d; date = d; rest = ds }
