-- ===== src/ShmQueue/Channel.antt =====
-- shm_queue/shm_queue.cpp as its users see it: what the servers need of the queue that they send to.
use mq_cplusplus.Base.{Bytes, ◌≡◌, ◌≢◌}
use mq_cplusplus.ShmQueue.{Status, success}

-- `send` is Enqueue; a packet that is not taken leaves the queue as it was. `room` is the queue as
-- the attempt finds it that ends a loop `while(Enqueue(...)==ERR_SHM_QUEUE_FULL)`: by then the other
-- process has taken what it took.
pub record Channel (S : Type 0) : Type 0 where
  pub send : S → Bytes → Status × S
  pub room : S → Bytes → S
  pub refused_keeps : (s : S) (packet : Bytes) → (send s packet).0 ≢ success → (send s packet).1 ≡ s
