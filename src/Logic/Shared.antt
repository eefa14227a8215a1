-- ===== src/Logic/Shared.antt =====
-- shm_queue/shm_queue.cpp as the channel of logicServer/logicServer.cpp.
use mq_cplusplus.Base.{◌+◌, ◌≡◌, ◌≢◌, refl, Bytes, length, ltb, Bool-cases, inl, inr}
use mq_cplusplus.ShmQueue.{success, ShmQueue, free_space, head_size, tail_size, enqueue_locked}
use mq_cplusplus.Logic.Server.{Channel}

pub enqueue_locked-refused :
    (q : ShmQueue) (packet : Bytes)
    → (enqueue_locked q packet).0 ≢ success
    → (enqueue_locked q packet).1 ≡ q
unfolding enqueue_locked
enqueue_locked-refused q packet h =
    elim (Bool-cases (ltb (free_space q) (head_size + length packet + tail_size))) [
      | inl e ↦ rw e refl
      | inr e ↦ absurd (h (rw e refl))
    ]

-- The queue keeps its promise of a channel; nothing is taken from it between two attempts.
abbrev pub shm_channel : Channel ShmQueue
shm_channel = record {
  send = enqueue_locked;
  room = λ q packet. q;
  refused_keeps = enqueue_locked-refused;
}
