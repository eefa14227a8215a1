-- ===== src/Logic/Deliver.antt =====
-- logicServer/logicServer.cpp, OnPublishMessage: what the loop over the queues does to them.
use mq_cplusplus.Base.{
  ℕ, ◌+◌, ◌%◌, ◌^◌, ◌≡◌, Bool, some, List, [], take, ◌&&◌, if◌then◌else◌, Bytes, All,
}
use mq_cplusplus.Message.Server.{Stored, serialize_durable, minus_one}
use mq_cplusplus.Logic.Queue.{MessageQueue, add_message}
use mq_cplusplus.Logic.Placed.{Placed, behind}
use mq_cplusplus.Logic.Server.{Channel, Server, cleared, queue_at, send_persis}
use mq_cplusplus.Logic.Publish.{numbered}

-- A queue gets a message.
abbrev pub Gets : Bytes → ℕ → Bool → MessageQueue → MessageQueue → Type 0
Gets body priority durable q q' =
    (m : Stored) × (m.body ≡ body)
    × (m.priority ≡ priority)
    × (m.durable ≡ durable)
    × (m.durable_index ≡ (if durable && q.durable then q.durable_index else minus_one))
    × (m.queue_name ≡ (if durable && q.durable then q.name else []))
    × (q'.durable_index
        ≡ (if durable && q.durable then (q.durable_index + 1) % 2 ^ 32 else q.durable_index))
    × Placed behind m q q'

-- The queue with the message.
abbrev with_message : Bytes → ℕ → Bool → MessageQueue → MessageQueue
with_message body priority durable q =
    add_message (numbered q body priority durable).1 (numbered q body priority durable).0

module _ {S : Type 0} (channel : Channel S) (body : Bytes) (priority : ℕ) (durable : Bool) where
  told : Server S → MessageQueue → Server S
  told s q =
      let (ok, b) = serialize_durable (numbered q body priority durable).0 cleared in
      if durable && q.durable then (send_persis channel s (take b.len b.bytes)).1 else s

  -- Every queue of the list exists.
  abbrev pub Live : Server S → List ℕ → Type 0
  Live s = All (λ p. (q : MessageQueue) × (queue_at s p ≡ some q))
