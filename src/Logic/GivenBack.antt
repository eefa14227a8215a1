-- ===== src/Logic/GivenBack.antt =====
-- logicServer/logicServer.cpp, OnClientExit: the messages that a client has not acknowledged go back.
use mq_cplusplus.Base.{
  ℕ, Bool, false, ◌&&◌, ◌≡◌, Option, none, some, List, [], ◌∷◌, ◌==◌, if◌then◌else◌, Bytes,
}
use mq_cplusplus.Message.Server.{Stored}
use mq_cplusplus.Logic.Queue.{MessageQueue}
use mq_cplusplus.Logic.Placed.{Placed, in_front}
use mq_cplusplus.Logic.Server.{Channel, Server, queue_at, queue_named_last}

module _ {S : Type 0} (channel : Channel S) where
  -- The messages of the other clients.
  abbrev pub others : ℕ → List Stored → List Stored
  others client [] = []
  others client (m ∷ ms) =
      let rest = others client ms in if m.index == client then rest else m ∷ rest

  -- Every name in the maps leads to a queue.
  abbrev pub HasQueues : Server S → Type 0
  HasQueues s =
      (name : Bytes) (p : ℕ)
      → queue_named_last s name ≡ some p
      → (q : MessageQueue) × (queue_at s p ≡ some q)

  -- A queue gets messages in front, one after the other.
  pub Returned : List Stored → MessageQueue → MessageQueue → Type 0
  Returned [] q q' = q' ≡ q
  Returned (m ∷ ms) q q' =
      (q₁ : MessageQueue) × Placed in_front m q q₁
      × (q₁.durable_index ≡ q.durable_index)
      × Returned ms q₁ q'

  -- The messages of a client whose queue's name leads to a place.
  abbrev leads : Option ℕ → ℕ → Bool
  leads none p = false
  leads (some o) p = o == p

  pub own : Server S → ℕ → ℕ → List Stored → List Stored
  own s client p [] = []
  own s client p (m ∷ ms) =
      let rest = own s client p ms in
      if (m.index == client) && leads (queue_named_last s m.queue_name) p then m ∷ rest else rest
