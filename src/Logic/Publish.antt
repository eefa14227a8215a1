-- ===== src/Logic/Publish.antt =====
-- logicServer/logicServer.cpp, OnPublishMessage and SendMultiAck. `none` stands for a read through a
-- pointer that leads to no queue.
use mq_cplusplus.Base.{
  ℕ, zero, suc, Bool, ◌&&◌, Option, none, some, List, [], ◌∷◌, ltb, ◌==◌, if◌then◌else◌, Bytes,
  name_eq, find, insert, take, ◌>>=◌,
}
use mq_cplusplus.ShmQueue.{inc32}
use mq_cplusplus.Message.Server.{Stored, new_stored, minus_one, serialize_durable}
use mq_cplusplus.Logic.Queue.{MessageQueue, add_message}
use mq_cplusplus.Logic.Exchange.{find_binding_queue}
use mq_cplusplus.Logic.Server.{
  Channel, Server, done, err_publish_message, Outcome, re_exchange_not_exist,
  re_fit_queue_not_exist, cleared, queue_at, put_queue, send_persis, send_connect, ack_bytes,
  seq_key, has_name, add_name,
}

abbrev pub producer_single_ack : ℕ
producer_single_ack = 1

abbrev pub producer_multi_ack : ℕ
producer_multi_ack = 2

-- The message of one queue: with a durable index of that queue where both are durable.
unfoldable pub numbered : MessageQueue → Bytes → ℕ → Bool → Stored × MessageQueue
numbered q body priority durable =
    let m = new_stored body priority durable in
    if durable && q.durable
    then (
      record m { durable_index = q.durable_index; queue_name = q.name },
      record q { durable_index = inc32 q.durable_index },
    )
    else (m, q)

module _ {S : Type 0} (channel : Channel S) where
  -- One turn of the loop over the queues; what the persistence server's queue answers is not read.
  unfoldable pub deliver : Bytes → ℕ → Bool → Server S → ℕ → Option (Server S)
  deliver body priority durable s p = do
    q ← queue_at s p
    let (m, q') = numbered q body priority durable
    let (ok, b) = serialize_durable m cleared
    let told = (send_persis channel s (take b.len b.bytes)).1
    some (put_queue (if durable && q.durable then told else s) p (add_message q' m))

  unfoldable pub deliver_all : Bytes → ℕ → Bool → List ℕ → Server S → Option (Server S)
  deliver_all body priority durable [] s = some s
  deliver_all body priority durable (p ∷ ps) s = do
    s' ← deliver body priority durable s p
    deliver_all body priority durable ps s'

  -- Acknowledged at once, or with the next SendMultiAck.
  unfoldable pub acknowledge : ℕ → ℕ → ℕ → Server S → Server S
  acknowledge client seq level s =
      let known = add_name (seq_key client seq) s.producer_seqs in
      if level == producer_single_ack
      then record (send_connect channel s (ack_bytes client seq)) { producer_seqs = known }
      else if level == producer_multi_ack
      then record s {
        producer_last = insert ◌==◌ client seq s.producer_last;
        producer_seqs = known;
      }
      else s

  -- The queues of the routing key are found.
  unfoldable pub publish_to :
      ℕ → Bytes → Bytes → ℕ → Bool → ℕ → ℕ → Server S → List ℕ → Option (Outcome S)
  publish_to client key body priority durable seq level s [] =
      some (err_publish_message, some (re_fit_queue_not_exist, key), s)
  publish_to client key body priority durable seq level s (p ∷ ps) = do
    s' ← deliver_all body priority durable (p ∷ ps) s
    some (done, none, acknowledge client seq level s')

  unfoldable pub on_publish_message :
      Server S → ℕ → Bytes → Bytes → Bytes → ℕ → Bool → ℕ → ℕ → Option (Outcome S)
  on_publish_message s client exchange key body priority durable seq level =
      if ltb 0 level && has_name (seq_key client seq) s.producer_seqs
      then some (done, none, send_connect channel s (ack_bytes minus_one seq))
      else elim (find name_eq exchange s.exchanges) [
        | none ↦ some (err_publish_message, some (re_exchange_not_exist, exchange), s)
        | some e ↦
            publish_to client key body priority durable seq level s (find_binding_queue key e).1
      ]

  -- SendMultiAck, at most `fuel` turns of its loop: `itr` stays at the first entry. `none` means that
  -- the loop is not over.
  unfoldable pub send_multi_ack : ℕ → Server S → Option (Server S)
  send_multi_ack zero s = none
  send_multi_ack (suc fuel) s = elim s.producer_last [
    | [] ↦ some (record s { producer_last = [] })
    | x ∷ rest ↦ send_multi_ack fuel (send_connect channel s (ack_bytes x.0 x.1))
  ]
