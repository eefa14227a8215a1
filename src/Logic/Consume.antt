-- ===== src/Logic/Consume.antt =====
-- logicServer/logicServer.cpp, OnRecvMessage, OnCreateSubscribe, OnClientAck and
-- PushMessage. `now` is what gettimeofday gives, in microseconds. `none` stands for a read through a
-- pointer that leads to no queue, or through an iterator past the end.
use mq_cplusplus.Base.{
  ℕ, zero, suc, ◌+◌, true, false, not, ◌&&◌, Option, none, some, List, [], ◌∷◌, ◌++◌, ltb, ◌==◌,
  if◌then◌else◌, length, Bytes, name_eq, find, insert, erase, take, ◌>>=◌,
}
use mq_cplusplus.ShmQueue.{inc32}
use mq_cplusplus.Message.Request.{cmd_create_recv, cmd_client_ack_message, cmd_server_push_message}
use mq_cplusplus.Message.Server.{Stored, minus_one}
use mq_cplusplus.Logic.Queue.{
  MessageQueue, pop_front_msg, is_subscribe, add_subscribe, cancel_subscribe, serialize_subscribe,
}
use mq_cplusplus.Logic.Server.{
  Channel, Server, done, err_recv_message, err_create_subscribe, Outcome, re_queue_not_exist,
  re_queue_is_empty, re_subscribe_succeed, re_subscribe_failed, cleared, queue_at, put_queue,
  queue_named_last, send_persis, send_connect_wait, stored_bytes, message_gone, is_success,
}

module _ {S : Type 0} (channel : Channel S) where
  -- A durable message that nobody acknowledges is reported to the persistence server.
  unfoldable pub report_gone : ℕ → Bytes → Stored → Server S → Server S
  report_gone cmd name m s =
      let told = (send_persis channel s (message_gone cmd name m.durable_index)).1 in
      if m.durable then told else s

  -- A message that was pulled leaves: it is kept until it is acknowledged, or reported as gone.
  unfoldable pub hand_over : ℕ → ℕ → Bytes → ℕ → Stored → Server S → Server S
  hand_over now client name level m s =
      if ltb 0 level
      then (let m' = record m {
        index = client;
        confirm_level = level;
        msg_seq = s.ack_seq;
        queue_name = name;
      } in
          send_connect_wait channel
            (record s {
              ack_seq = inc32 s.ack_seq;
              need_ack = s.need_ack ++ record m' { save_time = now } ∷ [];
            })
            (stored_bytes m'))
      else (let m' = record m { index = client; msg_seq = minus_one } in
          send_connect_wait channel (report_gone cmd_create_recv name m' s) (stored_bytes m'))

  -- OnRecvMessage on the queue that it found.
  unfoldable pub pull : ℕ → Server S → ℕ → Bytes → ℕ → ℕ → MessageQueue → Outcome S
  pull now s client name level p q = elim (pop_front_msg false q) [
    | none ↦ (err_recv_message, some (re_queue_is_empty, name), s)
    | some r ↦ (done, none, hand_over now client name level r.0 (put_queue s p r.1))
  ]

  unfoldable pub on_recv_message : ℕ → Server S → ℕ → Bytes → ℕ → Option (Outcome S)
  on_recv_message now s client name level = elim (queue_named_last s name) [
    | none ↦ some (err_recv_message, some (re_queue_not_exist, name), s)
    | some p ↦ (do q ← queue_at s p; some (pull now s client name level p q))
  ]

  -- OnCreateSubscribe on the queue that it found.
  unfoldable pub subscribe_to : Server S → ℕ → Bytes → ℕ → ℕ → MessageQueue → Outcome S
  subscribe_to s client name level p q =
      let q' = add_subscribe client level q in
      let (ok, b) = serialize_subscribe q' true cleared in
      let (ret, told) = send_persis channel (put_queue s p q') (take b.len b.bytes) in
      let held = if q'.durable then told else put_queue s p q' in
      let moved : Server S = elim (find name_eq name s.unsubscribed) [
        | none ↦ held
        | some u ↦ record held {
          unsubscribed = erase name_eq name held.unsubscribed;
          subscribed = insert name_eq name p held.subscribed;
        }
      ] in
      if q'.durable && not (is_success ret)
      then (
        err_create_subscribe,
        some (re_subscribe_failed, name),
        put_queue told p (cancel_subscribe client q'),
      )
      else (done, some (re_subscribe_succeed, name), moved)

  unfoldable pub on_create_subscribe : Server S → ℕ → Bytes → ℕ → Option (Outcome S)
  on_create_subscribe s client name level = elim (queue_named_last s name) [
    | none ↦ some (err_create_subscribe, some (re_queue_not_exist, name), s)
    | some p ↦ (do q ← queue_at s p; some (subscribe_to s client name level p q))
  ]

  -- The first message with the number leaves the list.
  unfoldable pub take_acked : ℕ → List Stored → Option (Stored × List Stored)
  take_acked seq [] = none
  take_acked seq (m ∷ ms) =
      let rest = take_acked seq ms in
      if m.msg_seq == seq
      then some (m, ms)
      else elim rest [ none ↦ none | some (m', ms') ↦ some (m', m ∷ ms') ]

  -- OnClientAck. `confirmLevel==CONSUMER_AUTO_ACK||CONSUMER_SINGLE_ACK` holds of every level, so
  -- the branch of CONSUMER_MUTIL_ACK is never taken.
  unfoldable pub on_client_ack : Server S → ℕ → ℕ → Outcome S
  on_client_ack s level seq = elim (take_acked seq s.need_ack) [
    | none ↦ (done, none, s)
    | some (m, rest) ↦ (
      done,
      none,
      report_gone cmd_client_ack_message m.queue_name m (record s { need_ack = rest }),
    )
  ]

  -- One message of PushMessage's inner loop.
  unfoldable pub push_one : ℕ → MessageQueue → Stored → Server S → Server S
  push_one p q m s =
      let name = q.name in
      if ltb 0 q.confirm_level
      then (let m' = record m {
        cmd = cmd_server_push_message;
        confirm_level = q.confirm_level;
        msg_seq = s.ack_seq;
        queue_name = name;
      } in
          send_connect_wait channel
            (record (put_queue s p q) {
              ack_seq = inc32 s.ack_seq;
              need_ack = s.need_ack ++ m' ∷ [];
            })
            (stored_bytes m'))
      else (let m' = record m { cmd = cmd_server_push_message; msg_seq = minus_one } in
          report_gone cmd_server_push_message name m'
            (send_connect_wait channel (put_queue s p q) (stored_bytes m')))

  -- The inner loop, at most `fuel` messages.
  unfoldable pub push_queue : ℕ → ℕ → Server S → Option (Server S)
  push_queue zero p s = some s
  push_queue (suc fuel) p s = do
    q ← queue_at s p
    elim (pop_front_msg true q) [
      | none ↦ some s
      | some (m, q') ↦ push_queue fuel p (push_one p q' m s)
    ]

  -- PushMessage from an entry of the subscribed queues on. An entry without consumers: `itr` has
  -- moved on, so the entry behind it is erased, and the one behind that comes next.
  pub push_from : List (Bytes × ℕ) → Server S → Option (Server S)
  push_from [] s = some s
  push_from ((key, p) ∷ []) s = do
    q ← queue_at s p
    (if is_subscribe q then push_queue (length q.pri_queue + length q.messages) p s else none)
  push_from ((key, p) ∷ (key', p') ∷ rest) s = do
    q ← queue_at s p
    let misplaced = record s {
      subscribed = erase name_eq key' s.subscribed;
      unsubscribed = insert name_eq q.name p s.unsubscribed;
    }
    let skipped = push_from rest misplaced
    let pushed = (do
      s' ← push_queue (length q.pri_queue + length q.messages) p s
      push_from ((key', p') ∷ rest) s')
    (if is_subscribe q then pushed else skipped)

  pub push_message : Server S → Option (Server S)
  push_message s = push_from s.subscribed s
