-- ===== src/Logic/Remove.antt =====
-- logicServer/logicServer.cpp, OnDeleteExchange, OnDeleteQueue, OnCancelSubscribe and OnClientExit.
-- `none` stands for a read through a pointer that leads to no queue.
use mq_cplusplus.Base.{
  ℕ, ◌+◌, Bool, true, false, not, ◌&&◌, Option, none, some, List, [], ◌∷◌, ltb, ◌==◌, if◌then◌else◌,
  length, Bytes, name_eq, find, insert, erase, take, ◌>>=◌,
}
use mq_cplusplus.Message.Wire.{short, text}
use mq_cplusplus.Message.Pack.{msg_len}
use mq_cplusplus.Message.Request.{cmd_delete_exchange, cmd_delete_queue}
use mq_cplusplus.Message.Server.{Stored}
use mq_cplusplus.Logic.Queue.{
  MessageQueue, is_empty_list, is_subscribe, add_subscribe, cancel_subscribe, serialize_subscribe,
  add_message_front,
}
use mq_cplusplus.Logic.Exchange.{Exchange, delete_binding_queue}
use mq_cplusplus.Logic.Server.{
  Channel, Server, done, err_delete_exchange, err_delete_queue, err_cancel_subscribe, Outcome,
  re_exchange_not_exist, re_queue_not_exist, re_queue_not_subscribe, re_delete_exchange_succeed,
  re_delete_exchange_failed, re_delete_queue_succeed, re_delete_queue_failed,
  re_cancel_subscribe_succeed, re_cancel_subscribe_failed, built, cleared, forward, queue_at,
  put_queue, queue_named_last, send_persis, is_success, to_string,
}

-- An exchange after a queue was deleted from its bindings; `none`: it is deleted with its last
-- binding.
pub unbound : ℕ → Exchange → Option Exchange
unbound p e =
    let e' = delete_binding_queue p e in
    if is_empty_list e.bindings
    then some e
    else if is_empty_list e'.bindings && e'.auto_del
    then none
    else some e'

-- The loop over the exchanges in OnDeleteQueue.
pub unbind_all : ℕ → List (Bytes × Exchange) → List (Bytes × Exchange)
unbind_all p [] = []
unbind_all p ((key, e) ∷ es) =
    let rest = unbind_all p es in elim (unbound p e) [ none ↦ rest | some e' ↦ (key, e') ∷ rest ]

-- A name behind a length and a command.
pub named : ℕ → Bytes → Bytes
named cmd name =
    built (2 + 2 + length name)
      (short (msg_len (2 + 2 + length name)) ∷ short cmd ∷ text name (length name) ∷ [])

-- `strncmp(prefix, text, prefix.size()) == 0`
pub starts_with : Bytes → Bytes → Bool
starts_with [] text = true
starts_with (c ∷ cs) [] = false
starts_with (c ∷ cs) (d ∷ ds) = (c == d) && starts_with cs ds

-- The loop over the message numbers in OnClientExit.
pub drop_prefixed : Bytes → List Bytes → List Bytes
drop_prefixed prefix [] = []
drop_prefixed prefix (k ∷ ks) =
    let rest = drop_prefixed prefix ks in if starts_with prefix k then rest else k ∷ rest

module _ {S : Type 0} (channel : Channel S) where
  pub on_delete_exchange : Server S → Bytes → Bytes → Outcome S
  on_delete_exchange s raw name = elim (find name_eq name s.exchanges) [
    | none ↦ (err_delete_exchange, some (re_exchange_not_exist, name), s)
    | some e ↦
        let (ret, told) = send_persis channel s (forward cmd_delete_exchange raw) in
        let left : Server S = if e.durable then told else s in
        if e.durable && not (is_success ret)
        then (err_delete_exchange, some (re_delete_exchange_failed, name), told)
        else (
          done,
          some (re_delete_exchange_succeed, name),
          record left { exchanges = erase name_eq name left.exchanges },
        )
  ]

  -- OnDeleteQueue on the queue that it found. The queue is out of both maps before the persistence
  -- server is told.
  unfoldable pub delete_found : Server S → Bytes → Bytes → ℕ → MessageQueue → Outcome S
  delete_found s raw name p q =
      let out = record s {
        unsubscribed = erase name_eq name s.unsubscribed;
        subscribed = erase name_eq name s.subscribed;
      } in
      let (ret, told) = send_persis channel out (forward cmd_delete_queue raw) in
      let left : Server S = if q.durable then told else out in
      if q.durable && not (is_success ret)
      then (err_delete_queue, some (re_delete_queue_failed, name), told)
      else (
        done,
        some (re_delete_queue_succeed, name),
        record left { exchanges = unbind_all p left.exchanges; queues = erase ◌==◌ p left.queues },
      )

  unfoldable pub on_delete_queue : Server S → Bytes → Bytes → Option (Outcome S)
  on_delete_queue s raw name = elim (queue_named_last s name) [
    | none ↦ some (err_delete_queue, some (re_queue_not_exist, name), s)
    | some p ↦ (do q ← queue_at s p; some (delete_found s raw name p q))
  ]

  -- The loop over the exchanges where durable ones are reported; with `stops` it ends at the first
  -- report that is not taken, and the name is that exchange's.
  unfoldable pub unbind_reporting :
      Bool
      → ℕ
      → List (Bytes × Exchange)
      → Server S
      → Option Bytes × List (Bytes × Exchange) × Server S
  unbind_reporting stops p [] s = (none, [], s)
  unbind_reporting stops p ((key, e) ∷ es) s =
      let (ret, told) = send_persis channel s (named cmd_delete_exchange e.name) in
      let (f, rest, s₁) = unbind_reporting stops p es s in
      let reported = unbind_reporting stops p es told in
      elim (unbound p e) [
        | some e' ↦ (f, (key, e') ∷ rest, s₁)
        | none ↦
            if e.durable
            then if stops && not (is_success ret)
              then (some e.name, (key, delete_binding_queue p e) ∷ es, told)
              else reported
            else (f, rest, s₁)
      ]

  -- A queue that nobody subscribes to any more and that deletes itself.
  unfoldable pub retire : Bool → Bytes → ℕ → MessageQueue → Server S → Outcome S
  retire stops name p q s =
      let (failed, es, s₁) = unbind_reporting stops p s.exchanges s in
      let s₂ = record (put_queue s₁ p (record q { messages = []; pri_queue = [] })) {
        exchanges = es;
      } in
      let (ret, told) = send_persis channel s₂ (named cmd_delete_queue name) in
      let left : Server S = if q.durable then told else s₂ in
      elim failed [
        | some exchange ↦ (err_delete_exchange, some (re_delete_exchange_failed, exchange), s₂)
        | none ↦
            if q.durable && (stops && not (is_success ret))
            then (err_delete_queue, some (re_delete_queue_failed, name), told)
            else (
              done,
              some (re_cancel_subscribe_succeed, name),
              record left { queues = erase ◌==◌ p left.queues },
            )
      ]

  -- OnCancelSubscribe once the consumer is off the queue, and a durable queue is reported.
  unfoldable pub cancelled : Bytes → ℕ → MessageQueue → Server S → Outcome S
  cancelled name p q s =
      let out : Server S = record s { subscribed = erase name_eq q.name s.subscribed } in
      if q.auto_del && not (is_subscribe q)
      then retire true name p q out
      else if not (is_subscribe q)
      then (
        done,
        some (re_cancel_subscribe_succeed, name),
        record out { unsubscribed = insert name_eq q.name p out.unsubscribed },
      )
      else (done, some (re_cancel_subscribe_succeed, name), out)

  -- OnCancelSubscribe on the queue that it found.
  unfoldable pub cancel_found : Server S → ℕ → Bytes → ℕ → MessageQueue → Outcome S
  cancel_found s client name p q =
      let q' = cancel_subscribe client q in
      let (ok, b) = serialize_subscribe q' false cleared in
      let (ret, told) = send_persis channel (put_queue s p q') (take b.len b.bytes) in
      if q'.durable && not (is_success ret)
      then (
        err_cancel_subscribe,
        some (re_cancel_subscribe_failed, name),
        put_queue told p (add_subscribe client q.confirm_level q'),
      )
      else cancelled name p q' (if q'.durable then told else put_queue s p q')

  unfoldable pub on_cancel_subscribe : Server S → ℕ → Bytes → Option (Outcome S)
  on_cancel_subscribe s client name = elim (find name_eq name s.unsubscribed) [
    | some u ↦ some (err_cancel_subscribe, some (re_queue_not_subscribe, name), s)
    | none ↦ elim (find name_eq name s.subscribed) [
      | none ↦ some (err_cancel_subscribe, some (re_queue_not_exist, name), s)
      | some p ↦ (do q ← queue_at s p; some (cancel_found s client name p q))
    ]
  ]

  -- One subscribed queue when a client leaves.
  pub exit_queue : ℕ → Bytes × ℕ → Server S → Option (Server S)
  exit_queue client (key, p) s = do
    q ← queue_at s p
    let q' = cancel_subscribe client q
    let (ok, b) = serialize_subscribe q' false cleared
    let told = (send_persis channel (put_queue s p q') (take b.len b.bytes)).1
    let held : Server S = if q'.durable then told else put_queue s p q'
    let out : Server S = record held { subscribed = erase name_eq key held.subscribed }
    (if not (ltb (length q'.consumers) (length q.consumers))
        then some (put_queue s p q')
        else if not (is_empty_list q'.consumers)
        then some held
        else if q'.auto_del
        then some (retire false q.name p q' out).2
        else some (record out { unsubscribed = insert name_eq q.name p out.unsubscribed }))

  pub exit_queues : ℕ → List (Bytes × ℕ) → Server S → Option (Server S)
  exit_queues client [] s = some s
  exit_queues client (x ∷ xs) s = do s' ← exit_queue client x s; exit_queues client xs s'

  -- The messages that the client has not acknowledged go back to the front of their queues.
  unfoldable pub give_back : ℕ → List Stored → Server S → Option (List Stored × Server S)
  give_back client [] s = some ([], s)
  give_back client (m ∷ ms) s =
      let kept = (do (rest, s') ← give_back client ms s; some (m ∷ rest, s')) in
      let dropped = give_back client ms s in
      if not (m.index == client) then kept else elim (queue_named_last s m.queue_name) [
        | none ↦ dropped
        | some p ↦ (do
          q ← queue_at s p
          give_back client ms (put_queue s p (add_message_front q m)))
      ]

  unfoldable pub on_client_exit : Server S → ℕ → Option (Outcome S)
  on_client_exit s client = do
    let known = drop_prefixed (to_string client) s.producer_seqs
    s₁ ← exit_queues client s.subscribed (record s { producer_seqs = known })
    (left, s₂) ← give_back client s₁.need_ack s₁
    some (done, none, record s₂ { need_ack = left })
