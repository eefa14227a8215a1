-- ===== src/Logic/Declare.antt =====
-- logicServer/logicServer.cpp, OnCreateExchange, OnCreateQueue and OnCreateBinding. `raw` is what
-- stands behind the packet's header; `new` does not fail.
use mq_cplusplus.Base.{
  ℕ, ◌+◌, Bool, none, some, [], if◌then◌else◌, ◌==◌, Bytes, name_eq, find, insert, take,
}
use mq_cplusplus.Message.Request.{cmd_create_exchange, cmd_create_queue}
use mq_cplusplus.Logic.Queue.{new_queue}
use mq_cplusplus.Logic.Exchange.{new_exchange, create_binding, serialize_binding}
use mq_cplusplus.Logic.Server.{
  Channel, Server, done, err_create_exchange, err_create_binding, Outcome,
  re_create_exchange_success, re_exchange_exist, re_create_queue_success, re_queue_exist,
  re_exchange_not_exist, re_queue_not_exist, re_binding_succeed, re_binding_failed,
  re_durable_failed, cleared, forward, queue_at, is_success, queue_named, send_persis,
}

module _ {S : Type 0} (channel : Channel S) where
  pub on_create_exchange : Server S → Bytes → Bytes → ℕ → Bool → Bool → Outcome S
  on_create_exchange s raw name exchange_type durable auto_del =
      elim (find name_eq name s.exchanges) [
        | some e ↦ (done, some (re_exchange_exist, name), s)
        | none ↦
            let made = record s {
              exchanges =
                  insert name_eq name (new_exchange name exchange_type durable auto_del)
                    s.exchanges;
            } in
            let (ret, told) = send_persis channel made (forward cmd_create_exchange raw) in
            if durable
            then if is_success ret
              then (done, some (re_create_exchange_success, []), told)
              else (err_create_exchange, some (re_durable_failed, []), told)
            else (done, some (re_create_exchange_success, []), made)
      ]

  unfoldable pub on_create_queue : Server S → Bytes → Bytes → ℕ → Bool → Bool → Outcome S
  on_create_queue s raw name priority durable auto_del = elim (queue_named s name) [
    | some p ↦ (done, some (re_queue_exist, name), s)
    | none ↦
        let p = s.next_queue in
        let made = record s {
          queues = insert ◌==◌ p (new_queue name priority durable auto_del) s.queues;
          next_queue = p + 1;
          unsubscribed = insert name_eq name p s.unsubscribed;
        } in
        let (ret, told) = send_persis channel made (forward cmd_create_queue raw) in
        if durable
        then if is_success ret
          then (done, some (re_create_queue_success, []), told)
          else (err_create_exchange, some (re_durable_failed, []), told)
        else (done, some (re_create_queue_success, []), made)
  ]

  -- The names of the queues behind the pointers, for SerializeBindingToString.
  pub name_at : Server S → ℕ → Bytes
  name_at s p = elim (queue_at s p) [ none ↦ [] | some q ↦ q.name ]

  pub on_create_binding : Server S → Bytes → Bytes → Bytes → Outcome S
  on_create_binding s exchange queue key = elim (find name_eq exchange s.exchanges) [
    | none ↦ (err_create_binding, some (re_exchange_not_exist, exchange), s)
    | some e ↦ elim (queue_named s queue) [
      | none ↦ (err_create_binding, some (re_queue_not_exist, queue), s)
      | some p ↦
          let e' = create_binding key p e in
          let bound = record s { exchanges = insert name_eq exchange e' s.exchanges } in
          let (ok, b) = serialize_binding (name_at bound) e' cleared in
          let (ret, told) = send_persis channel bound (take b.len b.bytes) in
          if e'.durable
          then if is_success ret
            then (done, some (re_binding_succeed, key), told)
            else (err_create_binding, some (re_binding_failed, key), told)
          else (done, some (re_binding_succeed, key), bound)
    ]
  ]
