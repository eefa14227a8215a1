-- ===== src/Persist/Run.antt =====
-- PersistenceServer/PersistenceServer.cpp, Run: the packets of the logic server, and the clearing of files
-- when there are none.
use mq_cplusplus.Base.{
  ℕ, ◌-◌, ◌*◌, Bool, true, ◌||◌, Option, some, List, [], ◌∷◌, ◌++◌, ◌==◌, ltb, if◌then◌else◌,
  length, drop, replicate, Bytes, ◌>>=◌,
}
use mq_cplusplus.Message.Wire.{read_short, read_int}
use mq_cplusplus.Message.Request.{
  cmd_create_exchange, cmd_create_queue, cmd_create_binding, cmd_create_publish, cmd_create_recv,
  cmd_create_subcribe, cmd_delete_exchange, cmd_delete_queue, cmd_cancel_subcribe,
  cmd_server_push_message, cmd_client_ack_message,
}
use mq_cplusplus.Message.Read.{read_name}
use mq_cplusplus.Persist.Server.{
  PersistenceServer, on_create_exchange, on_create_queue, on_subcribe, on_binding,
  on_delete_exchange, on_delete_queue,
}
use mq_cplusplus.Persist.Publish.{on_publish_message}
use mq_cplusplus.Persist.Consume.{on_consume_message}
use mq_cplusplus.Persist.Merge.{clear_up_file}

abbrev pub max_client_package : ℕ
max_client_package = 1024 * 11

-- The array that a packet is taken into; zeros follow it.
unfoldable pub in_buffer : Bytes → Bytes
in_buffer packet = packet ++ replicate (max_client_package - length packet) 0

module _ (opens : Bytes → Bool) where
  unfoldable pub on_publish_packet :
      Bytes → ℕ → PersistenceServer → Option (Bool × PersistenceServer)
  on_publish_packet buffer len s = do
    (name, rest) ← read_name (drop 4 buffer)
    (index, rest) ← read_int rest
    on_publish_message opens buffer len name index s

  unfoldable pub handle_packet :
      ℕ → Bytes → ℕ → PersistenceServer → Option (Bool × PersistenceServer)
  handle_packet cmd buffer len s =
      if cmd == cmd_create_exchange
      then on_create_exchange opens (drop 4 buffer) (len - 4) s
      else if cmd == cmd_create_queue
      then on_create_queue opens (drop 4 buffer) (len - 4) s
      else if cmd == cmd_delete_exchange
      then on_delete_exchange (drop 4 buffer) s
      else if cmd == cmd_delete_queue
      then on_delete_queue (drop 4 buffer) s
      else if (cmd == cmd_create_subcribe) || (cmd == cmd_cancel_subcribe)
      then on_subcribe opens (drop 4 buffer) (len - 4) s
      else if cmd == cmd_create_binding
      then on_binding opens (drop 4 buffer) (len - 4) s
      else if cmd == cmd_create_publish
      then on_publish_packet buffer len s
      else if (cmd == cmd_create_recv)
          || ((cmd == cmd_server_push_message) || (cmd == cmd_client_ack_message))
      then on_consume_message opens (drop 4 buffer) s
      else some (true, s)

  -- One packet: its first field has to be its length.
  unfoldable pub take_packet : Bytes → PersistenceServer → Option PersistenceServer
  take_packet packet s =
      let handled = (do
        (pack_len, rest) ← read_short (in_buffer packet)
        (cmd, rest) ← read_short rest
        let result = handle_packet cmd (in_buffer packet) (length packet) s
        (if pack_len == length packet then (do (ret, s') ← result; some s') else some s)) in
      if ltb (length packet) 2 then some s else handled

  unfoldable pub take_packets : List Bytes → PersistenceServer → Option PersistenceServer
  take_packets [] s = some s
  take_packets (packet ∷ packets) s = do s' ← take_packet packet s; take_packets packets s'

  -- A round of Run, over the packets until the queue is empty.
  unfoldable pub run_round : List Bytes → PersistenceServer → Option PersistenceServer
  run_round [] s = do (count, s') ← clear_up_file opens s; some s'
  run_round (packet ∷ packets) s = take_packets (packet ∷ packets) s
