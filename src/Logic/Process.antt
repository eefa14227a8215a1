-- ===== src/Logic/Process.antt =====
-- logicServer/logicServer.cpp, ProcessRecvData: from a packet to its handler.
use mq_cplusplus.Base.{ℕ, Option, none, some, drop, Bytes, ◌>>=◌}
use mq_cplusplus.Message.Request.{
  Request, create_exchange, create_queue, create_binding, publish, recv, subscribe, delete_exchange,
  delete_queue, cancel_subscribe, client_ack, client_exit, head_len,
}
use mq_cplusplus.Message.Read.{too_short, unknown_cmd, request, parse}
use mq_cplusplus.Logic.Server.{Channel, Server, err_process, Outcome}
use mq_cplusplus.Logic.Declare.{on_create_exchange, on_create_queue, on_create_binding}
use mq_cplusplus.Logic.Publish.{on_publish_message}
use mq_cplusplus.Logic.Consume.{on_recv_message, on_create_subscribe, on_client_ack}
use mq_cplusplus.Logic.Remove.{
  on_delete_exchange, on_delete_queue, on_cancel_subscribe, on_client_exit,
}

module _ {S : Type 0} (channel : Channel S) where
  -- The call of a request's handler. `raw` is the packet without its header.
  unfoldable pub handle : ℕ → Server S → ℕ → Bytes → Request → Option (Outcome S)
  handle now s client raw (create_exchange name t d a) =
      some (on_create_exchange channel s raw name t d a)
  handle now s client raw (create_queue name p d a) =
      some (on_create_queue channel s raw name p d a)
  handle now s client raw (create_binding e q k) = some (on_create_binding channel s e q k)
  handle now s client raw (publish e k body p d seq level) =
      on_publish_message channel s client e k body p d seq level
  handle now s client raw (recv q level) = on_recv_message channel now s client q level
  handle now s client raw (subscribe q level) = on_create_subscribe channel s client q level
  handle now s client raw (delete_exchange name) = some (on_delete_exchange channel s raw name)
  handle now s client raw (delete_queue name) = on_delete_queue channel s raw name
  handle now s client raw (cancel_subscribe q) = on_cancel_subscribe channel s client q
  handle now s client raw (client_ack level seq) = some (on_client_ack channel s level seq)
  handle now s client raw client_exit = on_client_exit channel s client

  unfoldable pub process_recv_data : ℕ → Server S → Bytes → Option (Outcome S)
  process_recv_data now s packet = do
    parsed ← parse packet
    elim parsed [
      | too_short ↦ some (err_process, none, s)
      | unknown_cmd head ↦ some (err_process, none, s)
      | request head r ↦ handle now s head.client_index (drop head_len packet) r
    ]
