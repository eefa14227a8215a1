-- ===== src/Message/Read.antt =====
-- logicServer/logicServer.cpp: what ProcessRecvData and the handlers read of a packet, field by
-- field. `none` is a read outside the packet's bytes, or a name without its terminator.
use mq_cplusplus.Base.{
  ℕ, Bool, Option, some, none, ltb, ◌==◌, if◌then◌else◌, length, Bytes, c_string, ◌>>=◌,
}
use mq_cplusplus.Message.Wire.{read_short, read_int, read_byte, read_bool, read_buf}
use mq_cplusplus.Message.Request.{
  Request, create_exchange, create_queue, create_binding, publish, recv, subscribe, delete_exchange,
  delete_queue, cancel_subscribe, client_ack, client_exit, cmd_create_exchange, cmd_create_queue,
  cmd_create_binding, cmd_create_publish, cmd_create_recv, cmd_create_subcribe, cmd_delete_exchange,
  cmd_delete_queue, cmd_cancel_subcribe, cmd_client_ack_message, cmd_client_exit, max_name_length,
}

-- `ClientPackageHead`
pub record Head : Type 0 where
  pub pack_len : ℕ
  pub client_index : ℕ
  pub cmd : ℕ

-- ReadBuf into a cleared array of MAX_NAME_LENGTH bytes, and the string that it holds.
unfoldable pub read_name : Bytes → Option (Bytes × Bytes)
read_name bs = do (raw, r) ← read_buf max_name_length bs; name ← c_string raw; some (name, r)

-- OnCreateExchange, OnCreateQueue: name, a short, two flags.
unfoldable pub read_named_flags : Bytes → Option (Bytes × ℕ × Bool × Bool)
read_named_flags bs = do
  (name, r) ← read_name bs
  (number, r) ← read_short r
  (durable, r) ← read_bool r
  (auto_del, r) ← read_bool r
  some (name, number, durable, auto_del)

unfoldable pub read_binding : Bytes → Option Request
read_binding bs = do
  (exchange, r) ← read_name bs
  (queue, r) ← read_name r
  (key, r) ← read_name r
  some (create_binding exchange queue key)

-- OnPublishMessage: the body is what is left of the packet.
unfoldable pub read_publish : Bytes → Option Request
read_publish bs = do
  (exchange, r) ← read_name bs
  (key, r) ← read_name r
  (priority, r) ← read_short r
  (durable, r) ← read_bool r
  (msg_seq, r) ← read_int r
  (confirm_level, body) ← read_byte r
  some (publish exchange key body priority durable msg_seq confirm_level)

-- OnRecvMessage, OnCreateSubscribe: name and confirm level.
unfoldable pub read_name_level : Bytes → Option (Bytes × ℕ)
read_name_level bs = do (queue, r) ← read_name bs; (level, r) ← read_byte r; some (queue, level)

unfoldable pub read_ack : Bytes → Option Request
read_ack bs = do (level, r) ← read_byte bs; (seq, r) ← read_int r; some (client_ack level seq)

-- What the switch of ProcessRecvData does with a packet: a packet shorter than its header says, a
-- command that it does not know, or a request.
pub data Parsed : Type 0 where
  too_short : Parsed
  unknown_cmd : Head → Parsed
  request : Head → Request → Parsed

unfoldable pub read_body : ℕ → Bytes → Option (Option Request)
read_body cmd bs =
    if cmd == cmd_create_exchange
    then (do (name, t, d, a) ← read_named_flags bs; some (some (create_exchange name t d a)))
    else if cmd == cmd_create_queue
    then (do (name, p, d, a) ← read_named_flags bs; some (some (create_queue name p d a)))
    else if cmd == cmd_create_binding
    then (do r ← read_binding bs; some (some r))
    else if cmd == cmd_create_publish
    then (do r ← read_publish bs; some (some r))
    else if cmd == cmd_create_recv
    then (do (queue, level) ← read_name_level bs; some (some (recv queue level)))
    else if cmd == cmd_create_subcribe
    then (do (queue, level) ← read_name_level bs; some (some (subscribe queue level)))
    else if cmd == cmd_delete_exchange
    then (do (name, r) ← read_name bs; some (some (delete_exchange name)))
    else if cmd == cmd_delete_queue
    then (do (name, r) ← read_name bs; some (some (delete_queue name)))
    else if cmd == cmd_cancel_subcribe
    then (do (queue, r) ← read_name bs; some (some (cancel_subscribe queue)))
    else if cmd == cmd_client_ack_message
    then (do r ← read_ack bs; some (some r))
    else if cmd == cmd_client_exit
    then some (some client_exit)
    else some none

abbrev pub answer : Head → Option Request → Parsed
answer head none = unknown_cmd head
answer head (some r) = request head r

-- The rest of the header, and the switch.
unfoldable pub parse_rest : ℕ → Bytes → Option Parsed
parse_rest pack_len bs = do
  (client_index, r) ← read_int bs
  (cmd, body) ← read_short r
  found ← read_body cmd body
  some (answer (record { pack_len = pack_len; client_index = client_index; cmd = cmd }) found)

unfoldable pub parse : Bytes → Option Parsed
parse packet = do
  (pack_len, r) ← read_short packet
  let rest = parse_rest pack_len r
  let short : Option Parsed = some too_short
  (if ltb (length packet) pack_len then short else rest)
