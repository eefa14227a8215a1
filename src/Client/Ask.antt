-- ===== src/Client/Ask.antt =====
-- client/client.cpp, the calls that send a request and wait for the server's answer: CreateExchange,
-- CreateQueue, CreateBinding, DeleteExchange and DeleteQueue, and of Consumer CreateSubscribe and
-- CancelSubscribe.
use mq_cplusplus.Base.{
  ℕ, ◌^◌, Bool, true, false, Option, none, some, List, [], ◌++◌, ◌==◌, if◌then◌else◌, take,
  replicate, length, ◌-◌, Bytes, ◌>>=◌,
}
use mq_cplusplus.Message.Wire.{read_bool}
use mq_cplusplus.Message.Request.{
  Request, create_exchange, create_queue, create_binding, subscribe, delete_exchange, delete_queue,
  cmd_server_reply_message, max_client_package,
}
use mq_cplusplus.Message.Pack.{Buffer, success, buf_too_small, name_too_long, get_message_pack}
use mq_cplusplus.Client.Receive.{
  Connection, invalid_parms, bad_reply, not_built, from_server, shut, Wake, Sending, recv_one_pack,
  send_one_pack,
}

-- What a call returns: whether it succeeds, what went out, what is still to come, and the connection.
abbrev pub Answer : Type 0
Answer = Bool × Bytes × List Wake × Connection

-- A cleared array for a packet.
abbrev pub message_buffer : Buffer
message_buffer = record { bytes = replicate max_client_package 0; len = max_client_package }

-- The packet of a request, if it can be packed. Its client index is -1 still.
unfoldable pub request_bytes : Request → Option Bytes
request_bytes r =
    let (status, b) = get_message_pack (2 ^ 32 - 1) message_buffer r in
    elim status [
      | success ↦ some (take b.len b.bytes)
      | buf_too_small ↦ none
      | name_too_long ↦ none
    ]

-- The answer: `pBuffer` is cleared in front of it, so zeros follow what came.
-- `failing` is what a call does to the connection when there is no reply.
unfoldable pub read_reply :
    (Connection → Connection) → Bytes → List Wake → Bytes × ℕ × Connection → Option Answer
read_reply failing out ws (bytes, cmd, c) =
    let read = (do
      (succeeded, rest) ← read_bool bytes
      some (
          if succeeded then (true, out, ws, c) else (
            false,
            out,
            ws,
            record c {
              err_msg =
                  from_server (take 256 (rest ++ replicate (max_client_package - length bytes) 0));
            },
          ))) in
    if cmd == cmd_server_reply_message then read else some (false, out, ws, failing c)

unfoldable pub await_reply :
    (Connection → Connection) → Bytes → List Wake → Connection → Option Answer
await_reply failing out ws c = do
  (reply, ws', c') ← recv_one_pack ws c
  elim reply [
    | none ↦ some (false, out, ws', failing c')
    | some (bytes, cmd) ↦ read_reply failing out ws' (bytes, cmd, c')
  ]

-- `checked` is false for CreateSubscribe and CancelSubscribe, which do not look at SendOnePack's result.
unfoldable pub ask :
    Bool → (Connection → Connection) → Request → Sending → List Wake → Connection → Option Answer
ask checked failing r line ws c =
    let go : Option Answer = elim (request_bytes r) [
      | none ↦ some (false, [], ws, record c { err_msg = invalid_parms })
      | some bytes ↦ do
        (sent, out) ← send_one_pack line bytes
        let replied = await_reply failing out ws c
        (if sent then replied else if checked then some (false, out, ws, shut c) else replied)
    ] in
    if c.build then go else some (false, [], ws, record c { err_msg = not_built })

unfoldable pub create_exchange_call :
    Bytes → ℕ → Bool → Bool → Sending → List Wake → Connection → Option Answer
create_exchange_call name exchange_type durable auto_del =
    ask true (λ c. c) (create_exchange name exchange_type durable auto_del)

unfoldable pub create_queue_call :
    Bytes → ℕ → Bool → Bool → Sending → List Wake → Connection → Option Answer
create_queue_call name priority durable auto_del =
    ask true (λ c. c) (create_queue name priority durable auto_del)

unfoldable pub create_binding_call :
    Bytes → Bytes → Bytes → Sending → List Wake → Connection → Option Answer
create_binding_call exchange queue key = ask true (λ c. c) (create_binding exchange queue key)

unfoldable pub delete_exchange_call : Bytes → Sending → List Wake → Connection → Option Answer
delete_exchange_call name = ask true (λ c. c) (delete_exchange name)

unfoldable pub delete_queue_call : Bytes → Sending → List Wake → Connection → Option Answer
delete_queue_call name = ask true (λ c. c) (delete_queue name)

unfoldable pub create_subscribe_call : Bytes → ℕ → Sending → List Wake → Connection → Option Answer
create_subscribe_call name level =
    ask false (λ c. record c { err_msg = bad_reply }) (subscribe name level)

-- The request is the one that deletes the queue.
unfoldable pub cancel_subscribe_call : Bytes → Sending → List Wake → Connection → Option Answer
cancel_subscribe_call name = ask false (λ c. c) (delete_queue name)
