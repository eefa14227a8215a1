-- ===== src/Client/Consumer.antt =====
-- client/client.cpp, Consumer: RecvMessage, ConsumeMessage and SendConsumerAck.
use mq_cplusplus.Base.{
  ℕ, ◌-◌, Bool, false, not, ◌&&◌, ◌||◌, Option, none, some, List, [], ◌∷◌, ◌++◌, ◌==◌, ltb, length,
  if◌then◌else◌, take, replicate, Bytes, ◌>>=◌,
}
use mq_cplusplus.Message.Wire.{read_byte, read_int, read_bool}
use mq_cplusplus.Message.Request.{recv, client_ack, cmd_server_reply_message, max_client_package}
use mq_cplusplus.Client.Receive.{
  Connection, invalid_parms, not_built, ack_failed, repeated, from_server, shut, Wake, Sending,
  recv_one_pack, send_one_pack,
}
use mq_cplusplus.Client.Ask.{request_bytes}
use mq_cplusplus.Client.Producer.{has_seq, no_seq}

pub record Consumer : Type 0 where
  pub connection : Connection
  pub seq_set : List ℕ
  pub ack_seq : ℕ

-- What a delivery holds: the confirm level, the number and the body.
pub record Delivery : Type 0 where
  pub level : ℕ
  pub seq : ℕ
  pub body : Bytes

unfoldable pub read_delivery : Bytes → Option Delivery
read_delivery bytes = do
  (level, rest) ← read_byte bytes
  (seq, rest) ← read_int rest
  some (record { level = level; seq = seq; body = rest })

-- An acknowledgement: whether it went out, and the bytes.
unfoldable pub send_ack : Sending → ℕ → ℕ → Option (Bool × Bytes)
send_ack line level seq = elim (request_bytes (client_ack level seq)) [
  | none ↦ some (false, [])
  | some bytes ↦ send_one_pack line bytes
]

-- The levels that the user acknowledges by hand.
unfoldable pub by_hand : ℕ → Bool
by_hand level = (level == 2) || (level == 3)

-- A message is given out unless its number was there before.
unfoldable pub note_seq : Delivery → Consumer → Option Bytes × Consumer
note_seq d c =
    if has_seq d.seq c.seq_set
    then (none, record c { connection = record (c.connection) { err_msg = repeated } })
    else (
      some d.body,
      record c { seq_set = if ltb 0 d.level then d.seq ∷ c.seq_set else c.seq_set },
    )

unfoldable pub keep_ack : Delivery → Consumer → Consumer
keep_ack d c =
    if by_hand d.level
    then record c {
      connection = record (c.connection) { confirm_level = d.level };
      ack_seq = d.seq;
    }
    else c

-- What a consumer's call returns: the body if it succeeds, what went out, what is still to come, and
-- the consumer.
abbrev pub Consumed : Type 0
Consumed = Option Bytes × List Bytes × List Wake × Consumer

-- Behind the read of a delivery; `automatic` says whether it is acknowledged now, `failing` what a failure
-- does to the connection.
unfoldable pub deliver_to :
    Bool
    → (Connection → Connection)
    → Sending
    → List Bytes
    → List Wake
    → Delivery
    → Consumer
    → Option Consumed
deliver_to automatic failing line out ws d c =
    let (body, noted) = note_seq d c in
    let (body', noted') = note_seq d (keep_ack d c) in
    let acked : Option Consumed = (do
      (sent, bytes) ← send_ack line d.level d.seq
      some (
          if sent
          then (body, out ++ bytes ∷ [], ws, noted)
          else (none, out ++ bytes ∷ [], ws, record c { connection = failing c.connection }))) in
    if automatic then acked else some (body', out, ws, noted')

abbrev pub fail_ack : Connection → Connection
fail_ack c = record c { err_msg = ack_failed }

-- ConsumeMessage
unfoldable pub consume_message : Sending → List Wake → Consumer → Option Consumed
consume_message line ws c =
    let received = (do
      (reply, ws', conn) ← recv_one_pack ws c.connection
      let after : Consumer = record c { connection = conn }
      elim reply [
        | none ↦ some (none, [], ws', after)
        | some (bytes, cmd) ↦ do
          d ← read_delivery bytes
          deliver_to ((d.level == 1) && not (d.seq == no_seq)) fail_ack line [] ws' d after
      ]) in
    if c.connection.build
    then received
    else some
        (none, [], ws, record c { connection = record (c.connection) { err_msg = not_built } })

-- RecvMessage: it asks for a message of a queue, and the server answers with one or with a reply.
unfoldable pub answer_recv :
    Sending → List Bytes → List Wake → Bytes × ℕ → Consumer → Option Consumed
answer_recv line out ws (bytes, cmd) c =
    let refused = (do
      (succeeded, rest) ← read_bool bytes
      some (
        none,
        out,
        ws,
        record c {
          connection = record (c.connection) {
            err_msg =
                from_server (take 256 (rest ++ replicate (max_client_package - length bytes) 0));
          };
        },
      )) in
    let delivered = (do d ← read_delivery bytes; deliver_to (d.level == 1) shut line out ws d c) in
    if cmd == cmd_server_reply_message then refused else delivered

unfoldable pub recv_message : Bytes → ℕ → Sending → Sending → List Wake → Consumer → Option Consumed
recv_message queue level line ack_line ws c =
    let go : Option Consumed = elim (request_bytes (recv queue level)) [
      | none ↦ some (
        none,
        [],
        ws,
        record c { connection = record (c.connection) { err_msg = invalid_parms } },
      )
      | some bytes ↦ do
        (sent, out) ← send_one_pack line bytes
        let replied : Option Consumed = (do
          (reply, ws', conn) ← recv_one_pack ws c.connection
          let after : Consumer = record c { connection = conn }
          elim reply [
            | none ↦ some (none, out ∷ [], ws', after)
            | some got_one ↦ answer_recv ack_line (out ∷ []) ws' got_one after
          ])
        (if sent
            then replied
            else some (none, out ∷ [], ws, record c { connection = shut c.connection }))
    ] in
    if c.connection.build
    then go
    else some
        (none, [], ws, record c { connection = record (c.connection) { err_msg = not_built } })

-- SendConsumerAck; it returns nothing when it succeeds.
unfoldable pub send_consumer_ack : Sending → Consumer → Option (Bytes × Consumer)
send_consumer_ack line c =
    let acked = (do
      (sent, bytes) ← send_ack line c.connection.confirm_level c.ack_seq
      some (bytes, if sent then c else record c { connection = fail_ack c.connection })) in
    if by_hand c.connection.confirm_level && not (c.ack_seq == no_seq) then acked else some ([], c)
