-- ===== src/Client/Producer.antt =====
-- client/client.cpp, Producer: PuslishMessage, RecvServerAck and ReSendMsg.
use mq_cplusplus.Base.{
  ℕ, zero, suc, ◌+◌, ◌-◌, ◌/◌, ◌%◌, ◌^◌, Bool, true, false, ◌||◌, Option, none, some, List, [], ◌∷◌,
  ◌++◌, ◌==◌, ltb, leb, if◌then◌else◌, length, take, drop, Bytes, ◌>>=◌,
}
use mq_cplusplus.Message.Wire.{read_short, read_int}
use mq_cplusplus.Message.Request.{Request, publish, head_len, max_client_package}
use mq_cplusplus.Message.Pack.{get_message_pack}
use mq_cplusplus.Client.Receive.{
  Connection, invalid_parms, not_built, shut, Wake, Sending, wait_pack, send_one_pack,
}
use mq_cplusplus.Client.Ask.{request_bytes}

-- A message that waits for the server's acknowledgement. `save_time` is in microseconds.
pub record Unacked : Type 0 where
  pub message : Request
  pub msg_seq : ℕ
  pub save_time : ℕ

pub record Producer : Type 0 where
  pub connection : Connection
  pub msg_seq : ℕ
  pub need_ack : List Unacked

-- The number that a message without one has, and the index of a client that does not know it: -1.
abbrev pub no_seq : ℕ
no_seq = 2 ^ 32 - 1

-- PuslishMessage: whether it succeeds, what went out, and the producer.
unfoldable pub publish_message :
    Bytes → Bytes → Bytes → ℕ → Bool → ℕ → Sending → Producer → Option (Bool × Bytes × Producer)
publish_message exchange key body priority durable now line p =
    let c = p.connection in
    let confirmed = ltb 0 c.confirm_level in
    let seq : ℕ = if confirmed then p.msg_seq else no_seq in
    let message = publish exchange key body priority durable seq c.confirm_level in
    let numbered : Producer = record p {
      msg_seq = if confirmed then (p.msg_seq + 1) % 2 ^ 32 else p.msg_seq;
    } in
    let waiting : List Unacked =
      p.need_ack ++ (record { message = message; msg_seq = seq; save_time = now }) ∷ [] in
    let go : Option (Bool × Bytes × Producer) = elim (request_bytes message) [
      | none ↦
          some (false, [], record numbered { connection = record c { err_msg = invalid_parms } })
      | some bytes ↦ do
        (sent, out) ← send_one_pack line bytes
        some (
            if sent
            then (
              true,
              out,
              record numbered { need_ack = if confirmed then waiting else p.need_ack },
            )
            else (false, out, record numbered { connection = shut c }))
    ] in
    if c.build
    then go
    else some (false, [], record p { connection = record c { err_msg = not_built } })

-- The loop over the packets that have come: the numbers in them, and the bytes that stay. A packet of
-- length 0 keeps it going for ever.
unfoldable pub read_acks : ℕ → Bytes → Option (List ℕ × Bytes)
read_acks zero pending = none
read_acks (suc fuel) pending =
    let read = (do
      (pack_len, rest) ← read_short pending
      let one = (do
        (index, rest) ← read_int rest
        (cmd, rest) ← read_short rest
        (seq, rest) ← read_int rest
        (seqs, left) ← read_acks fuel (drop pack_len pending)
        some (seq ∷ seqs, left))
      (if ltb (length pending) pack_len then some ([], pending) else one)) in
    if ltb (length pending) head_len then some ([], pending) else read

-- `<=` on `int`, of bit patterns.
unfoldable pub int_le : ℕ → ℕ → Bool
int_le a b = leb ((a + 2 ^ 31) % 2 ^ 32) ((b + 2 ^ 31) % 2 ^ 32)

unfoldable pub has_seq : ℕ → List ℕ → Bool
has_seq k [] = false
has_seq k (x ∷ xs) = (x == k) || has_seq k xs

-- PRODUCER_SINGLE_ACK: the messages whose number has come go.
unfoldable pub without_acked : List ℕ → List Unacked → List Unacked
without_acked seqs [] = []
without_acked seqs (m ∷ ms) =
    let rest = without_acked seqs ms in if has_seq m.msg_seq seqs then rest else m ∷ rest

-- PRODUCER_MUTIL_ACK: for each number that has come, the messages up to it go.
unfoldable pub without_up_to : ℕ → List Unacked → List Unacked
without_up_to seq [] = []
without_up_to seq (m ∷ ms) =
    let rest = without_up_to seq ms in if int_le m.msg_seq seq then rest else m ∷ rest

unfoldable pub without_all : List ℕ → List Unacked → List Unacked
without_all [] ms = ms
without_all (seq ∷ seqs) ms = without_all seqs (without_up_to seq ms)

unfoldable pub settle : List ℕ → ℕ → List Unacked → List Unacked
settle seqs level ms =
    if level == 1 then without_acked seqs ms else if level == 2 then without_all seqs ms else ms

-- RecvServerAck
unfoldable pub recv_server_ack : List Wake → Producer → Option (Bool × List Wake × Producer)
recv_server_ack ws p = do
  (there, ws', c) ← wait_pack ws p.connection
  let acked = (do
    (seqs, left) ← read_acks (length c.pending + 1) c.pending
    some (
      true,
      ws',
      record p {
        connection = record c { pending = left };
        need_ack = settle seqs c.confirm_level p.need_ack;
      },
    ))
  (if there then acked else some (false, ws', record p { connection = c }))

-- ReSendMsg: for at most `fuel` messages. `stale` is what stands in the array that a message is packed
-- into, which is not cleared. `lines` gives the socket's answers, by the messages left.
unfoldable pub resend_loop :
    ℕ → Bytes → (ℕ → Sending) → ℕ → List Bytes → Producer → Option (Bool × List Bytes × Producer)
resend_loop zero stale lines now out p = some (true, out, p)
resend_loop (suc fuel) stale lines now out p = elim p.need_ack [
  | [] ↦ some (true, out, p)
  | m ∷ ms ↦
      let (status, b) =
        get_message_pack no_seq (record { bytes = stale; len = max_client_package }) m.message in
      let moved : Producer = record p { need_ack = ms ++ (record m { save_time = now }) ∷ [] } in
      let sent = (do
        (ok, bytes) ← send_one_pack (lines fuel) (take b.len b.bytes)
        let rest = resend_loop fuel stale lines now (out ++ bytes ∷ []) moved
        (if ok
            then rest
            else some
                (false, out ++ bytes ∷ [], record moved { connection = shut p.connection }))) in
      if leb 3000000 ((now - m.save_time) / 1000) then sent else some (true, out, p)
]

unfoldable pub resend_msg_call :
    Bytes → (ℕ → Sending) → ℕ → Producer → Option (Bool × List Bytes × Producer)
resend_msg_call stale lines now p = resend_loop (length p.need_ack) stale lines now [] p
