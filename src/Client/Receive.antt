-- ===== src/Client/Receive.antt =====
-- client/client.cpp, the connection of a client: RecvPack, RecvOnePack, WaitServerReply and SendOnePack.
-- The receive buffer is what stands between its head and its tail, which every call leaves at its front.
-- `none` is a call that still waits, or a read behind what was received.
use mq_cplusplus.Base.{
  ℕ, ◌-◌, ◌*◌, Bool, true, false, Option, none, some, List, [], ◌∷◌, ◌++◌, ◌==◌, ltb, leb,
  if◌then◌else◌, length, take, drop, Bytes, ◌>>=◌,
}
use mq_cplusplus.Message.Wire.{read_short, read_int}
use mq_cplusplus.Message.Request.{head_len, max_client_package}
use mq_cplusplus.Socket.{Transfer, sendn}
use mq_cplusplus.Connect.Events.{Received, again, failed, got}
use mq_cplusplus.Connect.Send.{Polled, wait_writable}

abbrev pub sock_recv_buff_size : ℕ
sock_recv_buff_size = 1024 * 1024 * 10

-- `m_pErrMsg`: a text of the library, or what the server sent. `closed` stands for all the texts that say so.
pub data ErrMsg : Type 0 where
  nothing_wrong not_built invalid_parms bad_reply closed too_long ack_failed repeated : ErrMsg
  from_server : Bytes → ErrMsg

pub record Connection : Type 0 where
  pub build : Bool
  pub confirm_level : ℕ
  pub err_msg : ErrMsg
  pub pending : Bytes

-- What one poll for bytes returns: a signal, another error, a timeout, POLLERR, or another event.
pub data Awaited : Type 0 where
  signalled poll_error nothing_came error_event ready : Awaited

unfoldable pub wait_server_reply : List Awaited → Option Bool
wait_server_reply [] = none
wait_server_reply (signalled ∷ ps) = wait_server_reply ps
wait_server_reply (ready ∷ ps) = some true
wait_server_reply (_ ∷ ps) = some false

-- What the system calls of one RecvPack return, if it makes them; recv answers to the room that it is
-- given.
pub record Wake : Type 0 where
  pub polls : List Awaited
  pub received : ℕ → Received

-- ERR_SEVER_CLOSED, ERROR, SUCCESS
pub data RecvStatus : Type 0 where
  server_closed incomplete complete : RecvStatus

unfoldable pub has_pack : Bytes → Option Bool
has_pack pending =
    let whole = (do (pack_len, rest) ← read_short pending; some (leb pack_len (length pending))) in
    if ltb head_len (length pending) then whole else some false

abbrev pub shut : Connection → Connection
shut c = record c { build = false; err_msg = closed }

-- RecvPack where it has to receive.
unfoldable pub recv_more : Wake → Connection → Option (RecvStatus × Connection)
recv_more w c = do
  waited ← wait_server_reply w.polls
  let answer : Option (RecvStatus × Connection) =
      elim (w.received (sock_recv_buff_size - length c.pending)) [
        | again ↦ some (incomplete, c)
        | failed ↦ some (server_closed, shut c)
        | got bytes ↦ elim bytes [
          | [] ↦ some (server_closed, shut c)
          | b ∷ bs ↦ do
            whole ← has_pack (c.pending ++ b ∷ bs)
            some
                (if whole then complete else incomplete, record c { pending = c.pending ++ b ∷ bs })
        ]
      ]
  (if waited then answer else some (server_closed, shut c))

-- The loop around RecvPack, which returns at once when a packet is there already.
unfoldable pub wait_pack : List Wake → Connection → Option (Bool × List Wake × Connection)
wait_pack [] c = do whole ← has_pack c.pending; (if whole then some (true, [], c) else none)
wait_pack (w ∷ ws) c = do
  whole ← has_pack c.pending
  let received = (do
    (status, c') ← recv_more w c
    let rest = wait_pack ws c'
    elim status [
      | server_closed ↦ some (false, ws, c')
      | incomplete ↦ rest
      | complete ↦ some (true, ws, c')
    ])
  (if whole then some (true, w ∷ ws, c) else received)

-- RecvOnePack: the bytes behind the header and the command, where it succeeds. A length that is
-- shorter than the header is a copy of a negative length.
unfoldable pub take_pack :
    List Wake → Connection → Option (Option (Bytes × ℕ) × List Wake × Connection)
take_pack ws c = do
  (pack_len, rest) ← read_short c.pending
  (index, rest) ← read_int rest
  (cmd, rest) ← read_short rest
  (if ltb (max_client_package - head_len) pack_len
      then some (none, ws, record c { err_msg = too_long })
      else if ltb pack_len head_len
      then none
      else some (
        some (take (pack_len - head_len) rest, cmd),
        ws,
        record c { pending = drop pack_len c.pending },
      ))

unfoldable pub recv_one_pack :
    List Wake → Connection → Option (Option (Bytes × ℕ) × List Wake × Connection)
recv_one_pack ws c =
    let received = (do
      (there, ws', c') ← wait_pack ws c
      let taken = take_pack ws' c'
      (if there then taken else some (none, ws', c'))) in
    if c.build then received else some (none, ws, record c { err_msg = not_built })

-- SendOnePack: whether it succeeds, and the bytes that went out.
pub record Sending : Type 0 where
  pub polls : List Polled
  pub sends : List Transfer

unfoldable pub send_one_pack : Sending → Bytes → Option (Bool × Bytes)
send_one_pack line bytes =
    let sent = (do
      writable ← wait_writable line.polls
      let out = sendn line.sends bytes
      (if writable then out else some (false, []))) in
    if length bytes == 0 then some (false, []) else sent
