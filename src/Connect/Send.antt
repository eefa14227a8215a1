-- ===== src/Connect/Send.antt =====
-- connectServer/connectServer.cpp, SendDataToClient and what Run does with the packets from the logic
-- server. `none` is a call that still waits.
use mq_cplusplus.Base.{
  ℕ, zero, suc, ◌+◌, ◌-◌, ◌*◌, ◌%◌, ◌^◌, Bool, true, false, not, ◌&&◌, ◌||◌, Option, none, some,
  List, [], ◌∷◌, ◌++◌, ltb, leb, ◌==◌, if◌then◌else◌, length, span, put_at, Bytes, ◌>>=◌,
}
use mq_cplusplus.ShmQueue.Channel.{Channel}
use mq_cplusplus.Message.Wire.{read_short, read_int}
use mq_cplusplus.Message.Request.{
  head_len, cmd_client_pull_message, cmd_server_push_message, cmd_server_reply_message,
  cmd_server_ack_message,
}
use mq_cplusplus.Socket.{Transfer, sendn}
use mq_cplusplus.Connect.Client.{ClientConnect, server_buffer_size, put_connect, find_client}
use mq_cplusplus.Connect.Events.{ConnectServer, Event, exit_packet, end_client, process_epoll_data}

abbrev pub max_server_package : ℕ
max_server_package = 1024 * 11

-- What one poll returns: a signal, another error, a timeout, POLLOUT, or another event.
pub data Polled : Type 0 where
  interrupted poll_failed timeout writable other : Polled

-- The system calls of one SendDataToClient, in turn, and the time.
pub record Line : Type 0 where
  pub polls : List Polled
  pub sends : List Transfer
  pub now : ℕ

unfoldable pub wait_writable : List Polled → Option Bool
wait_writable [] = none
wait_writable (interrupted ∷ ps) = wait_writable ps
wait_writable (writable ∷ ps) = some true
wait_writable (_ ∷ ps) = some false

-- SendDataToClient: whether it succeeds, the bytes that went out, and the connection.
unfoldable pub send_data_to_client :
    Line → Bytes → ClientConnect → Option (Bool × Bytes × ClientConnect)
send_data_to_client line bytes c = if c.sockfd == 0 then some (false, [], c) else (do
  ready ← wait_writable line.polls
  let touched : ClientConnect = record c { last_recv_time = line.now }
  let refused : Option (Bool × Bytes × ClientConnect) = some (false, [], c)
  let sent = (do (whole, out) ← sendn line.sends bytes; some (whole, out, touched))
  (if ready then sent else refused))

-- The bytes that wait in a send buffer, and the buffer with a packet behind them.
unfoldable pub to_send : ClientConnect → Bytes
to_send c = span c.send_head (c.send_tail - c.send_head) c.send_buff

unfoldable pub buffered : Bytes → ClientConnect → ClientConnect
buffered packet c = record c {
  send_buff = put_at c.send_tail packet c.send_buff;
  send_tail = c.send_tail + length packet;
}

-- The server in a round of Run: `out` is what went out on which connection, `clients` is vSendClients.
pub record Round (S : Type 0) : Type 0 where
  pub server : ConnectServer S
  pub out : List (ℕ × Bytes)
  pub clients : List ℕ

unfoldable pub set_connect : {S : Type 0} → ℕ → ClientConnect → Round S → Round S
set_connect p c r = record r {
  server = record (r.server) { manager = put_connect p c r.server.manager };
}

-- A packet goes into the send buffer of a client, who is noted.
unfoldable pub put_packet : {S : Type 0} → ℕ → Bytes → Round S → Round S
put_packet p packet r = record (set_connect p (buffered packet (r.server.manager.connects p)) r) {
  clients = r.clients ++ p ∷ [];
}

module _ {S : Type 0} (channel : Channel S) where
  -- What waits for a client is sent; the client is given up if that fails.
  unfoldable pub flush_client : Line → ℕ → Round S → Option (Bool × Round S)
  flush_client line p r = do
    (whole, bytes, c) ←
        send_data_to_client line (to_send (r.server.manager.connects p))
          (r.server.manager.connects p)
    let logged : Round S = record r { out = r.out ++ (p, bytes) ∷ [] }
    let kept : Round S = set_connect p c logged
    (if whole
        then some (true, set_connect p (record c { send_tail = 0 }) logged)
        else some (false, record kept { server = end_client channel p kept.server }))

  -- A packet for a client goes into its send buffer; if there is no room, what waits is sent first.
  unfoldable pub buffer_packet : Line → ℕ → Bytes → Round S → Option (Round S)
  buffer_packet line p packet r =
      let flushed = (do
        (sent, r') ← flush_client line p r
        some (if sent then put_packet p packet r' else r')) in
      if leb (length packet) (server_buffer_size - (r.server.manager.connects p).send_tail)
      then some (put_packet p packet r)
      else flushed

  -- One packet from the logic server: whether the time is looked at behind it, and the server.
  unfoldable pub dispatch : Line → Bytes → Round S → Option (Bool × Round S)
  dispatch line packet r = if ltb (length packet) head_len then some (false, r) else (do
    (pack_len, rest) ← read_short packet
    (index, rest) ← read_int rest
    (cmd, body) ← read_short rest
    let known =
        (cmd == cmd_client_pull_message)
        || ((cmd == cmd_server_push_message)
            || ((cmd == cmd_server_reply_message) || (cmd == cmd_server_ack_message)))
    let gone : ConnectServer S = record (r.server) {
      to_logic = (channel.send r.server.to_logic (exit_packet index)).1;
    }
    let counted : ConnectServer S = record (r.server) {
      send_count = (r.server.send_count + 1) % 2 ^ 32;
    }
    elim (find_client index r.server.manager) [
      | none ↦ some (false, record r { server = gone })
      | some p ↦
          let buffering = (do
            r' ← buffer_packet line p packet (record r { server = counted })
            some (true, r')) in
          if known then buffering else some (false, r)
    ])

  -- The loop over the queue from the logic server, for at most `fuel` rounds. A packet that is longer
  -- than the buffer is not taken, and the loop goes on. `lines` and `time_left` are asked by the number
  -- of packets taken.
  unfoldable pub drain :
      ℕ → (ℕ → Line) → (ℕ → Bool) → ℕ → List Bytes → Round S → Option (ℕ × List Bytes × Round S)
  drain zero lines time_left count queue r = none
  drain (suc fuel) lines time_left count [] r = some (count, [], r)
  drain (suc fuel) lines time_left count (packet ∷ queue) r =
      let again = drain fuel lines time_left count (packet ∷ queue) r in
      let taken = (do
        (checked, r') ← dispatch (lines count) packet r
        let next = drain fuel lines time_left (count + 1) queue r'
        (if checked && (leb 100 (count + 1) && not (time_left (count + 1)))
            then some (count + 1, queue, r')
            else next)) in
      if ltb max_server_package (length packet) then again else taken

  -- The loop over vSendClients.
  unfoldable pub flush_all : (ℕ → Line) → List ℕ → Round S → Option (Round S)
  flush_all lines [] r = some r
  flush_all lines (p ∷ ps) r = do
    (sent, r') ← flush_client (lines (length ps)) p r
    flush_all lines ps r'

  -- One round over the queue: all that was put into send buffers is sent at its end.
  unfoldable pub run_round :
      ℕ
      → (ℕ → Line)
      → (ℕ → Line)
      → (ℕ → Bool)
      → List Bytes
      → ConnectServer S
      → Option (ℕ × List Bytes × Round S)
  run_round fuel lines ends time_left queue s = do
    (count, left, r) ←
        drain fuel lines time_left 0 queue (record { server = s; out = []; clients = [] })
    r' ← flush_all ends r.clients r
    some (count, left, r')

  -- The body of Run's loop: the events, and then the queue, which holds `queue` by then.
  unfoldable pub run_once :
      List Event
      → ℕ
      → (ℕ → Line)
      → (ℕ → Line)
      → (ℕ → Bool)
      → List Bytes
      → ConnectServer S
      → Option (ℕ × List Bytes × Round S)
  run_once events fuel lines ends time_left queue s = do
    s' ← process_epoll_data channel events s
    run_round fuel lines ends time_left queue s'
