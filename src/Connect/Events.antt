-- ===== src/Connect/Events.antt =====
-- connectServer/connectServer.cpp, ProcessEpollData: new connections, what clients send, and
-- connections that end. `none` is a difference of pointers into two buffers.
use mq_cplusplus.Base.{
  ℕ, ◌+◌, ◌-◌, ◌%◌, ◌^◌, Bool, true, Option, none, some, List, [], ◌∷◌, ◌==◌, if◌then◌else◌, length,
  take, put_at, Bytes, ◌>>=◌,
}
use mq_cplusplus.ShmQueue.Channel.{Channel}
use mq_cplusplus.Message.Pack.{client_exit_pack}
use mq_cplusplus.Message.Request.{cmd_client_exit}
use mq_cplusplus.Logic.Server.{cleared}
use mq_cplusplus.Connect.Client.{
  recv_area, send_area, Place, ClientConnect, Manager, server_buffer_size, put_connect,
  get_one_free_connect, client_exit, add_online_client,
}
use mq_cplusplus.Connect.Receive.{Receiving, cut_packets}

pub record ConnectServer (S : Type 0) : Type 0 where
  pub manager : Manager
  pub listen_fd : ℕ
  pub to_logic : S
  pub recv_count : ℕ
  pub send_count : ℕ

-- What recv returns: EAGAIN, another error, or bytes; no bytes are the end of the connection.
pub data Received : Type 0 where
  again failed : Received
  got : Bytes → Received

-- One entry that epoll_wait fills, with what the system calls return that its handling makes: accept
-- a socket above 0 and an address, recv its answer to a number of bytes that it is asked for.
pub record Event : Type 0 where
  pub readable : Bool
  pub pointer : Option ℕ
  pub accepted : Option (ℕ × ℕ)
  pub received : ℕ → Received
  pub now : ℕ

-- `m_pRecvEnd-m_pRecvTail`
unfoldable pub recv_room : ClientConnect → Option ℕ
recv_room c = elim c.recv_tail.area [
  | recv_area ↦ some (server_buffer_size - c.recv_tail.offset)
  | send_area ↦ none
]

-- The packet that says that a client is gone.
unfoldable pub exit_packet : ℕ → Bytes
exit_packet index =
    let (status, b) = client_exit_pack index cmd_client_exit cleared in take b.len b.bytes

abbrev pub in_recv : ℕ → Place
in_recv i = record { area = recv_area; offset = i }

-- The receive buffer when bytes have come: they stand behind those that wait.
unfoldable pub received_into : ClientConnect → Bytes → Receiving
received_into c bytes = record {
  buff = put_at c.recv_tail.offset bytes c.recv_buff;
  head = c.recv_head.offset;
  tail = c.recv_tail.offset + length bytes;
}

-- The connection after the loop over its receive buffer.
unfoldable pub cut_connect : ℕ → Receiving → ClientConnect → ClientConnect
cut_connect now r c = record c {
  last_recv_time = now;
  recv_buff = r.buff;
  recv_head = in_recv r.head;
  recv_tail = in_recv r.tail;
}

-- A client connects, and what GetOneFreeConnect returns for it.
unfoldable pub place_client :
    {S : Type 0} → ℕ → ℕ → ℕ → Option ℕ × Manager → ConnectServer S → ConnectServer S
place_client fd addr now (none, m) s = record s { manager = m }
place_client fd addr now (some p, m) s =
    let c = record (m.connects p) {
      sockfd = fd;
      client_addr = addr;
      last_recv_time = now;
      in_map = true;
    } in
    record s { manager = add_online_client p (put_connect p c m) }

unfoldable pub accept_client : {S : Type 0} → ℕ → ℕ → ℕ → ConnectServer S → ConnectServer S
accept_client fd addr now s = place_client fd addr now (get_one_free_connect s.manager) s

module _ {S : Type 0} (channel : Channel S) where
  -- The logic server is told, and the connection given back.
  unfoldable pub end_client : ℕ → ConnectServer S → ConnectServer S
  end_client p s = record s {
    to_logic = (channel.send s.to_logic (exit_packet (s.manager.connects p).index)).1;
    manager = client_exit p s.manager;
  }

  -- Bytes of a client: whole packets go to the logic server.
  unfoldable pub take_bytes : ℕ → Bytes → ℕ → ConnectServer S → ConnectServer S
  take_bytes p bytes now s =
      let c : ClientConnect = s.manager.connects p in
      let r = received_into c bytes in
      let (r', count, q) =
        cut_packets channel c.index (r.tail - r.head) (r.tail - r.head) r s.to_logic in
      record s {
        manager = put_connect p (cut_connect now r' c) s.manager;
        to_logic = q;
        recv_count = (s.recv_count + count) % 2 ^ 32;
      }

  unfoldable pub receive : Event → ℕ → ConnectServer S → Option (ConnectServer S)
  receive e p s = do
    room ← recv_room (s.manager.connects p)
    elim (e.received room) [
      | again ↦ some s
      | failed ↦ some (end_client p s)
      | got bytes ↦ elim bytes [
        | [] ↦ some (end_client p s)
        | b ∷ bs ↦ some (take_bytes p (b ∷ bs) e.now s)
      ]
    ]

  unfoldable pub process_event : Event → ConnectServer S → Option (ConnectServer S)
  process_event e s = elim e.pointer [
    | none ↦ some s
    | some p ↦
        if e.readable
        then if (s.manager.connects p).sockfd == s.listen_fd
          then elim e.accepted [
            | none ↦ some s
            | some (fd, addr) ↦ some (accept_client fd addr e.now s)
          ]
          else receive e p s
        else some (end_client p s)
  ]

  unfoldable pub process_epoll_data : List Event → ConnectServer S → Option (ConnectServer S)
  process_epoll_data [] s = some s
  process_epoll_data (e ∷ es) s = do s' ← process_event e s; process_epoll_data es s'
