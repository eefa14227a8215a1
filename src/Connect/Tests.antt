-- ===== src/Connect/Tests.antt =====
-- A connection server with one client, and the witnesses.
use mq_cplusplus.Base.{
  ℕ, suc, ◌+◌, ◌-◌, ◌*◌, ◌≤◌, ◌≡◌, refl, ◌⊎◌, Bool, true, none, some, List, [], ◌∷◌, ◌++◌, arith,
  find, drop, Bytes, length, length-replicate,
}
use mq_cplusplus.ShmQueue.{success}
use mq_cplusplus.ShmQueue.Channel.{Channel}
use mq_cplusplus.Message.Wire.{read_short, read_int}
use mq_cplusplus.Socket.{wait, moved, sendn, sendn-prefix, sendn-at_once}
use mq_cplusplus.Connect.Client.{
  ClientConnect, new_connect, new_manager, server_buffer_size, put_connect, cleared_buffer,
  get_one_free_connect, client_exit, add_online_client, is_addr_valid, left_connect,
}
use mq_cplusplus.Connect.Events.{
  ConnectServer, Event, got, accept_client, end_client, process_event, process_epoll_data,
  place_client,
}
use mq_cplusplus.Connect.Packets.{IsPacket}
use mq_cplusplus.Connect.Arrivals.{Waits, Arrived}
use mq_cplusplus.Connect.Stream.{receive_stream, receive_stream-packets, readable_event}
use mq_cplusplus.Connect.Pool.{IsPool, new_manager-IsPool}
use mq_cplusplus.Connect.Lives.{Faults, accept_client-IsPool, process_event-IsPool}
use mq_cplusplus.Connect.Reuse.{left_client-faults}
use mq_cplusplus.Connect.Send.{Line, Round, wait_writable, interrupted, writable, run_round}
use mq_cplusplus.Connect.Accounts.{Serves, IsUp, sent_to}
use mq_cplusplus.Connect.Serving.{Online}
use mq_cplusplus.Connect.Delivery.{packets, shares, IsFor}
use mq_cplusplus.Connect.Rounds.{run_round-delivers}

-- A queue without bounds.
abbrev list_channel : Channel (List Bytes)
list_channel = record {
  send = λ s packet. (success, s ++ packet ∷ []);
  room = λ s packet. s;
  refused_keeps = λ s packet h. absurd (h refl);
}

-- Connection 0 is a client's, connection 5 the one that listens.
abbrev connection : ℕ → ClientConnect
connection j = record (new_connect j) { sockfd = 3 + (5 - j) * 4; used = true }

abbrev server : ConnectServer (List Bytes)
server = record {
  manager = record { connects = connection; online = (0, 0) ∷ []; free = [] };
  listen_fd = 3;
  to_logic = [];
  recv_count = 0;
  send_count = 0;
}

-- A packet that acknowledges, for client 0.
abbrev packet : Bytes
packet = 0 ∷ 9 ∷ 0 ∷ 0 ∷ 0 ∷ 0 ∷ 0 ∷ 14 ∷ 7 ∷ []

sendn-prefix_example :
    (sendn (moved 2 ∷ wait ∷ moved 5 ∷ []) (1 ∷ 2 ∷ 3 ∷ []) ≡ none)
    ⊎ ((whole : Bool) × (out : Bytes) × (rest : Bytes) × (sendn
            (moved 2 ∷ wait ∷ moved 5 ∷ [])
            (1 ∷ 2 ∷ 3 ∷ [])
          ≡ some (whole, out))
        × ((1 ∷ 2 ∷ 3 ∷ []) ≡ out ++ rest)
        × (whole ≡ true → rest ≡ []))
sendn-prefix_example = sendn-prefix (moved 2 ∷ wait ∷ moved 5 ∷ []) (1 ∷ 2 ∷ 3 ∷ [])

packet-IsPacket : IsPacket packet
unfolding read_short
packet-IsPacket = record { long = omega arith; short = omega arith; header = refl }

connection-Waits : Waits (connection 0) []
unfolding new_connect
connection-Waits = record {
  own = refl;
  at_front = refl;
  behind_it = refl;
  held = (cleared_buffer, refl);
  size = length-replicate {A = ℕ} server_buffer_size 0;
}

receive_stream-packets_example :
    (s' : ConnectServer (List Bytes)) × (rest : Bytes) × (receive_stream list_channel
        (2 ∷ 8 ∷ [])
        0
        1
        packet
        server
      ≡ some (s', rest))
    × Arrived list_channel (packet ∷ []) server s' 0 rest
    × (length packet ≤ 2 → rest ≡ [])
receive_stream-packets_example =
    receive_stream-packets list_channel (2 ∷ 8 ∷ []) (packet ∷ []) 0 1 [] packet server
      (packet-IsPacket, tt) connection-Waits (omega arith) refl refl

-- The first client has come.
abbrev first : ConnectServer (List Bytes)
first = accept_client 7 1 5 (record server { manager = new_manager })

first-IsPool : IsPool first.manager
first-IsPool =
    accept_client-IsPool 7 1 5 (record server { manager = new_manager }) new_manager-IsPool

process_event-IsPool_example :
    ((s' : ConnectServer (List Bytes)) × (process_event list_channel
          (readable_event list_channel 4 0 6 packet)
          first
        ≡ some s')
      × IsPool s'.manager)
    ⊎ ((process_event list_channel (readable_event list_channel 4 0 6 packet) first ≡ none)
        × Faults list_channel (readable_event list_channel 4 0 6 packet) first)
process_event-IsPool_example =
    process_event-IsPool list_channel (readable_event list_channel 4 0 6 packet) first first-IsPool

-- A next client.
abbrev arrival : Event
arrival = record {
  readable = true;
  pointer = some 5;
  accepted = some (9, 1);
  received = λ room. got [];
  now = 8;
}

abbrev second : ConnectServer (List Bytes)
second = accept_client 9 1 8 (end_client list_channel 0 server)

second_comes :
    process_epoll_data list_channel (arrival ∷ []) (end_client list_channel 0 server) ≡ some second
unfolding process_epoll_data process_event end_client client_exit put_connect new_connect
second_comes = refl

left_client-faults_example :
    process_event list_channel (readable_event list_channel 4 0 9 packet) second ≡ none
unfolding accept_client place_client end_client client_exit put_connect get_one_free_connect
    is_addr_valid add_online_client left_connect
left_client-faults_example =
    left_client-faults list_channel 0 (arrival ∷ []) (readable_event list_channel 4 0 9 packet)
      server second refl second_comes refl refl refl

-- A socket that is interrupted once, and then takes everything.
abbrev line : Line
line = record {
  polls = interrupted ∷ writable ∷ [];
  sends = moved (suc server_buffer_size) ∷ [];
  now = 4;
}

line-IsUp : IsUp line
unfolding wait_writable
line-IsUp = record {
  ready = refl;
  sends = λ bs h. sendn-at_once server_buffer_size [] bs (omega (arith, h));
}

connection-Serves : (p : ℕ) → Online server.manager.online p → Serves (server.manager.connects p) []
unfolding new_connect
connection-Serves p i = record {
  connected = ground arith;
  at_front = refl;
  behind_it = refl;
  held = (cleared_buffer, refl);
  size = length-replicate {A = ℕ} server_buffer_size 0;
}

packet-IsFor : IsFor server.manager.online 0 packet
unfolding read_short read_int find
packet-IsFor = record {
  long = omega arith;
  fits = omega arith;
  pack_len = 9;
  index = 0;
  cmd = 14;
  behind_len = drop 2 packet;
  behind_index = drop 6 packet;
  body = drop 8 packet;
  reads_len = refl;
  reads_index = refl;
  reads_cmd = refl;
  known = refl;
  is_online = refl;
}

abbrev two : List (ℕ × Bytes)
two = (0, packet) ∷ (0, packet) ∷ []

run_round-delivers_example :
    (done left : List (ℕ × Bytes)) × (r : Round (List Bytes)) × (run_round list_channel 3
        (λ k. line)
        (λ k. line)
        (λ k. true)
        (packets two)
        server
      ≡ some (length done, packets left, r))
    × (two ≡ done ++ left)
    × ((left ≡ []) ⊎ (100 ≤ length done))
    × (r.server.manager.online ≡ server.manager.online)
    × ((p : ℕ)
        → Online server.manager.online p
        → (sent_to p r.out ≡ shares p done) × Serves (r.server.manager.connects p) [])
run_round-delivers_example =
    run_round-delivers list_channel server (λ k. line) (λ k. line) (λ k. true) (λ k. line-IsUp)
      (λ k. line-IsUp) connection-Serves two (packet-IsFor, (packet-IsFor, tt)) 3 (omega arith)
