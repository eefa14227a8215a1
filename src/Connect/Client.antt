-- ===== src/Connect/Client.antt =====
-- connectServer/clientConnect.h and clientConnect.cpp: the connections of the clients and the pool
-- that hands them out. A pointer to a connection is its number in the array `m_pAllClientConnect`.
use mq_cplusplus.Base.{
  ℕ, zero, suc, ◌+◌, ◌*◌, Bool, true, false, Option, none, some, List, [], ◌∷◌, ◌++◌, leb, ◌==◌,
  if◌then◌else◌, replicate, Bytes, find, insert, erase,
}

abbrev pub server_buffer_size : ℕ
server_buffer_size = 1024 * 100

abbrev pub client_epoll_count : ℕ
client_epoll_count = 1000

-- Where a pointer into the buffers of a connection stands: in which buffer, and how far in.
pub data Area : Type 0 where
  recv_area send_area : Area

pub record Place : Type 0 where
  pub area : Area
  pub offset : ℕ

pub record ClientConnect : Type 0 where
  pub sockfd : ℕ
  pub client_addr : ℕ
  pub last_recv_time : ℕ
  pub used : Bool
  pub in_map : Bool
  pub index : ℕ
  pub recv_buff : Bytes
  pub recv_head : Place
  pub recv_tail : Place
  pub send_buff : Bytes
  pub send_head : ℕ
  pub send_tail : ℕ

abbrev pub cleared_buffer : Bytes
cleared_buffer = replicate server_buffer_size 0

-- A connection as the constructor leaves it. It sets neither the socket, the address nor the time:
-- zeros stand for them.
unfoldable pub new_connect : ℕ → ClientConnect
new_connect i = record {
  sockfd = 0;
  client_addr = 0;
  last_recv_time = 0;
  used = false;
  in_map = false;
  index = i;
  recv_buff = cleared_buffer;
  recv_head = record { area = recv_area; offset = 0 };
  recv_tail = record { area = recv_area; offset = 0 };
  send_buff = cleared_buffer;
  send_head = 0;
  send_tail = 0;
}

-- ClientConnectManager: the array as a function of the place in it.
pub record Manager : Type 0 where
  pub connects : ℕ → ClientConnect
  pub online : List (ℕ × ℕ)
  pub free : List ℕ

-- `count` numbers from `i` on.
unfoldable pub numbers : ℕ → ℕ → List ℕ
numbers i zero = []
numbers i (suc count) = i ∷ numbers (i + 1) count

-- The constructor.
unfoldable pub new_manager : Manager
new_manager = record { connects = new_connect; online = []; free = numbers 0 client_epoll_count }

unfoldable pub put_connect : ℕ → ClientConnect → Manager → Manager
put_connect p c m = record m { connects = λ j. if p == j then c else m.connects j }

-- IsAddrValid takes the address behind the array too.
unfoldable pub is_addr_valid : ℕ → Bool
is_addr_valid p = leb p client_epoll_count

unfoldable pub get_one_free_connect : Manager → Option ℕ × Manager
get_one_free_connect m = elim m.free [
  | [] ↦ (none, m)
  | p ∷ rest ↦
      let popped : Manager = record m { free = rest } in
      if is_addr_valid p
      then (some p, put_connect p (record (m.connects p) { used = true }) popped)
      else (none, popped)
]

-- A connection after ClientExit. Of the send buffer's pointers none is reset: those of the receive
-- buffer are set a second time, to the send buffer.
unfoldable pub left_connect : ClientConnect → ClientConnect
left_connect c = record c {
  used = false;
  in_map = false;
  recv_buff = cleared_buffer;
  recv_head = record { area = send_area; offset = 0 };
  recv_tail = record { area = send_area; offset = 0 };
  send_buff = cleared_buffer;
}

-- ClientExit of a connection; the socket is closed, its number stays.
unfoldable pub client_exit : ℕ → Manager → Manager
client_exit p m =
    let c : ClientConnect = m.connects p in
    if c.used
    then record (put_connect p (left_connect c) m) {
      online = erase ◌==◌ c.index m.online;
      free = m.free ++ p ∷ [];
    }
    else m

unfoldable pub find_client : ℕ → Manager → Option ℕ
find_client k m = find ◌==◌ k m.online

unfoldable pub add_online_client : ℕ → Manager → Manager
add_online_client p m = record m { online = insert ◌==◌ (m.connects p).index p m.online }
