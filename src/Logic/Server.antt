-- ===== src/Logic/Server.antt =====
-- logicServer/logicServer.h and logicServer.cpp: the state of the logic server, what a handler
-- answers, and the packets for the persistence server.
use mq_cplusplus.Base.{
  ℕ, zero, suc, ◌+◌, ◌-◌, ◌/◌, ◌%◌, ◌^◌, Bool, true, false, ◌||◌, Option, none, some, List, [], ◌∷◌,
  ◌++◌, ltb, ◌==◌, if◌then◌else◌, length, take, replicate, Bytes, name_eq, find, insert,
}
use mq_cplusplus.ShmQueue.{Status, success}
pub use mq_cplusplus.ShmQueue.Channel.{Channel}
use mq_cplusplus.Message.Wire.{Field, short, int, text, write_fields}
use mq_cplusplus.Message.Request.{max_name_length, max_client_package}
use mq_cplusplus.Message.Pack.{Buffer, msg_len}
use mq_cplusplus.Message.Server.{Stored, stored_pack, server_ack_pack}
use mq_cplusplus.Logic.Queue.{MessageQueue}
use mq_cplusplus.Logic.Exchange.{Exchange}

-- `queues` is the heap of the MessageQueue objects; the maps hold pointers into it.
pub record Server (S : Type 0) : Type 0 where
  pub exchanges : List (Bytes × Exchange)
  pub queues : List (ℕ × MessageQueue)
  pub next_queue : ℕ
  pub unsubscribed : List (Bytes × ℕ)
  pub subscribed : List (Bytes × ℕ)
  pub need_ack : List Stored
  pub ack_seq : ℕ
  pub producer_seqs : List Bytes
  pub producer_last : List (ℕ × ℕ)
  pub to_connect : S
  pub to_persis : S

unfoldable pub is_success : Status → Bool
is_success success = true
is_success _ = false

pub data Ret : Type 0 where
  done err_process err_create_exchange err_create_queue err_create_binding err_publish_message
        err_recv_message err_create_subscribe err_delete_exchange err_delete_queue
        err_cancel_subscribe :
      Ret

-- The texts of logicServer.h; a reply is one of them and the name or key put behind it.
pub data Text : Type 0 where
  re_create_exchange_success re_create_exchange_failed re_exchange_exist re_create_queue_success
        re_create_queue_failed re_queue_exist re_exchange_not_exist re_queue_not_exist
        re_queue_not_subscribe re_queue_is_empty re_fit_queue_not_exist re_binding_succeed
        re_binding_failed re_subscribe_succeed re_subscribe_failed re_delete_exchange_succeed
        re_delete_exchange_failed re_delete_queue_succeed re_delete_queue_failed
        re_cancel_subscribe_succeed re_cancel_subscribe_failed re_durable_failed :
      Text

abbrev pub Note : Type 0
Note = Option (Text × Bytes)

-- What a handler returns, leaves in `ostrMsgBody`, and makes of the server.
abbrev pub Outcome : Type 0 → Type 0
Outcome S = Ret × Note × Server S

-- A cleared buffer of MAX_CLINT_PACKAGE_LENGTH bytes.
abbrev pub cleared : Buffer
cleared = record { bytes = replicate max_client_package 0; len = max_client_package }

-- The first `size` bytes of a cleared buffer into which the fields were written.
unfoldable pub built : ℕ → List Field → Bytes
built size fields = take (msg_len size) (write_fields fields cleared.bytes)

-- The packet of a message, and the acknowledgement of one: the bytes up to the length that the pack
-- leaves.
unfoldable pub stored_bytes : Stored → Bytes
stored_bytes m = let (status, b) = stored_pack m cleared in take b.len b.bytes

unfoldable pub ack_bytes : ℕ → ℕ → Bytes
ack_bytes index seq = let (status, b) = server_ack_pack index seq cleared in take b.len b.bytes

-- A request's own bytes behind a length and a command.
pub forward : ℕ → Bytes → Bytes
forward cmd raw =
    built (2 + 2 + length raw)
      (short (msg_len (2 + 2 + length raw)) ∷ short cmd ∷ text raw (length raw) ∷ [])

-- A message that is no longer needed: the queue's name and the durable index.
unfoldable pub message_gone : ℕ → Bytes → ℕ → Bytes
message_gone cmd name durable_index = built (2 + 2 + max_name_length + 4) (
    short (2 + 2 + max_name_length + 4)
    ∷ short cmd
    ∷ text name max_name_length
    ∷ int durable_index
    ∷ [])

module _ {S : Type 0} where
  unfoldable pub queue_at : Server S → ℕ → Option MessageQueue
  queue_at s p = find ◌==◌ p s.queues

  unfoldable pub put_queue : Server S → ℕ → MessageQueue → Server S
  put_queue s p q = record s { queues = insert ◌==◌ p q s.queues }

  -- The queue of a name as the handlers look it up that read the subscribed queues last.
  unfoldable pub queue_named_last : Server S → Bytes → Option ℕ
  queue_named_last s name = elim (find name_eq name s.subscribed) [
    | some p ↦ some p
    | none ↦ find name_eq name s.unsubscribed
  ]

  -- The queue of a name: of the unsubscribed queues, else of the subscribed ones.
  unfoldable pub queue_named : Server S → Bytes → Option ℕ
  queue_named s name = elim (find name_eq name s.unsubscribed) [
    | some p ↦ some p
    | none ↦ find name_eq name s.subscribed
  ]

-- Enqueue into the queue to the persistence server, or to the connection server; the second way to
-- the connection server waits until there is room.
module _ {S : Type 0} (channel : Channel S) where
  unfoldable pub send_persis : Server S → Bytes → Status × Server S
  send_persis s packet =
      let (ret, c) = channel.send s.to_persis packet in (ret, record s { to_persis = c })

  unfoldable pub send_connect : Server S → Bytes → Server S
  send_connect s packet = record s { to_connect = (channel.send s.to_connect packet).1 }

  unfoldable pub send_connect_wait : Server S → Bytes → Server S
  send_connect_wait s packet = record s {
    to_connect = (channel.send (channel.room s.to_connect packet) packet).1;
  }

-- std::to_string of an `int`.
pub decimal : ℕ → ℕ → Bytes
decimal zero v = []
decimal (suc fuel) v =
    let higher = decimal fuel (v / 10) in
    if ltb v 10 then (48 + v) ∷ [] else higher ++ (48 + v % 10) ∷ []

pub to_string : ℕ → Bytes
to_string v = if ltb v (2 ^ 31) then decimal 10 v else 45 ∷ decimal 10 (2 ^ 32 - v)

-- "producer index#message number"
pub seq_key : ℕ → ℕ → Bytes
seq_key client seq = to_string client ++ 35 ∷ to_string seq

unfoldable pub has_name : Bytes → List Bytes → Bool
has_name k [] = false
has_name k (x ∷ xs) = name_eq x k || has_name k xs

-- unordered_set<string>::insert
unfoldable pub add_name : Bytes → List Bytes → List Bytes
add_name k xs = if has_name k xs then xs else xs ++ k ∷ []
