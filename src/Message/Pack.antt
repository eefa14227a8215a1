-- ===== src/Message/Pack.antt =====
-- message/message.cpp, GetMessagePack of each class that a client sends. `Buffer` is `ipBuf` and
-- `*iopBuffLen`. `unsigned short iMsgLen` wraps at 2^16.
use mq_cplusplus.Base.{
  ℕ, ◌+◌, ◌%◌, ◌^◌, Bool, true, false, ◌||◌, List, [], ◌∷◌, ltb, if◌then◌else◌, length, Bytes,
}
use mq_cplusplus.Message.Wire.{Field, short, int, byte, bool, text, write_fields}
use mq_cplusplus.Message.Request.{
  Request, create_exchange, create_queue, create_binding, publish, recv, subscribe, delete_exchange,
  delete_queue, cancel_subscribe, client_ack, client_exit, cmd_create_exchange, cmd_create_queue,
  cmd_create_binding, cmd_create_publish, cmd_create_recv, cmd_create_subcribe, cmd_delete_exchange,
  cmd_delete_queue, cmd_cancel_subcribe, cmd_client_ack_message, cmd_client_exit, max_name_length,
  head_len,
}

pub data PackStatus : Type 0 where
  success name_too_long buf_too_small : PackStatus

pub record Buffer : Type 0 where
  pub bytes : Bytes
  pub len : ℕ

abbrev pub Packed : Type 0
Packed = PackStatus × Buffer

-- `unsigned short iMsgLen`
abbrev pub msg_len : ℕ → ℕ
msg_len n = n % 2 ^ 16

-- The length check and the writes; `*iopBuffLen = iMsgLen` where the class does that.
unfoldable pub write_pack : ℕ → Bool → ℕ → ℕ → List Field → Buffer → Packed
write_pack size sets_len index cmd fields b =
    if ltb b.len (msg_len size) then (buf_too_small, b) else (
      success,
      record {
        bytes = write_fields (short (msg_len size) ∷ int index ∷ short cmd ∷ fields) b.bytes;
        len = if sets_len then msg_len size else b.len;
      },
    )

-- The checks of the names, in front of everything else.
unfoldable pub any_too_long : List Bytes → Bool
any_too_long [] = false
any_too_long (s ∷ names) = ltb max_name_length (length s) || any_too_long names

unfoldable pub check_names : List Bytes → Buffer → Packed → Packed
check_names names b packed = if any_too_long names then (name_too_long, b) else packed

module _ (index cmd : ℕ) (b : Buffer) where
  unfoldable pub create_exchange_pack : Bytes → ℕ → Bool → Bool → Packed
  create_exchange_pack name exchange_type durable auto_del = check_names (name ∷ []) b (
      write_pack (head_len + max_name_length + 2 + 1 + 1) true index cmd
        (text name max_name_length ∷ short exchange_type ∷ bool durable ∷ bool auto_del ∷ []) b)

  unfoldable pub create_queue_pack : Bytes → ℕ → Bool → Bool → Packed
  create_queue_pack name priority durable auto_del = check_names (name ∷ []) b (
      write_pack (head_len + max_name_length + 2 + 1 + 1) true index cmd
        (text name max_name_length ∷ short priority ∷ bool durable ∷ bool auto_del ∷ []) b)

  unfoldable pub create_binding_pack : Bytes → Bytes → Bytes → Packed
  create_binding_pack exchange queue key = check_names (exchange ∷ queue ∷ key ∷ []) b (
      write_pack (head_len + max_name_length + max_name_length + max_name_length) true index cmd
        (text exchange max_name_length ∷ text queue max_name_length ∷ text key max_name_length ∷ [])
        b)

  unfoldable pub publish_pack : Bytes → Bytes → Bytes → ℕ → Bool → ℕ → ℕ → Packed
  publish_pack exchange key body priority durable msg_seq confirm_level =
      check_names (exchange ∷ key ∷ []) b (
        write_pack (head_len + max_name_length + max_name_length + 2 + 1 + 4 + 1 + length body) true
          index cmd
          (text exchange max_name_length
            ∷ text key max_name_length
            ∷ short priority
            ∷ bool durable
            ∷ int msg_seq
            ∷ byte confirm_level
            ∷ text body (length body)
            ∷ [])
          b)

  -- CreateRecvMessage and CreateSubscribeMessage.
  unfoldable pub recv_pack : Bytes → ℕ → Packed
  recv_pack queue confirm_level = check_names (queue ∷ []) b (
      write_pack (head_len + max_name_length + 1) true index cmd
        (text queue max_name_length ∷ byte confirm_level ∷ []) b)

  unfoldable pub subscribe_pack : Bytes → ℕ → Packed
  subscribe_pack queue confirm_level = check_names (queue ∷ []) b (
      write_pack (head_len + max_name_length + 1) true index cmd
        (text queue max_name_length ∷ byte confirm_level ∷ []) b)

  unfoldable pub delete_exchange_pack : Bytes → Packed
  delete_exchange_pack name =
      check_names (name ∷ []) b
        (write_pack (head_len + max_name_length) true index cmd (text name max_name_length ∷ []) b)

  unfoldable pub delete_queue_pack : Bytes → Packed
  delete_queue_pack name =
      check_names (name ∷ []) b
        (write_pack (head_len + max_name_length) true index cmd (text name max_name_length ∷ []) b)

  -- This class leaves `*iopBuffLen` as it was.
  unfoldable pub cancel_subscribe_pack : Bytes → Packed
  cancel_subscribe_pack queue =
      check_names (queue ∷ []) b (
        write_pack (head_len + max_name_length) false index cmd (text queue max_name_length ∷ []) b)

  unfoldable pub client_ack_pack : ℕ → ℕ → Packed
  client_ack_pack confirm_level ack_seq =
      write_pack (head_len + 1 + 4) true index cmd (byte confirm_level ∷ int ack_seq ∷ []) b

  -- So does this one.
  unfoldable pub client_exit_pack : Packed
  client_exit_pack = write_pack head_len false index cmd [] b

-- The virtual call of GetMessagePack.
unfoldable pub get_message_pack : ℕ → Buffer → Request → Packed
get_message_pack index b (create_exchange name t d a) =
    create_exchange_pack index cmd_create_exchange b name t d a
get_message_pack index b (create_queue name p d a) =
    create_queue_pack index cmd_create_queue b name p d a
get_message_pack index b (create_binding e q k) =
    create_binding_pack index cmd_create_binding b e q k
get_message_pack index b (publish e k body p d s c) =
    publish_pack index cmd_create_publish b e k body p d s c
get_message_pack index b (recv q c) = recv_pack index cmd_create_recv b q c
get_message_pack index b (subscribe q c) = subscribe_pack index cmd_create_subcribe b q c
get_message_pack index b (delete_exchange n) = delete_exchange_pack index cmd_delete_exchange b n
get_message_pack index b (delete_queue n) = delete_queue_pack index cmd_delete_queue b n
get_message_pack index b (cancel_subscribe q) = cancel_subscribe_pack index cmd_cancel_subcribe b q
get_message_pack index b (client_ack c s) = client_ack_pack index cmd_client_ack_message b c s
get_message_pack index b client_exit = client_exit_pack index cmd_client_exit b
