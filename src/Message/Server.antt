-- ===== src/Message/Server.antt =====
-- message/message.cpp, the classes that the logic server sends: SeverStoreMessage, ActReplyMessage
-- and ServerAckMessage.
use mq_cplusplus.Base.{
  ℕ, ◌+◌, ◌-◌, ◌^◌, Bool, true, false, [], ◌∷◌, ltb, if◌then◌else◌, length, Bytes,
}
use mq_cplusplus.Message.Wire.{short, int, byte, bool, text, write_fields}
use mq_cplusplus.Message.Request.{
  max_name_length, head_len, cmd_create_publish, cmd_client_pull_message, cmd_server_reply_message,
  cmd_server_ack_message,
}
use mq_cplusplus.Message.Pack.{Buffer, Packed, msg_len, write_pack}

-- The bit pattern of -1 in an `int`.
abbrev pub minus_one : ℕ
minus_one = 2 ^ 32 - 1

-- SeverStoreMessage. `save_time` is in microseconds.
pub record Stored : Type 0 where
  pub index : ℕ
  pub cmd : ℕ
  pub priority : ℕ
  pub durable : Bool
  pub confirm_level : ℕ
  pub msg_seq : ℕ
  pub durable_index : ℕ
  pub body : Bytes
  pub queue_name : Bytes
  pub save_time : ℕ

abbrev pub new_stored : Bytes → ℕ → Bool → Stored
new_stored body priority durable = record {
  index = minus_one;
  cmd = cmd_client_pull_message;
  priority = priority;
  durable = durable;
  confirm_level = 0;
  msg_seq = minus_one;
  durable_index = minus_one;
  body = body;
  queue_name = [];
  save_time = 0;
}

unfoldable pub stored_pack : Stored → Buffer → Packed
stored_pack m b =
    write_pack (head_len + 1 + 4 + length m.body) true m.index m.cmd
      (byte m.confirm_level ∷ int m.msg_seq ∷ text m.body (length m.body) ∷ []) b

-- SerializeDurableToString; `false` is ERROR.
pub serialize_durable : Stored → Buffer → Bool × Buffer
serialize_durable m b =
    let size : ℕ = msg_len (2 + 2 + max_name_length + 4 + 2 + length m.body) in
    if ltb b.len size then (false, b) else (
      true,
      record {
        bytes =
            write_fields
              (short size
                ∷ short cmd_create_publish
                ∷ text m.queue_name max_name_length
                ∷ int m.durable_index
                ∷ short m.priority
                ∷ text m.body (length m.body)
                ∷ [])
              b.bytes;
        len = size;
      },
    )

-- ActReplyMessage: one byte more than is written, which ends the body where the buffer was cleared.
unfoldable pub reply_pack : ℕ → Bool → Bytes → Buffer → Packed
reply_pack index succeed body b =
    write_pack (head_len + 1 + length body + 1) true index cmd_server_reply_message
      (bool succeed ∷ text body (length body) ∷ []) b

-- ServerAckMessage
unfoldable pub server_ack_pack : ℕ → ℕ → Buffer → Packed
server_ack_pack index ack_seq b =
    write_pack (head_len + 4) true index cmd_server_ack_message (int ack_seq ∷ []) b
