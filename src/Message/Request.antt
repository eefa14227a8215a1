-- ===== src/Message/Request.antt =====
-- The requests of a client, one constructor for each class of message/message.h that a client
-- sends, and the numbers of common_def/comdef.h that tell them apart. Numbers are bit patterns.
use mq_cplusplus.Base.{ℕ, ◌*◌, Bool, Bytes}

abbrev pub max_name_length : ℕ
max_name_length = 32

-- sizeof(ClientPackageHead), packed
abbrev pub head_len : ℕ
head_len = 8

abbrev pub max_client_package : ℕ
max_client_package = 1024 * 11

pub data Request : Type 0 where
  create_exchange : (name : Bytes) (exchange_type : ℕ) (durable auto_del : Bool) → Request
  create_queue : (name : Bytes) (priority : ℕ) (durable auto_del : Bool) → Request
  create_binding : (exchange queue key : Bytes) → Request
  publish :
      (exchange key body : Bytes) (priority : ℕ) (durable : Bool) (msg_seq confirm_level : ℕ)
      → Request
  recv : (queue : Bytes) (confirm_level : ℕ) → Request
  subscribe : (queue : Bytes) (confirm_level : ℕ) → Request
  delete_exchange : (name : Bytes) → Request
  delete_queue : (name : Bytes) → Request
  cancel_subscribe : (queue : Bytes) → Request
  client_ack : (confirm_level ack_seq : ℕ) → Request
  client_exit : Request

abbrev pub cmd_create_exchange : ℕ
cmd_create_exchange = 1

abbrev pub cmd_create_queue : ℕ
cmd_create_queue = 2

abbrev pub cmd_create_binding : ℕ
cmd_create_binding = 3

abbrev pub cmd_create_publish : ℕ
cmd_create_publish = 4

abbrev pub cmd_create_recv : ℕ
cmd_create_recv = 5

abbrev pub cmd_create_subcribe : ℕ
cmd_create_subcribe = 6

abbrev pub cmd_delete_exchange : ℕ
cmd_delete_exchange = 7

abbrev pub cmd_delete_queue : ℕ
cmd_delete_queue = 8

abbrev pub cmd_cancel_subcribe : ℕ
cmd_cancel_subcribe = 9

abbrev pub cmd_client_pull_message : ℕ
cmd_client_pull_message = 10

abbrev pub cmd_server_push_message : ℕ
cmd_server_push_message = 11

abbrev pub cmd_server_reply_message : ℕ
cmd_server_reply_message = 12

abbrev pub cmd_client_ack_message : ℕ
cmd_client_ack_message = 13

abbrev pub cmd_server_ack_message : ℕ
cmd_server_ack_message = 14

abbrev pub cmd_client_exit : ℕ
cmd_client_exit = 15

-- The `m_iCmdId` of each class.
unfoldable pub cmd_id : Request → ℕ
cmd_id (create_exchange _ _ _ _) = cmd_create_exchange
cmd_id (create_queue _ _ _ _) = cmd_create_queue
cmd_id (create_binding _ _ _) = cmd_create_binding
cmd_id (publish _ _ _ _ _ _ _) = cmd_create_publish
cmd_id (recv _ _) = cmd_create_recv
cmd_id (subscribe _ _) = cmd_create_subcribe
cmd_id (delete_exchange _) = cmd_delete_exchange
cmd_id (delete_queue _) = cmd_delete_queue
cmd_id (cancel_subscribe _) = cmd_cancel_subcribe
cmd_id (client_ack _ _) = cmd_client_ack_message
cmd_id client_exit = cmd_client_exit
