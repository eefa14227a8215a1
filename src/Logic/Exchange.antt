-- ===== src/Logic/Exchange.antt =====
-- logicServer/logicServer.cpp, Exchange. A queue's pointer is a number.
use mq_cplusplus.Base.{
  ℕ, ◌+◌, ◌*◌, Bool, true, false, none, some, List, [], ◌∷◌, ◌++◌, ltb, ◌==◌, if◌then◌else◌, length,
  Bytes, name_eq, find, insert,
}
use mq_cplusplus.Message.Wire.{short, text, write_fields, Field}
use mq_cplusplus.Message.Request.{max_name_length, cmd_create_binding}
use mq_cplusplus.Message.Pack.{Buffer, msg_len}
use mq_cplusplus.Logic.Queue.{is_empty_list}
use mq_cplusplus.Logic.Topic.{is_fit}

abbrev pub type_fanout : ℕ
type_fanout = 1

abbrev pub type_direct : ℕ
type_direct = 2

abbrev pub type_topic : ℕ
type_topic = 3

-- m_mBindingQueues
abbrev pub Bindings : Type 0
Bindings = List (Bytes × List ℕ)

pub record Exchange : Type 0 where
  pub name : Bytes
  pub exchange_type : ℕ
  pub durable : Bool
  pub auto_del : Bool
  pub bindings : Bindings

abbrev pub new_exchange : Bytes → ℕ → Bool → Bool → Exchange
new_exchange name exchange_type durable auto_del = record {
  name = name;
  exchange_type = exchange_type;
  durable = durable;
  auto_del = auto_del;
  bindings = [];
}

-- With a key that is bound, the queue goes into a copy of the key's list, and the copy is dropped.
unfoldable pub create_binding : Bytes → ℕ → Exchange → Exchange
create_binding key queue e = elim (find name_eq key e.bindings) [
  | none ↦ record e { bindings = insert name_eq key (queue ∷ []) e.bindings }
  | some queues ↦ e
]

pub data FindStatus : Type 0 where
  found binding_not_exist : FindStatus

unfoldable pub all_queues : Bindings → List ℕ
all_queues [] = []
all_queues ((key, queues) ∷ bs) = queues ++ all_queues bs

unfoldable pub fit_queues : Bytes → Bindings → List ℕ
fit_queues routing_key [] = []
fit_queues routing_key ((key, queues) ∷ bs) =
    let rest = fit_queues routing_key bs in if is_fit routing_key key then queues ++ rest else rest

-- The status and `oMsgQueueList`, which is empty at the call.
unfoldable pub find_binding_queue : Bytes → Exchange → FindStatus × List ℕ
find_binding_queue routing_key e =
    if e.exchange_type == type_direct
    then elim (find name_eq routing_key e.bindings) [
      | none ↦ (binding_not_exist, [])
      | some queues ↦ (found, queues)
    ]
    else if e.exchange_type == type_fanout
    then if is_empty_list e.bindings
      then (binding_not_exist, [])
      else (found, all_queues e.bindings)
    else if e.exchange_type == type_topic
    then if is_empty_list e.bindings
      then (binding_not_exist, [])
      else (found, fit_queues routing_key e.bindings)
    else (found, [])

unfoldable pub without : ℕ → List ℕ → List ℕ
without queue [] = []
without queue (x ∷ xs) = let rest = without queue xs in if x == queue then rest else x ∷ rest

-- The queue is taken out of a copy of each list. A key is erased if its copy is empty then; a list
-- that keeps a queue stays as it was.
unfoldable pub delete_queue_from : ℕ → Bindings → Bindings
delete_queue_from queue [] = []
delete_queue_from queue ((key, queues) ∷ bs) =
    let rest = delete_queue_from queue bs in
    if is_empty_list (without queue queues) then rest else (key, queues) ∷ rest

unfoldable pub delete_binding_queue : ℕ → Exchange → Exchange
delete_binding_queue queue e = record e { bindings = delete_queue_from queue e.bindings }

pub bindings_len : Bindings → ℕ
bindings_len [] = 0
bindings_len ((key, queues) ∷ bs) =
    max_name_length + 2 + length queues * max_name_length + bindings_len bs

-- `name_of` reads the name through the queue's pointer.
module _ (name_of : ℕ → Bytes) where
  pub queue_fields : List ℕ → List Field
  queue_fields [] = []
  queue_fields (q ∷ qs) = text (name_of q) max_name_length ∷ queue_fields qs

  pub binding_fields : Bindings → List Field
  binding_fields [] = []
  binding_fields ((key, queues) ∷ bs) =
      text key max_name_length ∷ short (length queues) ∷ queue_fields queues ++ binding_fields bs

  -- SerializeBindingToString; `false` is ERROR.
  pub serialize_binding : Exchange → Buffer → Bool × Buffer
  serialize_binding e b =
      let size : ℕ = msg_len (2 + 2 + max_name_length + 2 + bindings_len e.bindings) in
      if ltb b.len size then (false, b) else (
        true,
        record {
          bytes =
              write_fields
                (short size
                  ∷ short cmd_create_binding
                  ∷ text e.name max_name_length
                  ∷ short (length e.bindings)
                  ∷ binding_fields e.bindings)
                b.bytes;
          len = size;
        },
      )
