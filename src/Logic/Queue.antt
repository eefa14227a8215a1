-- ===== src/Logic/Queue.antt =====
-- logicServer/logicServer.cpp, MessageQueue. `m_msgPriQueue` is a list from the greatest priority
-- down; the C++ standard leaves open in which order messages of one priority come out of a
-- std::priority_queue, here it is the order in which they went in. Numbers are bit patterns.
use mq_cplusplus.Base.{
  ℕ, ◌+◌, ◌*◌, ◌^◌, ◌%◌, Bool, true, false, not, ◌&&◌, ◌||◌, Option, none, some, List, [], ◌∷◌,
  ◌++◌, ltb, leb, ◌==◌, if◌then◌else◌, length, get_or, Bytes,
}
use mq_cplusplus.Message.Wire.{short, int, byte, text, write_fields, Field}
use mq_cplusplus.Message.Request.{max_name_length, cmd_create_subcribe, cmd_cancel_subcribe}
use mq_cplusplus.Message.Pack.{Buffer, msg_len}
use mq_cplusplus.Message.Server.{Stored, minus_one}

pub record MessageQueue : Type 0 where
  pub name : Bytes
  pub priority : ℕ
  pub durable : Bool
  pub auto_del : Bool
  pub confirm_level : ℕ
  pub messages : List Stored
  pub pri_queue : List Stored
  pub consumers : List ℕ
  pub push_index : ℕ
  pub durable_index : ℕ

abbrev pub new_queue : Bytes → ℕ → Bool → Bool → MessageQueue
new_queue name priority durable auto_del = record {
  name = name;
  priority = priority;
  durable = durable;
  auto_del = auto_del;
  confirm_level = 0;
  messages = [];
  pri_queue = [];
  consumers = [];
  push_index = minus_one;
  durable_index = 0;
}

-- `x > 0` of a `short`
abbrev pub is_positive16 : ℕ → Bool
is_positive16 v = ltb 0 v && ltb v (2 ^ 15)

unfoldable pub is_empty_list {ℓ} : {A : Type ℓ} → List A → Bool
is_empty_list [] = true
is_empty_list (x ∷ xs) = false

abbrev pub is_subscribe : MessageQueue → Bool
is_subscribe q = not (is_empty_list q.consumers)

abbrev pub is_empty : MessageQueue → Bool
is_empty q = is_empty_list q.pri_queue && is_empty_list q.messages

-- m_msgPriQueue.push
unfoldable pub push : Stored → List Stored → List Stored
push m [] = m ∷ []
push m (x ∷ xs) = let rest = push m xs in if ltb x.priority m.priority then m ∷ x ∷ xs else x ∷ rest

-- `++m_iPushIndex`, back to 0 at the end of the consumers. Before the increment it is -1 or an index.
unfoldable pub next_push_index : MessageQueue → ℕ
next_push_index q =
    let i = (q.push_index + 1) % 2 ^ 32 in if leb (length q.consumers) i then 0 else i

-- The message in front: of the priority messages first.
unfoldable pub pop : MessageQueue → Option (Stored × MessageQueue)
pop q = elim q.pri_queue [
  | [] ↦ elim q.messages [ [] ↦ none | m ∷ ms ↦ some (m, record q { messages = ms }) ]
  | m ∷ ms ↦ some (m, record q { pri_queue = ms })
]

-- The choice of the consumer that a pushed message goes to.
unfoldable pub address : Stored × MessageQueue → Stored × MessageQueue
address (m, q) =
    let i = next_push_index q in
    (record m { index = get_or q.consumers i 0 }, record q { push_index = i })

unfoldable pub pop_front_msg : Bool → MessageQueue → Option (Stored × MessageQueue)
pop_front_msg to_push q =
    if to_push && is_empty_list q.consumers
    then none
    else elim (pop q) [ none ↦ none | some r ↦ some (if to_push then address r else r) ]

-- A message's priority is at most its queue's.
abbrev capped : MessageQueue → Stored → Stored
capped q m = if ltb q.priority m.priority then record m { priority = q.priority } else m

unfoldable pub add_message : MessageQueue → Stored → MessageQueue
add_message q m =
    if is_positive16 q.priority && is_positive16 m.priority
    then record q { pri_queue = push (capped q m) q.pri_queue }
    else record q { messages = q.messages ++ m ∷ [] }

unfoldable pub add_message_front : MessageQueue → Stored → MessageQueue
add_message_front q m =
    if is_positive16 q.priority && is_positive16 m.priority
    then record q { pri_queue = push (capped q m) q.pri_queue }
    else record q { messages = m ∷ q.messages }

unfoldable pub clear_message : MessageQueue → MessageQueue
clear_message q = record q { messages = []; pri_queue = [] }

-- Whether a vector holds a number.
unfoldable pub has : ℕ → List ℕ → Bool
has c [] = false
has c (x ∷ xs) = (x == c) || has c xs

unfoldable pub add_subscribe : ℕ → ℕ → MessageQueue → MessageQueue
add_subscribe client level q = record q {
  consumers = if has client q.consumers then q.consumers else q.consumers ++ client ∷ [];
  confirm_level = level;
}

-- `erase` in the loop of CancelSubscribe: the index moves on, past the consumer that took the place.
unfoldable pub erase_consumer : ℕ → List ℕ → List ℕ
erase_consumer c [] = []
erase_consumer c (x ∷ []) = if x == c then [] else x ∷ []
erase_consumer c (x ∷ y ∷ ys) =
    let past = erase_consumer c ys in
    let rest = erase_consumer c (y ∷ ys) in if x == c then y ∷ past else x ∷ rest

unfoldable pub cancel_subscribe : ℕ → MessageQueue → MessageQueue
cancel_subscribe client q =
    let left = erase_consumer client q.consumers in
    record q { consumers = left; confirm_level = if is_empty_list left then 0 else q.confirm_level }

pub consumer_fields : List ℕ → List Field
consumer_fields [] = []
consumer_fields (c ∷ cs) = int c ∷ consumer_fields cs

-- SerializeSubcribeToString; `false` is ERROR. The length is an `unsigned short`. `sizeof` of the
-- name's string is MAX_NAME_LENGTH: what the copy takes from behind the terminator stands as zeros.
pub serialize_subscribe : MessageQueue → Bool → Buffer → Bool × Buffer
serialize_subscribe q creates b =
    let size : ℕ = msg_len (2 + 2 + max_name_length + 1 + 2 + length q.consumers * 4) in
    if ltb b.len size then (false, b) else (
      true,
      record {
        bytes =
            write_fields
              (short size
                ∷ short (if creates then cmd_create_subcribe else cmd_cancel_subcribe)
                ∷ text q.name max_name_length
                ∷ byte q.confirm_level
                ∷ short (length q.consumers)
                ∷ consumer_fields q.consumers)
              b.bytes;
        len = size;
      },
    )
