-- ===== src/Logic/Tests.antt =====
-- Queues, keys and exchanges on concrete inputs, and the witnesses.
use mq_cplusplus.Base.{
  ℕ, ◌≤◌, ◌≡◌, ◌≢◌, refl, ◌↔◌, ◌⊎◌, inl, true, false, none, some, List, [], ◌∷◌, Bytes, All, arith,
  name_eq, find,
}
use mq_cplusplus.Message.Server.{Stored, new_stored}
use mq_cplusplus.Logic.Queue.{
  MessageQueue, new_queue, add_message, add_message_front, pop_front_msg, has,
}
use mq_cplusplus.Logic.Delivery.{IsOrdered, waiting, add_message-IsOrdered, pop_front_msg-waiting}
use mq_cplusplus.Logic.Turns.{targets, targets-consumers}
use mq_cplusplus.Logic.Topic.{split, split_from, word_then, is_fit}
use mq_cplusplus.Logic.TopicMatch.{backwards, matches, is_fit-matches, is_fit-plain}
use mq_cplusplus.Logic.Exchange.{Exchange, create_binding, delete_binding_queue, find_binding_queue}
use mq_cplusplus.Logic.Picked.{IsKeyed, IsSingle}
use mq_cplusplus.Logic.Routing.{Accepts, find_binding_queue-Accepts}
use mq_cplusplus.Logic.Keys.{create_binding-find}
use mq_cplusplus.Logic.Bindings.{delete_binding_queue-find}

abbrev urgent : Stored
urgent = new_stored (1 ∷ []) 9 false

abbrev plain : Stored
plain = new_stored (2 ∷ []) 0 false

-- Priorities up to 5, two consumers, one priority message and two others.
abbrev busy_queue : MessageQueue
busy_queue = record (new_queue (113 ∷ []) 5 false false) {
  messages = plain ∷ plain ∷ [];
  pri_queue = record urgent { priority = 5 } ∷ [];
  consumers = 7 ∷ 8 ∷ [];
  confirm_level = 1;
}

abbrev busy_queue-IsOrdered : IsOrdered busy_queue
busy_queue-IsOrdered = ((tt, tt), ((omega arith, omega arith), tt))

add_message-IsOrdered_example :
    IsOrdered (add_message busy_queue urgent) × IsOrdered (add_message_front busy_queue urgent)
add_message-IsOrdered_example = add_message-IsOrdered busy_queue urgent busy_queue-IsOrdered

pop_front_msg-waiting_example :
    ((pop_front_msg true busy_queue ≡ none)
      × ((waiting busy_queue ≡ []) ⊎ ((true ≡ true) × (busy_queue.consumers ≡ []))))
    ⊎ ((m first : Stored) × (q' : MessageQueue) × (pop_front_msg true busy_queue ≡ some (m, q'))
        × (m ≡ record first { index = m.index })
        × ((waiting busy_queue ≡ first ∷ waiting q')
            × All (λ x. x.priority ≤ first.priority) q'.pri_queue
            × IsOrdered q'))
pop_front_msg-waiting_example = pop_front_msg-waiting true busy_queue busy_queue-IsOrdered

targets-consumers_example : targets 2 busy_queue ≡ 7 ∷ 8 ∷ []
targets-consumers_example = targets-consumers busy_queue (inl refl) (omega arith) (omega arith)

-- "a.b"
abbrev a_b : Bytes
a_b = 97 ∷ 46 ∷ 98 ∷ []

is_fit-matches_example :
    is_fit a_b a_b ≡ matches (backwards [] (split a_b)) (backwards [] (split a_b))
is_fit-matches_example = is_fit-matches a_b a_b

-- The binding key "a.*" does not fit the routing key "a.b", the binding key "a.b" does.
is_fit-plain_example :
    (is_fit a_b (97 ∷ 46 ∷ 42 ∷ []) ≡ true) ↔ (split (97 ∷ 46 ∷ 42 ∷ []) ≡ split a_b)
unfolding split split_from word_then name_eq
is_fit-plain_example = is_fit-plain a_b (97 ∷ 46 ∷ 42 ∷ []) ((refl, refl), ((refl, refl), tt))

-- The keys "a" and "b", bound to the queues 1 and 2.
abbrev bound : Exchange
bound = record {
  name = 101 ∷ [];
  exchange_type = 2;
  durable = false;
  auto_del = true;
  bindings = (97 ∷ [], 1 ∷ []) ∷ (98 ∷ [], 2 ∷ []) ∷ [];
}

abbrev bound-IsKeyed : IsKeyed bound.bindings
unfolding find name_eq
bound-IsKeyed = (refl, (refl, tt))

abbrev bound-IsSingle : IsSingle bound.bindings
bound-IsSingle = ((1, refl), ((2, refl), tt))

find_binding_queue-Accepts_example : (has 2 (find_binding_queue (98 ∷ []) bound).1 ≡ true) ↔ (
    (key : Bytes) × (queues : List ℕ) × (find name_eq key bound.bindings ≡ some queues)
    × (has 2 queues ≡ true)
    × Accepts 2 (98 ∷ []) key)
find_binding_queue-Accepts_example = find_binding_queue-Accepts (98 ∷ []) bound 2 bound-IsKeyed

create_binding-find_example :
    (((find name_eq (97 ∷ []) bound.bindings ≡ none)
        × (find name_eq (97 ∷ []) (create_binding (97 ∷ []) 3 bound).bindings ≡ some (3 ∷ [])))
      ⊎ ((queues : List ℕ) × (find name_eq (97 ∷ []) bound.bindings ≡ some queues)
          × (find name_eq (97 ∷ []) (create_binding (97 ∷ []) 3 bound).bindings ≡ some queues)))
    × ((other : Bytes)
        → name_eq (97 ∷ []) other ≡ false
        → find name_eq other (create_binding (97 ∷ []) 3 bound).bindings
          ≡ find name_eq other bound.bindings)
create_binding-find_example = create_binding-find (97 ∷ []) 3 bound

delete_binding_queue-find_example :
    ((find name_eq (97 ∷ []) bound.bindings ≡ some (1 ∷ []))
      × (find name_eq (97 ∷ []) (delete_binding_queue 1 bound).bindings ≡ none))
    ⊎ ((find name_eq (97 ∷ []) bound.bindings ≢ some (1 ∷ []))
        × (find name_eq (97 ∷ []) (delete_binding_queue 1 bound).bindings
            ≡ find name_eq (97 ∷ []) bound.bindings))
delete_binding_queue-find_example =
    delete_binding_queue-find 1 (97 ∷ []) bound bound-IsKeyed bound-IsSingle
