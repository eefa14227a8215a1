-- ===== src/Logic/Delivery.antt =====
-- logicServer/logicServer.cpp, MessageQueue: in which order messages leave a queue, and to whom.
use mq_cplusplus.Base.{
  ℕ, ◌≤◌, ◌<◌, ◌≡◌, refl, ◌⊎◌, inl, inr, Bool, true, false, ◌&&◌, none, some, List, [], ◌∷◌, ◌++◌,
  arith, ltb, if◌then◌else◌, All, Bool-cases, and-true, ltb→lt, ltb→le,
}
use mq_cplusplus.Message.Server.{Stored}
use mq_cplusplus.Logic.Queue.{
  MessageQueue, push, pop, address, pop_front_msg, add_message, add_message_front, is_positive16,
  is_empty_list,
}

-- From the greatest priority down.
abbrev pub IsSorted : List Stored → Type 0
IsSorted [] = Unit
IsSorted (m ∷ ms) = All (λ x. x.priority ≤ m.priority) ms × IsSorted ms

-- The priority messages are in order, and their priorities are those of a queue with priorities.
abbrev pub IsOrdered : MessageQueue → Type 0
IsOrdered q =
    IsSorted q.pri_queue × All (λ m. (0 < m.priority) × (m.priority ≤ q.priority)) q.pri_queue

push-All :
    (P : Stored → Type 0) (m : Stored) (xs : List Stored) → P m → All P xs → All P (push m xs)
unfolding push
push-All P m [] h hs = (h, tt)
push-All P m (x ∷ xs) h hs = elim (Bool-cases (ltb x.priority m.priority)) [
  | inl e ↦ rw e (h, hs)
  | inr e ↦ rw e (hs.0, push-All P m xs h hs.1)
]

below :
    (m : Stored) (k : ℕ) (xs : List Stored)
    → k ≤ m.priority
    → All (λ x. x.priority ≤ k) xs
    → All (λ x. x.priority ≤ m.priority) xs
below m k [] h hs = tt
below m k (x ∷ xs) h hs = (omega arith, below m k xs h hs.1)

push-IsSorted : (m : Stored) (xs : List Stored) → IsSorted xs → IsSorted (push m xs)
unfolding push
push-IsSorted m [] h = (tt, tt)
push-IsSorted m (x ∷ xs) h = elim (Bool-cases (ltb x.priority m.priority)) [
  | inl e ↦ rw e (
    (
      omega (arith, ltb→lt x.priority m.priority e),
      below m x.priority xs (omega (arith, ltb→lt x.priority m.priority e)) h.0,
    ),
    h,
  )
  | inr e ↦
      rw e (push-All (λ y. y.priority ≤ x.priority) m xs (ltb→le _ _ e) h.0, push-IsSorted m xs h.1)
]

-- The messages that wait, in the order in which they leave.
abbrev pub waiting : MessageQueue → List Stored
waiting q = q.pri_queue ++ q.messages

positive16→lt : (v : ℕ) → is_positive16 v ≡ true → 0 < v
positive16→lt v h = ground (arith, ltb→lt 0 v)

add_pri-IsOrdered :
    (q : MessageQueue) (m : Stored)
    → 0 < q.priority
    → 0 < m.priority
    → IsOrdered q
    → IsOrdered (record q {
      pri_queue =
          push
            (if ltb q.priority m.priority then record m { priority = q.priority } else m)
            q.pri_queue;
    })
add_pri-IsOrdered q m hq hm (s, a) = elim (Bool-cases (ltb q.priority m.priority)) [
  | inl e ↦ rw e (push-IsSorted _ q.pri_queue s, push-All _ _ q.pri_queue (hq, omega arith) a)
  | inr e ↦ rw e (push-IsSorted _ q.pri_queue s, push-All _ _ q.pri_queue (hm, ltb→le _ _ e) a)
]

-- Both ways to put a message in keep the priority messages in order, with priorities between 1 and
-- the queue's.
pub add_message-IsOrdered :
    (q : MessageQueue) (m : Stored)
    → IsOrdered q
    → IsOrdered (add_message q m) × IsOrdered (add_message_front q m)
unfolding add_message add_message_front
add_message-IsOrdered q m h =
    elim (Bool-cases (is_positive16 q.priority && is_positive16 m.priority)) [
      | inl e ↦ rw e (
        add_pri-IsOrdered q m (positive16→lt q.priority (and-true _ _ e).0)
            (positive16→lt m.priority (and-true _ _ e).1) h,
        add_pri-IsOrdered q m (positive16→lt q.priority (and-true _ _ e).0)
            (positive16→lt m.priority (and-true _ _ e).1) h,
      )
      | inr e ↦ rw e (h, h)
    ]

abbrev Popped : MessageQueue → Stored → MessageQueue → Type 0
Popped q first q' =
    (waiting q ≡ first ∷ waiting q')
    × All (λ x. x.priority ≤ first.priority) q'.pri_queue
    × IsOrdered q'

pop-parts :
    (q : MessageQueue) (pri msgs : List Stored)
    → IsOrdered (record q { pri_queue = pri; messages = msgs })
    → ((pop (record q { pri_queue = pri; messages = msgs }) ≡ none) × ((pri ++ msgs) ≡ []))
      ⊎ ((m : Stored) × (q' : MessageQueue) × (pop (record q { pri_queue = pri; messages = msgs })
            ≡ some (m, q'))
          × Popped (record q { pri_queue = pri; messages = msgs }) m q')
unfolding pop
pop-parts q [] [] h = inl (refl, refl)
pop-parts q [] (m ∷ ms) h = inr (m, record q { pri_queue = []; messages = ms }, refl, (refl, tt, h))
pop-parts q (m ∷ ms) msgs (s, a) =
    inr (m, record q { pri_queue = ms; messages = msgs }, refl, (refl, s.0, (s.1, a.1)))

is_empty_list-cases {ℓ} :
    {A : Type ℓ} (xs : List A)
    → ((is_empty_list xs ≡ true) × (xs ≡ [])) ⊎ (is_empty_list xs ≡ false)
unfolding is_empty_list
is_empty_list-cases [] = inl (refl, refl)
is_empty_list-cases (x ∷ xs) = inr refl

address-Popped :
    (q q' : MessageQueue) (m : Stored)
    → Popped q m q'
    → Popped q m (address (m, q')).1
      × ((address (m, q')).0 ≡ record m { index = (address (m, q')).0.index })
unfolding address
address-Popped q q' m h = (h, refl)

-- What `pop_front_msg` gives: nothing, and then nothing waits or the message is to be pushed and
-- nobody has subscribed; or the first message that waits, up to the client it is for, which has
-- the greatest priority of those that stay in the priority queue, and the queue without it.
pub pop_front_msg-waiting :
    (to_push : Bool) (q : MessageQueue)
    → IsOrdered q
    → ((pop_front_msg to_push q ≡ none)
        × ((waiting q ≡ []) ⊎ ((to_push ≡ true) × (q.consumers ≡ []))))
      ⊎ ((m first : Stored) × (q' : MessageQueue) × (pop_front_msg to_push q ≡ some (m, q'))
          × (m ≡ record first { index = m.index })
          × Popped q first q')
unfolding pop_front_msg
pop_front_msg-waiting false q h = elim (pop-parts q q.pri_queue q.messages h) [
  | inl (e, w) ↦ inl (rw e refl, inl w)
  | inr (m, q', e, p) ↦ inr (m, m, q', rw e refl, refl, p)
]
pop_front_msg-waiting true q h = elim (is_empty_list-cases q.consumers) [
  | inl (e, c) ↦ inl (rw e refl, inr (refl, c))
  | inr e ↦ elim (pop-parts q q.pri_queue q.messages h) [
    | inl (e', w) ↦ inl (rw (e, e') refl, inl w)
    | inr (m, q', e', p) ↦
        let (popped, same) = address-Popped q q' m p in
        inr ((address (m, q')).0, m, (address (m, q')).1, rw (e, e') refl, same, popped)
  ]
]
