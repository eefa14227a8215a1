-- ===== src/Logic/Turns.antt =====
-- logicServer/logicServer.cpp, MessageQueue::PopFrontMsg: the consumers' turns.
use mq_cplusplus.Base.{
  ℕ, zero, suc, ◌+◌, ◌^◌, ◌%◌, ◌≤◌, ◌<◌, ◌≡◌, refl, sym, ap, ap₂, ◌∙◌, ◌⊎◌, inl, inr, true, false,
  none, some, List, [], ◌∷◌, ◌++◌, arith, leb, if◌then◌else◌, length, get_or, drop, drop_all,
}
use mq_cplusplus.Message.Server.{Stored, minus_one}
use mq_cplusplus.Logic.Queue.{
  MessageQueue, next_push_index, address, pop, pop_front_msg, is_empty_list,
}
use mq_cplusplus.Logic.Delivery.{waiting}

-- The clients that the next `n` pushed messages go to.
unfoldable pub targets : ℕ → MessageQueue → List ℕ
targets zero q = []
targets (suc n) q = elim (pop_front_msg true q) [
  | none ↦ []
  | some (m, q') ↦ let rest = targets n q' in m.index ∷ rest
]

-- A message leaves: the consumers and whose turn it is stay.
abbrev Left : MessageQueue → MessageQueue → Type 0
Left q q' =
    (length (waiting q) ≡ suc (length (waiting q')))
    × (q'.consumers ≡ q.consumers)
    × (q'.push_index ≡ q.push_index)

pop-Left :
    (q : MessageQueue) (pri msgs : List Stored)
    → 0 < length (pri ++ msgs)
    → (m : Stored) × (q' : MessageQueue) × (pop (record q { pri_queue = pri; messages = msgs })
        ≡ some (m, q'))
      × Left (record q { pri_queue = pri; messages = msgs }) q'
unfolding pop
pop-Left q [] [] h = absurd (omega arith)
pop-Left q [] (m ∷ ms) h = (m, record q { pri_queue = []; messages = ms }, refl, (refl, refl, refl))
pop-Left q (m ∷ ms) msgs h =
    (m, record q { pri_queue = ms; messages = msgs }, refl, (refl, refl, refl))

drop-get_or : (xs : List ℕ) (j : ℕ) → j < length xs → get_or xs j 0 ∷ drop (suc j) xs ≡ drop j xs
drop-get_or [] j h = absurd (omega arith)
drop-get_or (x ∷ xs) zero h = refl
drop-get_or (x ∷ xs) (suc j) h = drop-get_or xs j (omega arith)

same-turn :
    (q q' : MessageQueue)
    → q'.consumers ≡ q.consumers
    → q'.push_index ≡ q.push_index
    → next_push_index q' ≡ next_push_index q
unfolding next_push_index
same-turn q q' cs i =
    ap₂ (λ c p. let t = (p + 1) % 2 ^ 32 in if leb (length c) t then 0 else t) cs i

not_empty : (xs : List ℕ) → 0 < length xs → is_empty_list xs ≡ false
unfolding is_empty_list
not_empty [] h = absurd (omega arith)
not_empty (x ∷ xs) h = refl

-- With messages and consumers, the consumer whose turn it is gets the first message.
pub push-next :
    (q : MessageQueue) (j : ℕ)
    → next_push_index q ≡ j
    → 0 < length q.consumers
    → 0 < length (waiting q)
    → (m : Stored) × (q' : MessageQueue) × (pop_front_msg true q ≡ some (m, q'))
      × (m.index ≡ get_or q.consumers j 0)
      × (q'.push_index ≡ j)
      × (q'.consumers ≡ q.consumers)
      × (length (waiting q) ≡ suc (length (waiting q')))
unfolding pop_front_msg address is_empty_list
push-next q j turn hc hw =
    let (m, q', e, left) = pop-Left q q.pri_queue q.messages hw in
    let turn' : next_push_index q' ≡ j = same-turn q q' left.1 left.2 ∙ turn in
    (
      (address (m, q')).0,
      (address (m, q')).1,
      rw (not_empty q.consumers hc, e) refl,
      ap₂ (λ cs i. get_or cs i 0) left.1 turn',
      turn',
      left.1,
      left.0,
    )

next-suc :
    (q : MessageQueue) (j : ℕ)
    → q.push_index ≡ j
    → suc j < length q.consumers
    → length q.consumers < 2 ^ 31
    → next_push_index q ≡ suc j
unfolding next_push_index
next-suc q j at h b = ground arith

next-first :
    (q : MessageQueue)
    → (q.push_index ≡ minus_one) ⊎ (suc q.push_index ≡ length q.consumers)
    → length q.consumers < 2 ^ 31
    → next_push_index q ≡ 0
unfolding next_push_index
next-first q (inl s) b = ground arith
next-first q (inr s) b = ground arith

-- From the turn of consumer `j` on, the messages go to the consumers from `j` to the last.
targets-drop :
    (k j : ℕ) (q : MessageQueue)
    → k + j ≡ length q.consumers
    → length q.consumers < 2 ^ 31
    → (0 < k → next_push_index q ≡ j)
    → k ≤ length (waiting q)
    → targets k q ≡ drop j q.consumers
unfolding targets
targets-drop zero j q n b turn w = sym (drop_all q.consumers j (omega arith))
targets-drop (suc k) j q n b turn w =
    let (m, q', e, index, at, cs, left) =
      push-next q j (turn (omega arith)) (omega arith) (omega arith) in
    rw (targets, e)
      (ap₂ ◌∷◌ index (
          targets-drop k (suc j) q' (omega (arith, ap length cs)) (omega (arith, ap length cs))
            (λ h. next-suc q' j at (omega (arith, ap length cs)) (omega (arith, ap length cs)))
            (omega arith)
          ∙ ap (drop (suc j)) cs)
        ∙ drop-get_or q.consumers j (omega arith))

-- With consumers fewer than 2^31 and with as many messages waiting, a queue that has not pushed yet,
-- or has pushed last to its last consumer, sends the next messages to each consumer once, in the
-- order in which they subscribed.
pub targets-consumers :
    (q : MessageQueue)
    → (q.push_index ≡ minus_one) ⊎ (suc q.push_index ≡ length q.consumers)
    → length q.consumers < 2 ^ 31
    → length q.consumers ≤ length (waiting q)
    → targets (length q.consumers) q ≡ q.consumers
targets-consumers q start b w =
    targets-drop (length q.consumers) 0 q (omega arith) b (λ h. next-first q start b) w
