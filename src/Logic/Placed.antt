-- ===== src/Logic/Placed.antt =====
-- logicServer/logicServer.cpp, AddMessage and AddMessageFront: where a message stands in a queue.
use mq_cplusplus.Base.{
  ℕ, ◌≤◌, ◌<◌, ◌^◌, ◌≡◌, refl, sym, ap, subst, ◌⊎◌, inl, inr, List, [], ◌∷◌, ◌++◌, min, arith, ltb,
  All, Bool-cases, and-true, ltb→lt, ltb→le, true, false, ◌&&◌, if◌then◌else◌,
}
use mq_cplusplus.Message.Server.{Stored}
use mq_cplusplus.Logic.Queue.{MessageQueue, push, add_message, add_message_front, is_positive16}

-- A positive `short`.
abbrev pub IsPositive : ℕ → Type 0
IsPositive v = (0 < v) × (v < 2 ^ 15)

-- The first of the messages, if there is one, has a smaller priority.
abbrev pub Yields : Stored → List Stored → Type 0
Yields m [] = Unit
Yields m (x ∷ xs) = x.priority < m.priority

-- A message is put behind the first ones, which have at least its priority.
abbrev pub Inserted : Stored → List Stored → List Stored → Type 0
Inserted m xs ys =
    (before after : List Stored) × (xs ≡ before ++ after)
    × (ys ≡ before ++ m ∷ after)
    × All (λ x. m.priority ≤ x.priority) before
    × Yields m after

-- The queue gets a message: among the priority messages, with at most the queue's priority, if its priority
-- and the queue's are positive; else among the others, where `put` says. Of the rest of the queue only the
-- durable index may change.
abbrev pub Placed :
    (List Stored → Stored → List Stored) → Stored → MessageQueue → MessageQueue → Type 0
Placed put m q q' =
    (record q' { pri_queue = q.pri_queue; messages = q.messages; durable_index = q.durable_index }
      ≡ q)
    × ((IsPositive q.priority
          × IsPositive m.priority
          × Inserted (record m { priority = min m.priority q.priority }) q.pri_queue q'.pri_queue
          × (q'.messages ≡ q.messages))
        ⊎ (((IsPositive q.priority × IsPositive m.priority) → ⊥)
            × (q'.pri_queue ≡ q.pri_queue)
            × (q'.messages ≡ put q.messages m)))

abbrev pub behind : List Stored → Stored → List Stored
behind ms m = ms ++ m ∷ []

abbrev pub in_front : List Stored → Stored → List Stored
in_front ms m = m ∷ ms

push-Inserted : (m : Stored) (xs : List Stored) → Inserted m xs (push m xs)
unfolding push
push-Inserted m [] = ([], [], refl, refl, tt, tt)
push-Inserted m (x ∷ xs) = elim (Bool-cases (ltb x.priority m.priority)) [
  | inl e ↦ ([], x ∷ xs, refl, rw e refl, tt, ltb→lt _ _ e)
  | inr e ↦
      let (before, after, split, same, high, low) = push-Inserted m xs in
      (x ∷ before, after, ap (◌∷◌ x) split, rw e (ap (◌∷◌ x) same), (ltb→le _ _ e, high), low)
]

capped_lem :
    (m : Stored) (p : ℕ)
    → (if ltb p m.priority then record m { priority = p } else m)
      ≡ record m { priority = min m.priority p }
capped_lem m p = elim (Bool-cases (ltb p m.priority)) [
  | inl e ↦ rw e (ap (λ n. record m { priority = n }) (omega (arith, ltb→lt _ _ e)))
  | inr e ↦ rw e (ap (λ n. record m { priority = n }) (omega (arith, ltb→le _ _ e)))
]

is_positive16_lem : (v : ℕ) → is_positive16 v ≡ true → IsPositive v
is_positive16_lem v h = (ground (arith, h), ground (arith, h))

not_both : (v w : ℕ) → is_positive16 v && is_positive16 w ≡ false → IsPositive v × IsPositive w → ⊥
not_both v w e (h, k) = ground (arith, e, h, k)

pub add_message-Placed :
    (n : ℕ) (q : MessageQueue) (m : Stored)
    → Placed behind m q (add_message (record q { durable_index = n }) m)
      × Placed in_front m q (add_message_front (record q { durable_index = n }) m)
unfolding add_message add_message_front
add_message-Placed n q m =
    elim (Bool-cases (is_positive16 q.priority && is_positive16 m.priority)) [
      | inl e ↦
          let M = record m { priority = min m.priority q.priority } in
          let inserted =
            subst (λ x. Inserted M q.pri_queue (push x q.pri_queue)) (sym (capped_lem m q.priority))
              (push-Inserted M q.pri_queue) in
          let own = is_positive16_lem q.priority (and-true _ _ e).0 in
          let its = is_positive16_lem m.priority (and-true _ _ e).1 in
          rw e ((refl, inl (own, its, inserted, refl)), (refl, inl (own, its, inserted, refl)))
      | inr e ↦ rw e (
        (refl, inr (not_both q.priority m.priority e, refl, refl)),
        (refl, inr (not_both q.priority m.priority e, refl, refl)),
      )
    ]
