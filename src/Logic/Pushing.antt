-- ===== src/Logic/Pushing.antt =====
-- logicServer/logicServer.cpp, PushMessage: the inner loop over the messages of a queue.
use mq_cplusplus.Base.{
  ℕ, zero, suc, ◌<◌, ◌≡◌, refl, ap, ◌∙◌, true, false, Option, none, inl, inr, some, List, [], ◌∷◌,
  ltb, ◌==◌, length, arith, Bool-cases, find, insert, find-insert_self, find-insert_ne, ==_iff,
  ◌>>=◌,
}
use mq_cplusplus.Message.Server.{Stored}
use mq_cplusplus.Logic.Queue.{MessageQueue, next_push_index, pop_front_msg}
use mq_cplusplus.Logic.Delivery.{waiting}
use mq_cplusplus.Logic.Turns.{push-next}
use mq_cplusplus.Logic.Server.{Channel, Server, queue_at, put_queue, send_persis, send_connect_wait}
use mq_cplusplus.Logic.Consume.{report_gone, push_one, push_queue}

module _ {S : Type 0} (channel : Channel S) where
  push_one-queues :
      (p : ℕ) (q : MessageQueue) (m : Stored) (s : Server S)
      → (push_one channel p q m s).queues ≡ insert ◌==◌ p q s.queues
  unfolding push_one report_gone put_queue send_persis send_connect_wait
  push_one-queues p q m s = elim (Bool-cases (ltb 0 q.confirm_level)) [
    | inl e ↦ rw e refl
    | inr e ↦ rw e (elim (Bool-cases m.durable) [ inl d ↦ rw d refl | inr d ↦ rw d refl ])
  ]

  push_one-queue_at :
      (p : ℕ) (q : MessageQueue) (m : Stored) (s : Server S)
      → (queue_at (push_one channel p q m s) p ≡ some q)
        × ((o : ℕ) → (p == o) ≡ false → queue_at (push_one channel p q m s) o ≡ queue_at s o)
  unfolding queue_at
  push_one-queue_at p q m s = (
    ap (find ◌==◌ p) (push_one-queues p q m s) ∙ find-insert_self ◌==◌ ==_iff p q s.queues,
    λ o ne.
        ap (find ◌==◌ o) (push_one-queues p q m s) ∙ find-insert_ne ◌==◌ ==_iff p o q s.queues ne,
  )

  no_more : (q : MessageQueue) → length (waiting q) ≡ 0 → waiting q ≡ []
  no_more q h = none_left (waiting q) h
    where
      none_left : (xs : List Stored) → length xs ≡ 0 → xs ≡ []
      none_left [] h = refl
      none_left (x ∷ xs) h = absurd (omega arith)

  step : ℕ → ℕ → Server S → Option (Stored × MessageQueue) → Option (Server S)
  step n p s o = elim o [
    | none ↦ some s
    | some (m, q') ↦ push_queue channel n p (push_one channel p q' m s)
  ]

  push_queue-step :
      (n p : ℕ) (s : Server S) (q q₁ : MessageQueue) (m : Stored)
      → queue_at s p ≡ some q
      → pop_front_msg true q ≡ some (m, q₁)
      → push_queue channel (suc n) p s ≡ push_queue channel n p (push_one channel p q₁ m s)
  unfolding push_queue step
  push_queue-step n p s q q₁ m at e =
      ap (λ o. o >>= λ x. step n p s (pop_front_msg true x)) at ∙ ap (step n p s) e

  -- As many turns as messages wait are enough: the loop over a queue that has consumers comes to its
  -- end, nothing waits in the queue then, its consumers are the same, and no other queue has changed.
  pub push_queue-empties :
      (n p : ℕ) (s : Server S) (q : MessageQueue)
      → queue_at s p ≡ some q
      → 0 < length q.consumers
      → length (waiting q) ≡ n
      → (s' : Server S) × (q' : MessageQueue) × (push_queue channel n p s ≡ some s')
        × (queue_at s' p ≡ some q')
        × (waiting q' ≡ [])
        × (q'.consumers ≡ q.consumers)
        × ((o : ℕ) → (p == o) ≡ false → queue_at s' o ≡ queue_at s o)
  unfolding push_queue
  push_queue-empties zero p s q at hc n = (s, q, refl, at, no_more q n, refl, λ o ne. refl)
  push_queue-empties (suc n) p s q at hc w =
      let (m, q₁, e, index, turn, cs, left) =
        push-next q (next_push_index q) refl hc (omega arith) in
      let (at₁, others₁) = push_one-queue_at p q₁ m s in
      let (s', q', ends, at', none_left, cs', others') =
        push_queue-empties n p (push_one channel p q₁ m s) q₁ at₁ (omega (arith, ap length cs))
          (omega (arith, w, left)) in
      (
        s',
        q',
        push_queue-step n p s q q₁ m at e ∙ ends,
        at',
        none_left,
        cs' ∙ cs,
        λ o ne. others' o ne ∙ others₁ o ne,
      )
