-- ===== src/Logic/Routing.antt =====
-- logicServer/logicServer.cpp, Exchange::FindBindingQueue: which queues a routing key reaches.
use mq_cplusplus.Base.{
  ℕ, ◌≡◌, ◌≢◌, refl, sym, ap, ◌∙◌, ◌↔◌, ◌⊎◌, inl, inr, true, Option, none, some, List, [], ◌∷◌,
  arith, if◌then◌else◌, Bytes, Option-cases, name_eq, find,
}
use mq_cplusplus.Logic.Queue.{is_empty_list, has}
use mq_cplusplus.Logic.Topic.{is_fit}
use mq_cplusplus.Logic.Exchange.{
  Exchange, Bindings, all_queues, fit_queues, find_binding_queue, FindStatus, found,
  binding_not_exist, type_direct, type_fanout, type_topic,
}
use mq_cplusplus.Logic.Picked.{
  IsKeyed, picked, all_queues-picked, fit_queues-picked, picked→Picks, Picks→picked,
}

-- When an exchange of a type sends a message with a routing key along a binding key.
abbrev pub Accepts : ℕ → Bytes → Bytes → Type 0
Accepts t routing_key key =
    ((t ≡ type_direct) × (key ≡ routing_key))
    ⊎ (t ≡ type_fanout)
    ⊎ ((t ≡ type_topic) × (is_fit routing_key key ≡ true))

type-cases :
    (t : ℕ)
    → (t ≡ type_direct)
      ⊎ (t ≡ type_fanout)
      ⊎ (t ≡ type_topic)
      ⊎ ((t ≢ type_direct) × (t ≢ type_fanout) × (t ≢ type_topic))
type-cases t = ground arith

direct-queues :
    (r : Bytes) (e : Exchange)
    → e.exchange_type ≡ type_direct
    → (q : ℕ) → has q (find_binding_queue r e).1 ≡ true
    → (queues : List ℕ) × (find name_eq r e.bindings ≡ some queues) × (has q queues ≡ true)
unfolding find_binding_queue has
direct-queues r e t q h = elim (Option-cases (find name_eq r e.bindings)) [
  | inl n ↦ ground (arith, sym (read n) ∙ h)
  | inr (queues, s) ↦ (queues, s, sym (read s) ∙ h)
]
  where
    read :
        {o : Option (List ℕ)}
        → find name_eq r e.bindings ≡ o
        → has q (find_binding_queue r e).1 ≡ has q (elim o [ none ↦ [] | some qs ↦ qs ])
    read {o = none} n = rw (t, n) refl
    read {o = some qs} n = rw (t, n) refl

queues-direct :
    (r : Bytes) (e : Exchange)
    → e.exchange_type ≡ type_direct
    → (queues : List ℕ) → find name_eq r e.bindings ≡ some queues
    → (find_binding_queue r e).1 ≡ queues
unfolding find_binding_queue
queues-direct r e t queues f = rw (t, f) refl

none_empty :
    (xs : Bindings → List ℕ)
    → xs [] ≡ []
    → (bs : Bindings)
    → (if◌then◌else◌ {A = FindStatus × List ℕ}
        (is_empty_list bs)
        (binding_not_exist, [])
        (found, xs bs)).1
      ≡ xs bs
unfolding is_empty_list
none_empty xs h [] = sym h
none_empty xs h (b ∷ bs) = refl

fanout-queues :
    (r : Bytes) (e : Exchange)
    → e.exchange_type ≡ type_fanout
    → (find_binding_queue r e).1 ≡ picked (λ key. true) e.bindings
unfolding find_binding_queue all_queues
fanout-queues r e t = rw t (none_empty all_queues refl e.bindings ∙ all_queues-picked e.bindings)

topic-queues :
    (r : Bytes) (e : Exchange)
    → e.exchange_type ≡ type_topic
    → (find_binding_queue r e).1 ≡ picked (is_fit r) e.bindings
unfolding find_binding_queue fit_queues
topic-queues r e t =
    rw t (none_empty (fit_queues r) refl e.bindings ∙ fit_queues-picked r e.bindings)

other-queues :
    (r : Bytes) (e : Exchange)
    → e.exchange_type ≢ type_direct
    → e.exchange_type ≢ type_fanout
    → e.exchange_type ≢ type_topic
    → (find_binding_queue r e).1 ≡ []
unfolding find_binding_queue
other-queues r e a b c = ground arith

none_has : (q : ℕ) → has q [] ≡ true → ⊥
unfolding has
none_has q h = ground (arith, h)

-- FindBindingQueue finds a queue exactly if the queue is bound with a key along which the exchange
-- sends the message: the key itself in a direct exchange, any key in a fanout exchange, and one that
-- fits in a topic exchange.
pub find_binding_queue-Accepts :
    (routing_key : Bytes) (e : Exchange) (queue : ℕ)
    → IsKeyed e.bindings
    → (has queue (find_binding_queue routing_key e).1 ≡ true) ↔ (
        (key : Bytes) × (queues : List ℕ) × (find name_eq key e.bindings ≡ some queues)
        × (has queue queues ≡ true)
        × Accepts e.exchange_type routing_key key)
unfolding find_binding_queue
find_binding_queue-Accepts r e q keyed = elim (type-cases e.exchange_type) [
  | inl t ↦ (
    λ h. let (queues, f, m) = direct-queues r e t q h in (r, queues, f, m, inl (t, refl)),
    λ (key, queues, f, m, a). elim a [
      | inl (t', k) ↦
          ap (has q) (queues-direct r e t queues (sym (ap (λ z. find name_eq z e.bindings) k) ∙ f))
          ∙ m
      | inr (inl t') ↦ absurd (omega arith)
      | inr (inr (t', p)) ↦ absurd (omega arith)
    ],
  )
  | inr (inl t) ↦ (
    λ h.
        let (key, queues, f, m, _) =
          picked→Picks (λ k. true) e.bindings q keyed
            (sym (ap (has q) (fanout-queues r e t)) ∙ h) in
        (key, queues, f, m, inr (inl t)),
    λ (key, queues, f, m, a).
        ap (has q) (fanout-queues r e t)
        ∙ Picks→picked (λ k. true) e.bindings q (key, queues, f, m, refl),
  )
  | inr (inr (inl t)) ↦ (
    λ h.
        let (key, queues, f, m, p) =
          picked→Picks (is_fit r) e.bindings q keyed (sym (ap (has q) (topic-queues r e t)) ∙ h) in
        (key, queues, f, m, inr (inr (t, p))),
    λ (key, queues, f, m, a). elim a [
      | inl (t', k) ↦ absurd (omega arith)
      | inr (inl t') ↦ absurd (omega arith)
      | inr (inr (t', p)) ↦
          ap (has q) (topic-queues r e t)
          ∙ Picks→picked (is_fit r) e.bindings q (key, queues, f, m, p)
    ],
  )
  | inr (inr (inr (a, b, c))) ↦ (
    λ h. absurd (none_has q (sym (ap (has q) (other-queues r e a b c)) ∙ h)),
    λ (key, queues, f, m, acc). elim acc [
      | inl (t', k) ↦ absurd (a t')
      | inr (inl t') ↦ absurd (b t')
      | inr (inr (t', p)) ↦ absurd (c t')
    ],
  )
]
