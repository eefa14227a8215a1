-- ===== src/Logic/Sound.antt =====
-- logicServer/logicServer.cpp: the handlers that make, look up and delete queues never follow a
-- pointer that leads nowhere, and keep the maps of queues in order.
use mq_cplusplus.Base.{
  ℕ, ◌≡◌, refl, sym, ap, ◌∙◌, inl, inr, Bool, true, false, none, some, List, [], ◌∷◌, ◌==◌,
  if◌then◌else◌, Bytes, ltb, Bool-cases, Option-cases, name_eq, find, find-insert_self, ==_iff,
  insert, erase,
}
use mq_cplusplus.Message.Server.{Stored}
use mq_cplusplus.Logic.Queue.{
  MessageQueue, new_queue, pop, pop_front_msg, add_subscribe, cancel_subscribe,
}
use mq_cplusplus.Logic.Server.{
  Channel, Server, Outcome, err_recv_message, err_delete_queue, err_create_subscribe,
  re_queue_not_exist, queue_at, put_queue, queue_named, queue_named_last, send_persis,
  send_connect_wait,
}
use mq_cplusplus.Logic.Registry.{
  IsRegistry, LeadsTo, none-some, put-IsRegistry, register-IsRegistry, subscribe-IsRegistry,
  forget-IsRegistry, delete-IsRegistry,
}
use mq_cplusplus.Logic.Declare.{on_create_queue}
use mq_cplusplus.Logic.Consume.{
  report_gone, hand_over, pull, subscribe_to, on_recv_message, on_create_subscribe,
}
use mq_cplusplus.Logic.Remove.{delete_found, on_delete_queue}

abbrev pub IsSound : {S : Type 0} → Server S → Type 0
IsSound s = IsRegistry s.queues s.next_queue s.unsubscribed s.subscribed

pub if_both :
    {A : Type 0} (P : A → Type 0) (c : Bool) {x y : A} → P x → P y → P (if c then x else y)
if_both P true p q = p
if_both P false p q = q

pop-name :
    (q : MessageQueue) (pri msgs : List Stored) (m : Stored) (q' : MessageQueue)
    → pop (record q { pri_queue = pri; messages = msgs }) ≡ some (m, q')
    → q'.name ≡ q.name
unfolding pop
pop-name q [] [] m q' e = absurd cc
pop-name q [] (x ∷ xs) m q' e = sym (ap (λ o. elim o [ none ↦ q.name | some r ↦ r.1.name ]) e)
pop-name q (x ∷ xs) msgs m q' e = sym (ap (λ o. elim o [ none ↦ q.name | some r ↦ r.1.name ]) e)

pulled-name :
    (q : MessageQueue) (m : Stored) (q' : MessageQueue)
    → pop_front_msg false q ≡ some (m, q')
    → q'.name ≡ q.name
unfolding pop_front_msg
pulled-name q m q' e = elim (Option-cases (pop q)) [
  | inl n ↦ absurd (none-some (rw n at e))
  | inr (r, f) ↦ pop-name q q.pri_queue q.messages m q' (f ∙ rw f at e)
]

module _ {S : Type 0} (channel : Channel S) where
  named-none :
      (s : Server S) (name : Bytes)
      → queue_named s name ≡ none
      → find name_eq name s.subscribed ≡ none
  unfolding queue_named
  named-none s name e = elim (Option-cases (find name_eq name s.unsubscribed)) [
    | inl n ↦ rw (queue_named, n) at e
    | inr (p, f) ↦ absurd (none-some (sym (rw (queue_named, f) at e)))
  ]

  named_last-LeadsTo :
      (s : Server S) (name : Bytes) (p : ℕ)
      → IsSound s
      → queue_named_last s name ≡ some p
      → LeadsTo s.queues name p
  unfolding queue_named_last
  named_last-LeadsTo s name p h e = elim (Option-cases (find name_eq name s.subscribed)) [
    | inl n ↦ h.unsubscribed_live name p (rw (queue_named_last, n) at e)
    | inr (o, f) ↦ h.subscribed_live name p (f ∙ rw (queue_named_last, f) at e)
  ]

  -- From a state whose maps of queues are in order, OnCreateQueue keeps them in order: it makes a queue
  -- under a name that is free, or changes nothing.
  pub on_create_queue-IsSound :
      (s : Server S) (raw name : Bytes) (priority : ℕ) (durable auto_del : Bool)
      → IsSound s
      → IsSound (on_create_queue channel s raw name priority durable auto_del).2
  unfolding send_persis on_create_queue
  on_create_queue-IsSound s raw name priority durable auto_del h =
      elim (Option-cases (queue_named s name)) [
        | inr (p, f) ↦ rw (on_create_queue, f) h
        | inl n ↦
            let made =
              register-IsRegistry s.queues s.next_queue s.unsubscribed s.subscribed name
                (new_queue name priority durable auto_del) h (named-none s name n) refl in
            rw (on_create_queue, n)
              (if_both (λ (o : Outcome S). IsSound o.2) durable
                (if_both (λ (o : Outcome S). IsSound o.2) _ made made) made)
      ]

  hand_over-IsSound :
      (now client : ℕ) (name : Bytes) (level : ℕ) (m : Stored) (s : Server S)
      → IsSound s
      → IsSound (hand_over channel now client name level m s)
  unfolding hand_over report_gone send_persis send_connect_wait
  hand_over-IsSound now client name level m s h = elim (Bool-cases (ltb 0 level)) [
    | inl e ↦ rw e h
    | inr e ↦ rw e (elim (Bool-cases m.durable) [ inl d ↦ rw d h | inr d ↦ rw d h ])
  ]

  pull-IsSound :
      (now : ℕ) (s : Server S) (client : ℕ) (name : Bytes) (level p : ℕ) (q : MessageQueue)
      → IsSound s
      → queue_at s p ≡ some q
      → IsSound (pull channel now s client name level p q).2
  unfolding pull queue_at put_queue
  pull-IsSound now s client name level p q h at = elim (Option-cases (pop_front_msg false q)) [
    | inl n ↦ rw (pull, n) h
    | inr (r, g) ↦
        rw (pull, g)
          (hand_over-IsSound now client name level r.0 (put_queue s p r.1) (
            put-IsRegistry s.queues s.next_queue s.unsubscribed s.subscribed p q r.1 h at
              (pulled-name q r.0 r.1 g)))
  ]

  -- From a state whose maps of queues are in order, OnRecvMessage comes to an answer, without following
  -- a pointer that leads to no queue, and keeps them in order.
  pub on_recv_message-IsSound :
      (now : ℕ) (s : Server S) (client : ℕ) (name : Bytes) (level : ℕ)
      → IsSound s
      → (o : Outcome S) × (on_recv_message channel now s client name level ≡ some o) × IsSound o.2
  unfolding on_recv_message queue_at
  on_recv_message-IsSound now s client name level h =
      elim (Option-cases (queue_named_last s name)) [
        | inl n ↦ (
          (err_recv_message, some (re_queue_not_exist, name), s),
          rw (on_recv_message, n) refl,
          h,
        )
        | inr (p, f) ↦
            let (q, at, named) = named_last-LeadsTo s name p h f in
            (
              pull channel now s client name level p q,
              rw (on_recv_message, f, at) refl,
              pull-IsSound now s client name level p q h at,
            )
      ]

  subscribe_to-IsSound :
      (s : Server S) (client : ℕ) (name : Bytes) (level p : ℕ) (q : MessageQueue)
      → IsSound s
      → queue_at s p ≡ some q
      → q.name ≡ name
      → IsSound (subscribe_to channel s client name level p q).2
  unfolding subscribe_to queue_at put_queue send_persis add_subscribe cancel_subscribe
  subscribe_to-IsSound s client name level p q h at named =
      let q' = add_subscribe client level q in
      let heap = insert ◌==◌ p q' s.queues in
      let found : find ◌==◌ p heap ≡ some q' = find-insert_self ◌==◌ ==_iff p q' s.queues in
      let added =
        put-IsRegistry s.queues s.next_queue s.unsubscribed s.subscribed p q q' h at refl in
      let moved =
        subscribe-IsRegistry heap s.next_queue s.unsubscribed s.subscribed name p added
          (q', found, named) in
      let cancelled =
        put-IsRegistry heap s.next_queue s.unsubscribed s.subscribed p q'
          (cancel_subscribe client q') added found refl in
      elim (Option-cases (find name_eq name s.unsubscribed)) [
        | inl n ↦
            rw (subscribe_to, n)
              (if_both (λ (o : Outcome S). IsSound o.2) _ cancelled
                (if_both (λ (x : Server S). IsSound x) q.durable added added))
        | inr (u, f) ↦
            rw (subscribe_to, f)
              (if_both (λ (o : Outcome S). IsSound o.2) _ cancelled
                (if_both
                  (λ (x : Server S).
                    IsRegistry x.queues x.next_queue (erase name_eq name x.unsubscribed)
                      (insert name_eq name p x.subscribed))
                  q.durable moved moved))
      ]

  -- From a state whose maps of queues are in order, OnCreateSubscribe comes to an answer, without
  -- following a pointer that leads to no queue, and keeps them in order.
  pub on_create_subscribe-IsSound :
      (s : Server S) (client : ℕ) (name : Bytes) (level : ℕ)
      → IsSound s
      → (o : Outcome S) × (on_create_subscribe channel s client name level ≡ some o) × IsSound o.2
  unfolding on_create_subscribe queue_at
  on_create_subscribe-IsSound s client name level h =
      elim (Option-cases (queue_named_last s name)) [
        | inl n ↦ (
          (err_create_subscribe, some (re_queue_not_exist, name), s),
          rw (on_create_subscribe, n) refl,
          h,
        )
        | inr (p, f) ↦
            let (q, at, named) = named_last-LeadsTo s name p h f in
            (
              subscribe_to channel s client name level p q,
              rw (on_create_subscribe, f, at) refl,
              subscribe_to-IsSound s client name level p q h at named,
            )
      ]

  delete_found-IsSound :
      (s : Server S) (raw name : Bytes) (p : ℕ) (q : MessageQueue)
      → IsSound s
      → LeadsTo s.queues name p
      → IsSound (delete_found channel s raw name p q).2
  unfolding delete_found send_persis
  delete_found-IsSound s raw name p q h l =
      let forgot = forget-IsRegistry s.queues s.next_queue s.unsubscribed s.subscribed name h in
      let deleted =
        delete-IsRegistry s.queues s.next_queue s.unsubscribed s.subscribed name p h l in
      elim (Bool-cases q.durable) [
        | inl d ↦ rw d (if_both (λ (o : Outcome S). IsSound o.2) _ forgot deleted)
        | inr d ↦ rw d deleted
      ]

  -- From a state whose maps of queues are in order, OnDeleteQueue comes to an answer, without following
  -- a pointer that leads to no queue, and keeps them in order, also where the persistence server could
  -- not be told.
  pub on_delete_queue-IsSound :
      (s : Server S) (raw name : Bytes)
      → IsSound s
      → (o : Outcome S) × (on_delete_queue channel s raw name ≡ some o) × IsSound o.2
  unfolding on_delete_queue queue_at
  on_delete_queue-IsSound s raw name h = elim (Option-cases (queue_named_last s name)) [
    | inl n ↦
        ((err_delete_queue, some (re_queue_not_exist, name), s), rw (on_delete_queue, n) refl, h)
    | inr (p, f) ↦
        let (q, at, named) = named_last-LeadsTo s name p h f in
        (
          delete_found channel s raw name p q,
          rw (on_delete_queue, f, at) refl,
          delete_found-IsSound s raw name p q h (q, at, named),
        )
  ]
