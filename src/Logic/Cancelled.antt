-- ===== src/Logic/Cancelled.antt =====
-- logicServer/logicServer.cpp, OnCancelSubscribe: it never follows a pointer that leads nowhere, and
-- keeps the maps of queues in order, also where it deletes the queue.
use mq_cplusplus.Base.{
  ℕ, ◌≡◌, refl, ap, ◌∙◌, inl, inr, Bool, true, false, not, ◌&&◌, none, some, Option, List, [], ◌∷◌,
  ◌==◌, if◌then◌else◌, Bytes, Bool-cases, Option-cases, name_eq, name_eq_iff, find,
  find-insert_self, find-erase_self, ==_iff, insert, erase, take,
}
use mq_cplusplus.ShmQueue.{Status}
use mq_cplusplus.Logic.Queue.{
  MessageQueue, cancel_subscribe, add_subscribe, is_subscribe, serialize_subscribe,
}
use mq_cplusplus.Logic.Exchange.{Exchange}
use mq_cplusplus.Logic.Server.{
  Channel, Server, Outcome, err_cancel_subscribe, re_queue_not_subscribe, re_queue_not_exist,
  queue_at, put_queue, send_persis, cleared, is_success,
}
use mq_cplusplus.Logic.Registry.{
  IsRegistry, put-IsRegistry, unlist-IsRegistry, unsubscribe-IsRegistry, drop-IsRegistry,
}
use mq_cplusplus.Logic.Remove.{
  unbound, unbind_reporting, retire, cancelled, cancel_found, on_cancel_subscribe,
}
use mq_cplusplus.Logic.Sound.{IsSound, if_both}

module _ {S : Type 0} (channel : Channel S) where
  -- The reports to the persistence server leave the queues alone.
  unbind_reporting-keeps :
      (P : List (ℕ × MessageQueue) → ℕ → List (Bytes × ℕ) → List (Bytes × ℕ) → Type 0)
      (stops : Bool) (p : ℕ) (es : List (Bytes × Exchange)) (s : Server S)
      → P s.queues s.next_queue s.unsubscribed s.subscribed
      → let s' = (unbind_reporting channel stops p es s).2 in
        P s'.queues s'.next_queue s'.unsubscribed s'.subscribed
  unfolding unbind_reporting send_persis
  unbind_reporting-keeps P stops p [] s h = h
  unbind_reporting-keeps P stops p ((key, e) ∷ es) s h = elim (Option-cases (unbound p e)) [
    | inl n ↦
        rw (unbind_reporting, n)
          (if_both Keeps e.durable (if_both Keeps _ h (unbind_reporting-keeps P stops p es _ h))
            (unbind_reporting-keeps P stops p es s h))
    | inr (e', f) ↦ rw (unbind_reporting, f) (unbind_reporting-keeps P stops p es s h)
  ]
    where
      Keeps : Option Bytes × List (Bytes × Exchange) × Server S → Type 0
      Keeps r = P r.2.queues r.2.next_queue r.2.unsubscribed r.2.subscribed

  retire-IsSound :
      (stops : Bool) (name : Bytes) (p : ℕ) (q q' : MessageQueue) (s : Server S)
      → IsSound s
      → find ◌==◌ p s.queues ≡ some q
      → q'.name ≡ q.name
      → find name_eq q.name s.unsubscribed ≡ none
      → find name_eq q.name s.subscribed ≡ none
      → IsSound (retire channel stops name p q' s).2
  unfolding retire put_queue send_persis
  retire-IsSound stops name p q q' s h at same free_u free_b =
      elim (Option-cases (unbind_reporting channel stops p s.exchanges s).0) [
        | inr (exchange, f) ↦ rw (retire, f) emptied
        | inl n ↦
            rw (retire, n)
              (if_both (λ (o : Outcome S). IsSound o.2) _ emptied
                (if_both
                  (λ (x : Server S).
                    IsRegistry (erase ◌==◌ p x.queues) x.next_queue x.unsubscribed x.subscribed)
                  q'.durable dropped dropped))
      ]
    where
      q₁ : MessageQueue
      q₁ = record q' { messages = []; pri_queue = [] }

      s₁ : Server S
      s₁ = (unbind_reporting channel stops p s.exchanges s).2

      emptied : IsRegistry (insert ◌==◌ p q₁ s₁.queues) s₁.next_queue s₁.unsubscribed s₁.subscribed
      emptied =
          unbind_reporting-keeps (λ qs. IsRegistry (insert ◌==◌ p q₁ qs)) stops p s.exchanges s
            (put-IsRegistry s.queues s.next_queue s.unsubscribed s.subscribed p q q₁ h at same)

      dropped :
          IsRegistry
            (erase ◌==◌ p (insert ◌==◌ p q₁ s₁.queues))
            s₁.next_queue
            s₁.unsubscribed
            s₁.subscribed
      dropped =
          unbind_reporting-keeps (λ qs. IsRegistry (erase ◌==◌ p (insert ◌==◌ p q₁ qs))) stops p
            s.exchanges s
            (drop-IsRegistry (insert ◌==◌ p q₁ s.queues) s.next_queue s.unsubscribed s.subscribed
              q.name p
              (put-IsRegistry s.queues s.next_queue s.unsubscribed s.subscribed p q q₁ h at same)
              (q₁, find-insert_self ◌==◌ ==_iff p q₁ s.queues, same) free_u free_b)

  -- The state behind the report of the consumers who are left.
  Ready : ℕ → MessageQueue → Server S → Type 0
  Ready p q x =
      IsSound x × (find ◌==◌ p x.queues ≡ some q) × (find name_eq q.name x.unsubscribed ≡ none)

  module _ (p : ℕ) (q : MessageQueue) (x : Server S) (r : Ready p q x) where
    off : Server S
    off = record x { subscribed = erase name_eq q.name x.subscribed }

    off-IsSound : IsSound off
    unfolding off Ready
    off-IsSound = unlist-IsRegistry x.queues x.next_queue x.unsubscribed x.subscribed q.name r.0

    off-unsubscribed :
        IsSound (record off { unsubscribed = insert name_eq q.name p off.unsubscribed })
    unfolding off Ready
    off-unsubscribed =
        unsubscribe-IsRegistry x.queues x.next_queue x.unsubscribed x.subscribed q.name p r.0
          (q, r.1, refl)

    cancelled-IsSound : (name : Bytes) → IsSound (cancelled channel name p q x).2
    unfolding cancelled off Ready
    cancelled-IsSound name = elim (Bool-cases (q.auto_del && not (is_subscribe q))) [
      | inl e ↦
          rw (cancelled, e)
            (retire-IsSound true name p q q off off-IsSound r.1 refl r.2
              (find-erase_self name_eq name_eq_iff q.name x.subscribed))
      | inr e ↦ elim (Bool-cases (not (is_subscribe q))) [
        | inl f ↦ rw (cancelled, e, f) off-unsubscribed
        | inr f ↦ rw (cancelled, e, f) off-IsSound
      ]
    ]

  cancel_found-IsSound :
      (s : Server S) (client : ℕ) (name : Bytes) (p : ℕ) (q : MessageQueue)
      → IsSound s
      → find ◌==◌ p s.queues ≡ some q
      → q.name ≡ name
      → find name_eq name s.unsubscribed ≡ none
      → IsSound (cancel_found channel s client name p q).2
  unfolding cancel_found put_queue send_persis cancel_subscribe add_subscribe Ready off
  cancel_found-IsSound s client name p q h at named free =
      elim (Bool-cases (q.durable && not (is_success ret))) [
        | inl e ↦ rw (cancel_found, e) back
        | inr e ↦
            rw (cancel_found, e)
              (cancelled-IsSound p q' (if q.durable then told else put_queue s p q') ready name)
      ]
    where
      q' : MessageQueue
      q' = cancel_subscribe client q

      found : find ◌==◌ p (insert ◌==◌ p q' s.queues) ≡ some q'
      found = find-insert_self ◌==◌ ==_iff p q' s.queues

      changed : IsRegistry (insert ◌==◌ p q' s.queues) s.next_queue s.unsubscribed s.subscribed
      changed = put-IsRegistry s.queues s.next_queue s.unsubscribed s.subscribed p q q' h at refl

      unlisted : find name_eq q.name s.unsubscribed ≡ none
      unlisted = ap (λ k. find name_eq k s.unsubscribed) named ∙ free

      packet : Bytes
      packet = let (ok, b) = serialize_subscribe q' false cleared in take b.len b.bytes

      ret : Status
      ret = (send_persis channel (put_queue s p q') packet).0

      told : Server S
      told = (send_persis channel (put_queue s p q') packet).1

      ready : Ready p q' (if q.durable then told else put_queue s p q')
      ready = if_both (Ready p q') q.durable (changed, found, unlisted) (changed, found, unlisted)

      back :
          IsRegistry
            (insert ◌==◌ p (add_subscribe client q.confirm_level q') (insert ◌==◌ p q' s.queues))
            s.next_queue
            s.unsubscribed
            s.subscribed
      back =
          put-IsRegistry (insert ◌==◌ p q' s.queues) s.next_queue s.unsubscribed s.subscribed p q'
            (add_subscribe client q.confirm_level q') changed found refl

  -- From a state whose maps of queues are in order, OnCancelSubscribe comes to an answer, without
  -- following a pointer that leads to no queue, and keeps them in order.
  pub on_cancel_subscribe-IsSound :
      (s : Server S) (client : ℕ) (name : Bytes)
      → IsSound s
      → (o : Outcome S) × (on_cancel_subscribe channel s client name ≡ some o) × IsSound o.2
  unfolding on_cancel_subscribe queue_at
  on_cancel_subscribe-IsSound s client name h =
      elim (Option-cases (find name_eq name s.unsubscribed)) [
        | inr (u, f) ↦ (
          (err_cancel_subscribe, some (re_queue_not_subscribe, name), s),
          rw (on_cancel_subscribe, f) refl,
          h,
        )
        | inl free ↦ elim (Option-cases (find name_eq name s.subscribed)) [
          | inl n ↦ (
            (err_cancel_subscribe, some (re_queue_not_exist, name), s),
            rw (on_cancel_subscribe, free, n) refl,
            h,
          )
          | inr (p, f) ↦
              let (q, at, named) = h.subscribed_live name p f in
              (
                cancel_found channel s client name p q,
                rw (on_cancel_subscribe, free, f, at) refl,
                cancel_found-IsSound s client name p q h at named free,
              )
        ]
      ]
