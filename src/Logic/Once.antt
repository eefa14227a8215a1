-- ===== src/Logic/Once.antt =====
-- logicServer/logicServer.cpp, OnPublishMessage and SendMultiAck: a message that a producer sends
-- again, and the acknowledgements.
use mq_cplusplus.Base.{
  ℕ, zero, suc, ◌≡◌, ◌≢◌, refl, sym, ap, ◌∙◌, ◌⊎◌, inl, inr, Bool, true, ◌&&◌, none, some, List, [],
  ◌∷◌, ◌++◌, ltb, Bytes, name_eq, name_eq_self, find, arith, Bool-cases, and-true, Option-cases,
  lt→ltb, ◌<◌,
}
use mq_cplusplus.Message.Server.{minus_one}
use mq_cplusplus.Logic.Exchange.{find_binding_queue}
use mq_cplusplus.Logic.Server.{
  Channel, Server, done, Note, Outcome, send_connect, ack_bytes, seq_key, has_name, add_name,
  err_publish_message, re_exchange_not_exist,
}
use mq_cplusplus.Logic.Publish.{
  producer_single_ack, producer_multi_ack, deliver_all, acknowledge, publish_to, on_publish_message,
  send_multi_ack,
}

has_name-append : (k : Bytes) (xs : List Bytes) → has_name k (xs ++ k ∷ []) ≡ true
unfolding has_name
has_name-append k [] = rw (name_eq_self k) refl
has_name-append k (x ∷ xs) = ground (arith, has_name-append k xs)

add_name-has_name : (k : Bytes) (xs : List Bytes) → has_name k (add_name k xs) ≡ true
unfolding add_name
add_name-has_name k xs = elim (Bool-cases (has_name k xs)) [
  | inl e ↦ rw (e, e) refl
  | inr e ↦ rw e (has_name-append k xs)
]

module _ {S : Type 0} (channel : Channel S) where
  acknowledge-has_name :
      (client seq level : ℕ) (s : Server S)
      → (level ≡ producer_single_ack) ⊎ (level ≡ producer_multi_ack)
      → has_name (seq_key client seq) (acknowledge channel client seq level s).producer_seqs ≡ true
  unfolding acknowledge
  acknowledge-has_name client seq level s (inl e) =
      rw e (add_name-has_name (seq_key client seq) s.producer_seqs)
  acknowledge-has_name client seq level s (inr e) =
      rw e (add_name-has_name (seq_key client seq) s.producer_seqs)

  -- A number that is known: an acknowledgement without a client goes out, and nothing else happens.
  publish-known :
      (s : Server S) (client : ℕ) (exchange key body : Bytes) (priority : ℕ) (durable : Bool)
      (seq level : ℕ)
      → 0 < level
      → has_name (seq_key client seq) s.producer_seqs ≡ true
      → on_publish_message channel s client exchange key body priority durable seq level
        ≡ some (done, none, send_connect channel s (ack_bytes minus_one seq))
  unfolding on_publish_message
  publish-known s client exchange key body priority durable seq level h k =
      rw (lt→ltb 0 level h, k) refl

  outcome-same :
      (o : Outcome S) (text : Note) (s' : Server S)
      → some o ≡ some (done, text, s')
      → (o.0 ≡ done) × (o.2 ≡ s')
  outcome-same o text s' e = (
    ap (λ x. elim x [ none ↦ done | some o' ↦ o'.0 ]) e,
    ap (λ x. elim x [ none ↦ s' | some o' ↦ o'.2 ]) e,
  )

  none-some : {o : Outcome S} → none ≡ some o → ⊥
  none-some e = cc

  publish_to-known :
      (s s' : Server S) (text : Note) (client : ℕ) (key body : Bytes) (priority : ℕ)
      (durable : Bool) (seq level : ℕ) (ps : List ℕ)
      → (level ≡ producer_single_ack) ⊎ (level ≡ producer_multi_ack)
      → publish_to channel client key body priority durable seq level s ps ≡ some (done, text, s')
      → has_name (seq_key client seq) s'.producer_seqs ≡ true
  unfolding publish_to
  publish_to-known s s' text client key body priority durable seq level [] l e = absurd cc
  publish_to-known s s' text client key body priority durable seq level (p ∷ ps) l e =
      elim (Option-cases (deliver_all channel body priority durable (p ∷ ps) s)) [
        | inl n ↦ absurd (none-some (rw n at e))
        | inr (t, d) ↦
            let same =
              (outcome-same (done, none, acknowledge channel client seq level t) text s'
                (rw d at e)).1 in
            ap (λ x. has_name (seq_key client seq) x.producer_seqs) (sym same)
            ∙ acknowledge-has_name client seq level t l
      ]

  published-known :
      (s s' : Server S) (text : Note) (client : ℕ) (exchange key body : Bytes) (priority : ℕ)
      (durable : Bool) (seq level : ℕ)
      → (level ≡ producer_single_ack) ⊎ (level ≡ producer_multi_ack)
      → on_publish_message channel s client exchange key body priority durable seq level
        ≡ some (done, text, s')
      → has_name (seq_key client seq) s'.producer_seqs ≡ true
  unfolding on_publish_message send_connect
  published-known s s' text client exchange key body priority durable seq level l e =
      elim (Bool-cases (ltb 0 level && has_name (seq_key client seq) s.producer_seqs)) [
        | inl k ↦
            let same =
              (outcome-same (done, none, send_connect channel s (ack_bytes minus_one seq)) text s'
                (rw k at e)).1 in
            ap (λ x. has_name (seq_key client seq) x.producer_seqs) (sym same)
            ∙ (and-true (ltb 0 level) (has_name (seq_key client seq) s.producer_seqs) k).1
        | inr k ↦ elim (Option-cases (find name_eq exchange s.exchanges)) [
          | inl n ↦ absurd (
              err-done
                (outcome-same (err_publish_message, some (re_exchange_not_exist, exchange), s) text
                  s' (rw (k, n) at e)).0)
          | inr (x, f) ↦
              publish_to-known s s' text client key body priority durable seq level
                (find_binding_queue key x).1 l (rw (k, f) at e)
        ]
      ]
    where
      err-done : err_publish_message ≡ done → ⊥
      err-done e = cc

  -- A message of a producer that wants acknowledgements, sent again after it was taken: what it says and
  -- where it goes to is not looked at then.
  pub publish_again :
      (s s' : Server S) (text : Note) (client seq level : ℕ) (exchange key body : Bytes)
      (priority : ℕ) (durable : Bool) (exchange' key' body' : Bytes) (priority' : ℕ)
      (durable' : Bool)
      → (level ≡ producer_single_ack) ⊎ (level ≡ producer_multi_ack)
      → on_publish_message channel s client exchange key body priority durable seq level
        ≡ some (done, text, s')
      → on_publish_message channel s' client exchange' key' body' priority' durable' seq level
        ≡ some (done, none, send_connect channel s' (ack_bytes minus_one seq))
  publish_again s s' text client seq level exchange key body priority durable exchange' key' body'
        priority' durable' l e =
      publish-known s' client exchange' key' body' priority' durable' seq level (positive l)
        (published-known s s' text client exchange key body priority durable seq level l e)
    where
      positive : (level ≡ producer_single_ack) ⊎ (level ≡ producer_multi_ack) → 0 < level
      positive (inl e) = omega arith
      positive (inr e) = omega arith

  endless :
      (fuel : ℕ) (s : Server S) (l : List (ℕ × ℕ))
      → s.producer_last ≡ l
      → l ≢ []
      → send_multi_ack channel fuel s ≡ none
  unfolding send_multi_ack send_connect
  endless zero s l e h = refl
  endless (suc fuel) s [] e h = absurd (h refl)
  endless (suc fuel) s (x ∷ l) e h =
      rw (send_multi_ack, e) (endless fuel (send_connect channel s (ack_bytes x.0 x.1)) (x ∷ l) e h)

  -- SendMultiAck with something to acknowledge is over after no number of turns.
  pub send_multi_ack-endless :
      (fuel : ℕ) (s : Server S) → s.producer_last ≢ [] → send_multi_ack channel fuel s ≡ none
  send_multi_ack-endless fuel s h = endless fuel s s.producer_last refl h
