-- ===== src/Connect/Rounds.antt =====
-- connectServer/connectServer.cpp, Run: what a whole round over the queue sends.
use mq_cplusplus.Base.{
  ℕ, zero, suc, ◌+◌, ◌≤◌, ◌<◌, ◌≡◌, refl, ap, subst, ◌⊎◌, inl, inr, Bool, none, some, List, [], ◌∷◌,
  ◌++◌, arith, length, Bytes, length-append, lt→ltb,
}
use mq_cplusplus.ShmQueue.Channel.{Channel}
use mq_cplusplus.Connect.Events.{ConnectServer}
use mq_cplusplus.Connect.Send.{Line, Round, flush_all, drain, run_round, max_server_package}
use mq_cplusplus.Connect.Accounts.{IsUp, Serves, sent_to}
use mq_cplusplus.Connect.Serving.{Among, Online, Serving, flush_client-Serving}
use mq_cplusplus.Connect.Delivery.{packets, shares, AreFor, drain-Drained}

none_before : (n : ℕ) → 0 + n ≡ n
none_before n = omega arith

nothing_more : (sent more total : Bytes) → sent ++ more ≡ total → sent ≡ total → more ≡ []
nothing_more sent [] total e f = refl
nothing_more sent (b ∷ more) total e f =
    absurd (omega (arith, ap length e, ap length f, length-append sent (b ∷ more)))

module _ {S : Type 0} (channel : Channel S) (online : List (ℕ × ℕ)) where
  -- The head of what is to be flushed is done with.
  pop_front :
      (q : ℕ) (ps : List ℕ) (r : Round S) (totals : ℕ → Bytes)
      → Serving online r (q ∷ ps) totals
      → sent_to q r.out ≡ totals q
      → Serving online r ps totals
  unfolding Among
  pop_front q ps r totals s all = record {
    same = s.same;
    listed = s.listed.1;
    accounts = s.accounts;
    noted = λ p i. elim (s.noted p i) [
      | inl (inl e) ↦ inr (subst (λ z. sent_to z r.out ≡ totals z) e all)
      | inl (inr h) ↦ inl h
      | inr h ↦ inr h
    ];
  }

  flush_all-Serving :
      (ends : ℕ → Line)
      → ((k : ℕ) → IsUp (ends k))
      → (ps : List ℕ) (r : Round S) (totals : ℕ → Bytes) → Serving online r ps totals
      → (r' : Round S) × (flush_all channel ends ps r ≡ some r') × Serving online r' [] totals
  unfolding flush_all
  flush_all-Serving ends up [] r totals s = (r, refl, s)
  flush_all-Serving ends up (q ∷ ps) r totals s =
      let (r₁, sends, s₁, all, empty, same) =
        flush_client-Serving channel online q r (ends (length ps)) (q ∷ ps) totals (up (length ps))
          s.listed.0 s in
      let (r', rest, s') =
        flush_all-Serving ends up ps r₁ totals (pop_front q ps r₁ totals s₁ all) in
      (r', rw (sends, rest) refl, s')

-- When what waits is for nobody, no online client waits for anything.
all_sent :
    {S : Type 0} (online : List (ℕ × ℕ)) (r : Round S) (totals : ℕ → Bytes)
    → Serving online r [] totals
    → (p : ℕ) → Online online p
    → (sent_to p r.out ≡ totals p) × Serves (r.server.manager.connects p) []
unfolding Among
all_sent online r totals s p i =
    let (waits, v, e) = s.accounts p i in
    elim (s.noted p i) [
      | inl h ↦ absurd h
      | inr sent ↦
          (sent, subst (Serves (r.server.manager.connects p)) (nothing_more _ waits _ e sent) v)
    ]

-- The loop over the queue never takes a packet that is longer than its buffer, and is never over
-- when one is in front.
pub drain-too_long :
    {S : Type 0} (channel : Channel S) (lines : ℕ → Line) (time_left : ℕ → Bool) (packet : Bytes)
    (queue : List Bytes)
    → max_server_package < length packet
    → (fuel count : ℕ) (r : Round S)
    → drain channel fuel lines time_left count (packet ∷ queue) r ≡ none
unfolding drain
drain-too_long channel lines time_left packet queue h zero count r = refl
drain-too_long channel lines time_left packet queue h (suc fuel) count r =
    rw (lt→ltb _ _ h) (drain-too_long channel lines time_left packet queue h fuel count r)

-- If no client has anything waiting, the sockets are up, and the queue holds packets of known kinds for
-- online clients, none longer than the buffer for it, then a round with more fuel than packets is
-- over. It takes the packets from the front, all of them or at least a hundred; every online client has been sent
-- exactly the packets for it that were taken, in their order, and again has nothing waiting.
pub run_round-delivers :
    {S : Type 0} (channel : Channel S) (s : ConnectServer S) (lines ends : ℕ → Line)
    (time_left : ℕ → Bool)
    → ((k : ℕ) → IsUp (lines k))
    → ((k : ℕ) → IsUp (ends k))
    → ((p : ℕ) → Online s.manager.online p → Serves (s.manager.connects p) [])
    → (sends : List (ℕ × Bytes)) → AreFor s.manager.online sends
    → (fuel : ℕ) → length sends < fuel
    → (done left : List (ℕ × Bytes)) × (r : Round S) × (run_round channel fuel lines ends time_left
          (packets sends)
          s
        ≡ some (length done, packets left, r))
      × (sends ≡ done ++ left)
      × ((left ≡ []) ⊎ (100 ≤ length done))
      × (r.server.manager.online ≡ s.manager.online)
      × ((p : ℕ)
          → Online s.manager.online p
          → (sent_to p r.out ≡ shares p done) × Serves (r.server.manager.connects p) [])
unfolding run_round sent_to
run_round-delivers channel s lines ends time_left up up' idle sends f fuel h =
    let online = s.manager.online in
    let start : Round _ = record { server = s; out = []; clients = [] } in
    let (done, left, r, (split, over, drains, serving)) =
      drain-Drained channel online lines up time_left fuel 0 sends start (λ p. []) h f
        (record {
          same = refl;
          listed = tt;
          accounts = λ p i. ([], idle p i, refl);
          noted = λ p i. inr refl;
        }) in
    let (r', flushes, serving') =
      flush_all-Serving channel online ends up' r.clients r (λ p. [] ++ shares p done) serving in
    (
      done,
      left,
      r',
      rw (drains, flushes) (ap (λ n. some (n, packets left, r')) (none_before (length done))),
      split,
      subst (λ n. (left ≡ []) ⊎ (100 ≤ n)) (none_before (length done)) over,
      serving'.same,
      all_sent online r' (λ p. [] ++ shares p done) serving',
    )
