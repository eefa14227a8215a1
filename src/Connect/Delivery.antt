-- ===== src/Connect/Delivery.antt =====
-- connectServer/connectServer.cpp, Run, the loop over the queue from the logic server: its packets
-- are put into the send buffers of their clients in order.
use mq_cplusplus.Base.{
  ℕ, zero, suc, ◌+◌, ◌%◌, ◌^◌, ◌≤◌, ◌<◌, ◌≡◌, refl, sym, ap, subst, ◌∙◌, ◌⊎◌, inl, inr, Bool, true,
  false, not, ◌&&◌, ◌||◌, some, List, [], ◌∷◌, ◌++◌, arith, leb, ◌==◌, length, Bytes, Bool-cases,
  append_assoc, append-nil, le→ltb, All, leb→le, find,
}
use mq_cplusplus.ShmQueue.Channel.{Channel}
use mq_cplusplus.Message.Wire.{read_short, read_int}
use mq_cplusplus.Message.Request.{
  head_len, cmd_client_pull_message, cmd_server_push_message, cmd_server_reply_message,
  cmd_server_ack_message,
}
use mq_cplusplus.Connect.Client.{find_client}
use mq_cplusplus.Connect.Events.{ConnectServer}
use mq_cplusplus.Connect.Send.{Line, Round, dispatch, drain, max_server_package}
use mq_cplusplus.Connect.Accounts.{IsUp, Accounts, share, sent_to}
use mq_cplusplus.Connect.Serving.{Among, Serving, buffer_packet-Serving}

-- A packet that Run passes on: not longer than the buffer for it, of a kind that it knows, and for the
-- online client on connection `q`.
pub record IsFor (online : List (ℕ × ℕ)) (q : ℕ) (packet : Bytes) : Type 0 where
  pub long : head_len ≤ length packet
  pub fits : length packet ≤ max_server_package
  pub pack_len : ℕ
  pub index : ℕ
  pub cmd : ℕ
  pub behind_len : Bytes
  pub behind_index : Bytes
  pub body : Bytes
  pub reads_len : read_short packet ≡ some (pack_len, behind_len)
  pub reads_index : read_int behind_len ≡ some (index, behind_index)
  pub reads_cmd : read_short behind_index ≡ some (cmd, body)
  pub known :
      ((cmd == cmd_client_pull_message)
        || ((cmd == cmd_server_push_message)
            || ((cmd == cmd_server_reply_message) || (cmd == cmd_server_ack_message))))
      ≡ true
  pub is_online : find ◌==◌ index online ≡ some q

-- The packets, and what of them is for `p`.
pub packets : List (ℕ × Bytes) → List Bytes
packets [] = []
packets ((q, packet) ∷ sends) = packet ∷ packets sends

abbrev pub shares : ℕ → List (ℕ × Bytes) → Bytes
shares p [] = []
shares p ((q, packet) ∷ sends) = share p q packet ++ shares p sends

abbrev pub AreFor : List (ℕ × ℕ) → List (ℕ × Bytes) → Type 0
AreFor online sends = All (λ x. IsFor online (x.0) (x.1)) sends

both : (a b : Bool) → a && b ≡ true → a ≡ true
both true b h = refl
both false b h = h

module _ {S : Type 0} (channel : Channel S) (online : List (ℕ × ℕ)) where
  -- A packet that is passed on is put into its client's send buffer.
  dispatch-Serving :
      (line : Line) (q : ℕ) (packet : Bytes) (r : Round S) (totals : ℕ → Bytes)
      → IsUp line
      → IsFor online q packet
      → Serving online r r.clients totals
      → (r' : Round S) × (dispatch channel line packet r ≡ some (true, r'))
        × Serving online r' r'.clients (λ p. totals p ++ share p q packet)
  unfolding dispatch find_client
  dispatch-Serving line q packet r totals up f s =
      let counted : ConnectServer S = record (r.server) {
        send_count = (r.server.send_count + 1) % 2 ^ 32;
      } in
      let (r', puts, s') =
        buffer_packet-Serving channel online q (record r { server = counted }) line packet totals up
          f.fits (f.index, f.is_online)
          (record { same = s.same; listed = s.listed; accounts = s.accounts; noted = s.noted }) in
      (
        r',
        rw
            (
              le→ltb _ _ f.long,
              f.reads_len,
              f.reads_index,
              f.reads_cmd,
              s.same,
              f.is_online,
              f.known,
              puts,
            )
            refl,
        s',
      )

  -- The totals matter for each client only.
  Serving-same :
      (r : Round S) (ps : List ℕ) (totals totals' : ℕ → Bytes)
      → ((p : ℕ) → totals p ≡ totals' p)
      → Serving online r ps totals
      → Serving online r ps totals'
  Serving-same r ps totals totals' e s = record {
    same = s.same;
    listed = s.listed;
    accounts = λ p i. subst (Accounts r p) (e p) (s.accounts p i);
    noted = λ p i. subst (λ z. Among p ps ⊎ (sent_to p r.out ≡ z)) (e p) (s.noted p i);
  }

  module _ (lines : ℕ → Line) (up : (k : ℕ) → IsUp (lines k)) (time_left : ℕ → Bool) where
    -- What the loop comes to: it takes `done` and leaves `left`.
    abbrev pub Drained :
        ℕ
        → ℕ
        → List (ℕ × Bytes)
        → Round S
        → (ℕ → Bytes)
        → List (ℕ × Bytes)
        → List (ℕ × Bytes)
        → Round S
        → Type 0
    Drained fuel count sends r totals done left r' =
        (sends ≡ done ++ left)
        × ((left ≡ []) ⊎ (100 ≤ count + length done))
        × (drain channel fuel lines time_left count (packets sends) r
            ≡ some (count + length done, packets left, r'))
        × Serving online r' r'.clients (λ p. totals p ++ shares p done)

    Drained-step :
        (fuel count q : ℕ) (packet : Bytes) (sends done left : List (ℕ × Bytes)) (r r₁ r' : Round S)
        (totals : ℕ → Bytes)
        → (drain channel (suc fuel) lines time_left count (packets ((q, packet) ∷ sends)) r
            ≡ drain channel fuel lines time_left (count + 1) (packets sends) r₁)
        → Drained fuel (count + 1) sends r₁ (λ p. totals p ++ share p q packet) done left r'
        → Drained (suc fuel) count ((q, packet) ∷ sends) r totals ((q, packet) ∷ done) left r'
    Drained-step fuel count q packet sends done left r r₁ r' totals step (split, over, runs, s) = (
      ap (◌∷◌ (q, packet)) split,
      elim over [ inl e ↦ inl e | inr h ↦ inr (omega (arith, h)) ],
      step ∙ runs ∙ ap (λ n. some (n, packets left, r')) (omega arith),
      Serving-same r' r'.clients _ _
          (λ p. append_assoc (totals p) (share p q packet) (shares p done)) s,
    )

    pub drain-Drained :
        (fuel count : ℕ) (sends : List (ℕ × Bytes)) (r : Round S) (totals : ℕ → Bytes)
        → length sends < fuel
        → AreFor online sends
        → Serving online r r.clients totals
        → (done left : List (ℕ × Bytes)) × (r' : Round S) × Drained fuel count sends r totals done
            left r'
    unfolding drain packets
    drain-Drained zero count sends r totals h f s = absurd (omega arith)
    drain-Drained (suc fuel) count [] r totals h f s = (
      [],
      [],
      r,
      (
        refl,
        inl refl,
        ap (λ n. some (n, [], r)) (omega arith),
        Serving-same r r.clients _ _ (λ p. sym (append-nil (totals p))) s,
      ),
    )
    drain-Drained (suc fuel) count ((q, packet) ∷ sends) r totals h (f, fs) s =
        let (r₁, goes, s₁) = dispatch-Serving (lines count) q packet r totals (up count) f s in
        elim (Bool-cases (leb 100 (count + 1) && not (time_left (count + 1)))) [
          | inl stop ↦ (
            (q, packet) ∷ [],
            sends,
            r₁,
            (
              refl,
              inr (leb→le _ _ (both _ _ stop)),
              rw (le→ltb _ _ f.fits, goes, stop)
                  (ap (λ n. some (n, packets sends, r₁)) (omega arith)),
              Serving-same r₁ r₁.clients _ _
                  (λ p. ap (◌++◌ (totals p)) (sym (append-nil (share p q packet)))) s₁,
            ),
          )
          | inr on ↦
              let (done, left, r', d) =
                drain-Drained fuel (count + 1) sends r₁ (λ p. totals p ++ share p q packet)
                  (omega (arith, h)) fs s₁ in
              (
                (q, packet) ∷ done,
                left,
                r',
                Drained-step fuel count q packet sends done left r r₁ r' totals
                    (rw (le→ltb _ _ f.fits, goes, on) refl) d,
              )
        ]
