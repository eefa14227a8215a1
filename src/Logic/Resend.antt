-- ===== src/Logic/Resend.antt =====
-- logicServer/logicServer.cpp, ReSendMsg. `now` is what gettimeofday gives, in microseconds: one time
-- stands for all that one call asks for.
use mq_cplusplus.Base.{
  ℕ, zero, suc, ◌*◌, ◌-◌, ◌/◌, ◌%◌, ◌^◌, ◌≤◌, ◌≡◌, refl, sym, ap, ◌∙◌, inl, inr, Bool, false, ◌&&◌,
  List, [], ◌∷◌, ◌++◌, arith, ltb, leb, if◌then◌else◌, length, Bool-cases, append_assoc, append-nil,
}
use mq_cplusplus.Message.Server.{Stored}
use mq_cplusplus.Logic.Server.{Channel, Server, send_connect, stored_bytes}

-- `iWaitTime`, an `int`, of milliseconds; a time before the saved one gives none that is due.
unfoldable pub wait_time : ℕ → Stored → ℕ
wait_time now m = (now - m.save_time) / 1000 % 2 ^ 32

unfoldable pub is_due : ℕ → Stored → Bool
is_due now m = leb (3 * 1000 * 1000) (wait_time now m) && ltb (wait_time now m) (2 ^ 31)

abbrev pub stamp : ℕ → Stored → Stored
stamp now m = record m { save_time = now }

-- The messages that are due, from the front of the list up to the first that is not, and what is
-- behind them.
unfoldable pub due_prefix : ℕ → List Stored → List Stored
due_prefix now [] = []
due_prefix now (m ∷ ms) = if is_due now m then m ∷ due_prefix now ms else []

unfoldable pub after_prefix : ℕ → List Stored → List Stored
after_prefix now [] = []
after_prefix now (m ∷ ms) = if is_due now m then after_prefix now ms else m ∷ ms

unfoldable pub stamp_all : ℕ → List Stored → List Stored
stamp_all now [] = []
stamp_all now (m ∷ ms) = stamp now m ∷ stamp_all now ms

stamp_all-append :
    (now : ℕ) (ms bs : List Stored)
    → stamp_all now (ms ++ bs) ≡ stamp_all now ms ++ stamp_all now bs
unfolding stamp_all
stamp_all-append now [] bs = refl
stamp_all-append now (m ∷ ms) bs = ap (λ l. stamp now m ∷ l) (stamp_all-append now ms bs)

stamp-is_due : (now : ℕ) (m : Stored) → is_due now (stamp now m) ≡ false
unfolding is_due wait_time
stamp-is_due now m = rw none_passed refl
  where
    none_passed : now - now ≡ 0
    none_passed = omega arith

module _ {S : Type 0} (channel : Channel S) where
  -- The loop: at most `fuel` messages. The packet is made before the time is saved anew.
  unfoldable pub resend : ℕ → ℕ → Server S → Server S
  resend zero now s = s
  resend (suc fuel) now s = elim s.need_ack [
    | [] ↦ s
    | m ∷ ms ↦
        let rest = resend fuel now (
          send_connect channel (record s { need_ack = ms ++ stamp now m ∷ [] }) (stored_bytes m)) in
        if is_due now m then rest else s
  ]

  -- Each of the messages is sent, in order.
  pub send_each : List Stored → Server S → Server S
  send_each [] s = s
  send_each (m ∷ ms) s = send_each ms (send_connect channel s (stored_bytes m))

  resend-stamped :
      (k now : ℕ) (bs : List Stored) (s : Server S)
      → resend k now (record s { need_ack = stamp_all now bs })
        ≡ record s { need_ack = stamp_all now bs }
  unfolding resend stamp_all
  resend-stamped zero now bs s = refl
  resend-stamped (suc k) now [] s = refl
  resend-stamped (suc k) now (b ∷ bs) s = rw (stamp-is_due now b) refl

  resend-from :
      (ms bs : List Stored) (k now : ℕ) (s : Server S)
      → length ms ≤ k
      → resend k now (record s { need_ack = ms ++ stamp_all now bs })
        ≡ record (send_each (due_prefix now ms) s) {
          need_ack = after_prefix now ms ++ stamp_all now (bs ++ due_prefix now ms);
        }
  unfolding resend send_each send_connect due_prefix after_prefix stamp_all
  resend-from [] bs k now s h =
      resend-stamped k now bs s
      ∙ ap (λ l. record s { need_ack = stamp_all now l }) (sym (append-nil bs))
  resend-from (m ∷ ms) bs zero now s h = absurd (omega (arith, h))
  resend-from (m ∷ ms) bs (suc k) now s h = elim (Bool-cases (is_due now m)) [
    | inl e ↦ rw e (
        ap (λ l. resend k now (record sent { need_ack = l })) moved
        ∙ resend-from ms (bs ++ m ∷ []) k now sent (omega (arith, h))
        ∙ ap
            (λ l. record (send_each (due_prefix now ms) sent) {
              need_ack = after_prefix now ms ++ stamp_all now l;
            })
            (append_assoc bs (m ∷ []) (due_prefix now ms)))
    | inr e ↦
        rw e (ap (λ l. record s { need_ack = m ∷ (ms ++ stamp_all now l) }) (sym (append-nil bs)))
  ]
    where
      sent : Server S
      sent = send_connect channel s (stored_bytes m)

      moved : (ms ++ stamp_all now bs) ++ stamp now m ∷ [] ≡ ms ++ stamp_all now (bs ++ m ∷ [])
      moved =
          append_assoc ms (stamp_all now bs) (stamp now m ∷ [])
          ∙ ap (λ l. ms ++ l) (sym (stamp_all-append now bs (m ∷ [])))

  -- ReSendMsg.
  unfoldable pub resend_msg : ℕ → Server S → Server S
  resend_msg now s = resend (length s.need_ack) now s

  -- ReSendMsg sends each message from the front of the list of those that wait for an acknowledgement
  -- up to the first that is not due, once and in order, and moves it with the new time behind those
  -- that stay; a loop with more rounds, at the same time, comes to the same state.
  pub resend_msg-settles :
      (k now : ℕ) (s : Server S)
      → length s.need_ack ≤ k
      → (resend_msg now s ≡ record (send_each (due_prefix now s.need_ack) s) {
        need_ack = after_prefix now s.need_ack ++ stamp_all now (due_prefix now s.need_ack);
      })
        × (resend k now s ≡ resend_msg now s)
  unfolding resend_msg stamp_all
  resend_msg-settles k now s h =
      (settled _ (omega arith), settled k h ∙ sym (settled _ (omega arith)))
    where
      settled :
          (j : ℕ)
          → length s.need_ack ≤ j
          → resend j now s ≡ record (send_each (due_prefix now s.need_ack) s) {
            need_ack = after_prefix now s.need_ack ++ stamp_all now (due_prefix now s.need_ack);
          }
      settled j enough =
          ap (λ l. resend j now (record s { need_ack = l })) (sym (append-nil s.need_ack))
          ∙ resend-from s.need_ack [] j now s enough
