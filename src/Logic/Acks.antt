-- ===== src/Logic/Acks.antt =====
-- logicServer/logicServer.cpp, OnClientAck: the messages that wait for a consumer's acknowledgement.
use mq_cplusplus.Base.{
  ℕ, ◌+◌, ◌-◌, ◌≤◌, length, take, take-append, All-split, subst, true, false, ◌≡◌, ◌≢◌, refl, ap,
  ◌∙◌, ◌⊎◌, inl, inr, none, some, List, [], ◌∷◌, ◌++◌, ◌==◌, Bytes, arith, All, Bool-cases,
}
use mq_cplusplus.Message.Wire.{short_bytes, int_bytes, short, int, text}
use mq_cplusplus.Message.Packet.{packet, Fit, zeros, length-packet, write_fields-zeros}
use mq_cplusplus.Message.Server.{Stored}
use mq_cplusplus.Message.Request.{cmd_client_ack_message, max_name_length, max_client_package}
use mq_cplusplus.Logic.Server.{Channel, Server, done, message_gone, built, send_persis}
use mq_cplusplus.Logic.Consume.{take_acked, report_gone, on_client_ack}

-- The report of an acknowledged message: a length, a command, the queue's name in its field, and the
-- durable index.
abbrev pub acked_packet : Stored → Bytes
acked_packet m =
    short_bytes (2 + 2 + max_name_length + 4)
    ++ (short_bytes cmd_client_ack_message
        ++ ((m.queue_name ++ zeros (max_name_length - length m.queue_name))
            ++ int_bytes m.durable_index))

acked_packet_lem :
    (m : Stored)
    → length m.queue_name ≤ max_name_length
    → message_gone cmd_client_ack_message m.queue_name m.durable_index ≡ acked_packet m
unfolding message_gone built
acked_packet_lem m fits =
    let n : ℕ = 2 + 2 + max_name_length + 4 in
    let fields =
      short n
      ∷ short cmd_client_ack_message
      ∷ text m.queue_name max_name_length
      ∷ int m.durable_index
      ∷ [] in
    let fit : Fit fields = (omega arith, (omega arith, (fits, (omega arith, tt)))) in
    ap (take n) (write_fields-zeros fields max_client_package fit (omega arith))
    ∙ take-append (packet fields) (zeros (max_client_package - n)) n
        (omega (arith, length-packet fields fit))

module _ {S : Type 0} (channel : Channel S) where
  -- The first message with the number is between the others.
  take_acked-cases :
      (seq : ℕ) (ms : List Stored)
      → ((take_acked channel seq ms ≡ none) × All (λ m. m.msg_seq ≢ seq) ms)
        ⊎ ((m : Stored) × (before after : List Stored) × (take_acked channel seq ms
              ≡ some (m, before ++ after))
            × (ms ≡ before ++ m ∷ after)
            × (m.msg_seq ≡ seq)
            × All (λ x. x.msg_seq ≢ seq) before)
  unfolding take_acked
  take_acked-cases seq [] = inl (refl, tt)
  take_acked-cases seq (m ∷ ms) = elim (Bool-cases (m.msg_seq == seq)) [
    | inl e ↦ inr (m, [], ms, rw e refl, refl, ground (arith, e), tt)
    | inr e ↦ elim (take_acked-cases seq ms) [
      | inl (n, a) ↦ inl (rw (e, n) refl, (ground (arith, e), a))
      | inr (x, before, after, t, s, q, a) ↦
          inr (x, m ∷ before, after, rw (e, t) refl, ap (◌∷◌ m) s, q, (ground (arith, e), a))
    ]
  ]

  -- An acknowledgement of whatever level takes the first message with its number off the list; the others
  -- stay, in their order. A durable one is reported to the persistence server, by its queue's name, which
  -- fits its field, and its durable index; else nothing is. With no such message nothing happens.
  pub on_client_ack-cases :
      (s : Server S) (level seq : ℕ)
      → All (λ m. length m.queue_name ≤ max_name_length) s.need_ack
      → ((on_client_ack channel s level seq ≡ (done, none, s))
          × All (λ m. m.msg_seq ≢ seq) s.need_ack)
        ⊎ ((m : Stored) × (before after : List Stored) × (s.need_ack ≡ before ++ m ∷ after)
            × (m.msg_seq ≡ seq)
            × All (λ x. x.msg_seq ≢ seq) before
            × (((m.durable ≡ true)
                  × (on_client_ack channel s level seq ≡ (
                    done,
                    none,
                    record s {
                      need_ack = before ++ after;
                      to_persis = (channel.send s.to_persis (acked_packet m)).1;
                    },
                  )))
                ⊎ ((m.durable ≡ false)
                    × (on_client_ack channel s level seq
                        ≡ (done, none, record s { need_ack = before ++ after })))))
  unfolding on_client_ack report_gone send_persis
  on_client_ack-cases s level seq fit = elim (take_acked-cases seq s.need_ack) [
    | inl (n, a) ↦ inl (rw (on_client_ack, n) refl, a)
    | inr (m, before, after, t, split, q, a) ↦
        let fits =
          (All-split _ before (m ∷ after)
            (subst (All (λ m. length m.queue_name ≤ max_name_length)) split fit)).1.0 in
        elim (Bool-cases m.durable) [
          | inl e ↦ inr (
            m,
            before,
            after,
            split,
            q,
            a,
            inl (
              e,
              rw (on_client_ack, t, report_gone, e, send_persis, acked_packet_lem m fits) refl,
            ),
          )
          | inr e ↦
              inr
                (m, before, after, split, q, a, inr (e, rw (on_client_ack, t, report_gone, e) refl))
        ]
  ]
