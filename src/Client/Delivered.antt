-- ===== src/Client/Delivered.antt =====
-- client/client.cpp and message/message.cpp: a message that the server packs, as ConsumeMessage reads it.
use mq_cplusplus.Base.{
  ℕ, ◌+◌, ◌-◌, ◌^◌, ◌≤◌, ◌<◌, ◌≡◌, ◌≢◌, refl, ap, ◌∙◌, inl, inr, true, not, ◌&&◌, Option, none,
  some, List, [], ◌∷◌, ◌++◌, map, arith, length, concat, ltb, ◌==◌, ==_iff, if◌then◌else◌,
  Bool-cases, if_true, Bytes, All, append-nil,
}
use mq_cplusplus.Message.Wire.{Field, int, byte, text}
use mq_cplusplus.Message.Request.{head_len, max_client_package}
use mq_cplusplus.Message.Server.{Stored, stored_pack}
use mq_cplusplus.Message.Packet.{
  packet, padded, Fit, zeros, length-packet, read_byte-padded, read_int-padded,
}
use mq_cplusplus.Message.Packing.{write_pack-packed}
use mq_cplusplus.Logic.Server.{stored_bytes}
use mq_cplusplus.Client.Receive.{Wake, Sending, recv_one_pack}
use mq_cplusplus.Client.Arriving.{arriving, server_pack}
use mq_cplusplus.Client.Taking.{recv_one_pack-next, sent_pack}
use mq_cplusplus.Client.Producer.{has_seq}
use mq_cplusplus.Client.Consumer.{
  Consumer, Delivery, read_delivery, deliver_to, note_seq, keep_ack, by_hand, consume_message,
}

abbrev stored_fields : Stored → List Field
stored_fields m = byte m.confirm_level ∷ int m.msg_seq ∷ text m.body (length m.body) ∷ []

stored_fields-Fit : (m : Stored) → Fit (stored_fields m)
stored_fields-Fit m = (omega arith, (omega arith, (omega arith, tt)))

pub stored_bytes-pack :
    (m : Stored)
    → head_len + 5 + length m.body ≤ max_client_package
    → stored_bytes m ≡ server_pack m.index m.cmd (packet (stored_fields m))
unfolding stored_bytes stored_pack
stored_bytes-pack m fits =
    let n : ℕ = head_len + 1 + 4 + length m.body in
    rw
      (
        stored_bytes,
        stored_pack,
        write_pack-packed n m.index m.cmd max_client_package true (stored_fields m)
            (stored_fields-Fit m) (omega arith) (omega (arith, fits)) (omega (arith, fits)),
      )
      (sent_pack m.index m.cmd n (max_client_package - n) (stored_fields m) (stored_fields-Fit m)
        (omega arith))

abbrev delivery : Stored → Delivery
delivery m = record { level = m.confirm_level; seq = m.msg_seq; body = m.body }

text-whole : (s : Bytes) → packet (text s (length s) ∷ []) ≡ s
text-whole s =
    append-nil (padded (text s (length s)))
    ∙ ap (λ n. s ++ zeros n) {x = length s - length s} {y = 0} (omega arith)
    ∙ append-nil s

read_delivery-stored :
    (m : Stored)
    → m.confirm_level < 256
    → m.msg_seq < 2 ^ 32
    → read_delivery (packet (stored_fields m)) ≡ some (delivery m)
unfolding read_delivery
read_delivery-stored m l s =
    rw
      (
        read_delivery,
        read_byte-padded (packet (int m.msg_seq ∷ text m.body (length m.body) ∷ [])) m.confirm_level
            l,
        read_int-padded (packet (text m.body (length m.body) ∷ [])) m.msg_seq s,
      )
      (ap (λ b. some (record { level = m.confirm_level; seq = m.msg_seq; body = b }))
        (text-whole m.body))

-- What a consumer gives out of a message, and what it is then.
abbrev taken : Stored → Consumer → Option Bytes × Consumer
taken m c = note_seq (delivery m) (keep_ack (delivery m) c)

abbrev behind : Bytes → Consumer → Consumer
behind pending c = record c { connection = record (c.connection) { pending = pending } }

consume_received :
    (line : Sending) (m : Stored) (ws ws' : List Wake) (c : Consumer) (pending : Bytes)
    → c.connection.build ≡ true
    → m.confirm_level < 256
    → m.confirm_level ≢ 1
    → m.msg_seq < 2 ^ 32
    → recv_one_pack ws c.connection
      ≡ some
          (some (packet (stored_fields m), m.cmd), ws', record (c.connection) { pending = pending })
    → consume_message line ws c
      ≡ some ((taken m (behind pending c)).0, [], ws', (taken m (behind pending c)).1)
unfolding consume_message deliver_to
consume_received line m ws ws' c pending up l other s e = elim (Bool-cases (m.confirm_level == 1)) [
  | inl one ↦ absurd (other ((==_iff _ _).0 one))
  | inr not_one ↦ rw (consume_message, e, read_delivery-stored m l s, not_one) (if_true _ _ up)
]

-- What ConsumeMessage makes of a message of the queue, which the consumer has seen or not.
pub Takes : Stored → Consumer → Option Bytes → Consumer → Type 0
Takes m c body c' =
    (body ≡ (if has_seq m.msg_seq c.seq_set then none else some m.body))
    × (c'.seq_set ≡ (
        if not (has_seq m.msg_seq c.seq_set) && ltb 0 m.confirm_level
        then m.msg_seq ∷ c.seq_set
        else c.seq_set))
    × (c'.ack_seq ≡ (if by_hand m.confirm_level then m.msg_seq else c.ack_seq))
    × (c'.connection.confirm_level
        ≡ (if by_hand m.confirm_level then m.confirm_level else c.connection.confirm_level))

taken-Takes :
    (m : Stored) (c : Consumer) (pending : Bytes)
    → Takes m c (taken m (behind pending c)).0 (taken m (behind pending c)).1
      × ((taken m (behind pending c)).1.connection.pending ≡ pending)
unfolding Takes note_seq keep_ack
taken-Takes m c pending = elim (Bool-cases (by_hand m.confirm_level)) [
  | inl hand ↦ elim (Bool-cases (has_seq m.msg_seq c.seq_set)) [
    | inl old ↦ rw (hand, old) ((refl, refl, refl, refl), refl)
    | inr new ↦ rw (hand, new) ((refl, refl, refl, refl), refl)
  ]
  | inr auto ↦ elim (Bool-cases (has_seq m.msg_seq c.seq_set)) [
    | inl old ↦ rw (auto, old) ((refl, refl, refl, refl), refl)
    | inr new ↦ rw (auto, new) ((refl, refl, refl, refl), refl)
  ]
]

-- Where what is in the receive buffer and what arrives, in parts none of which is empty, begins with a
-- message that the logic server packed, whose level is not that of the acknowledgement at once and
-- whose body fits, ConsumeMessage of a connection that is built returns and sends nothing: it gives the
-- body if the number was not there before, and else nothing; a new number is kept if the level is above
-- 0; the number and the level that SendConsumerAck acknowledges with are this message's if its level is
-- one of those by hand, and else stay; and what is there then and still arrives is what follows the message.
pub consume_message-delivers :
    (line : Sending) (m : Stored) (rest : Bytes) (parts : List Bytes) (c : Consumer)
    → c.connection.build ≡ true
    → head_len + 5 + length m.body ≤ max_client_package - head_len
    → m.cmd < 2 ^ 16
    → m.confirm_level < 256
    → m.confirm_level ≢ 1
    → m.msg_seq < 2 ^ 32
    → All (λ part. 0 < length part) parts
    → c.connection.pending ++ concat parts ≡ stored_bytes m ++ rest
    → (left : List Bytes) × (body : Option Bytes) × (c' : Consumer) × (consume_message line
          (map arriving parts)
          c
        ≡ some (body, [], map arriving left, c'))
      × Takes m c body c'
      × (c'.connection.pending ++ concat left ≡ rest)
consume_message-delivers line m rest parts c up fits small l other s k e =
    let body = packet (stored_fields m) in
    let len : length body ≡ 5 + length m.body =
      omega (arith, length-packet (stored_fields m) (stored_fields-Fit m)) in
    let (left, pending, received, follows) =
      recv_one_pack-next m.index m.cmd body rest parts c.connection up (omega (arith, len))
        (omega (arith, len, fits)) small k
        (e ∙ ap (λ z. z ++ rest) (stored_bytes-pack m (omega (arith, fits)))) in
    let (takes, there) = taken-Takes m c pending in
    (
      left,
      (taken m (behind pending c)).0,
      (taken m (behind pending c)).1,
      consume_received line m (map arriving parts) (map arriving left) c pending up l other s
          received,
      takes,
      ap (λ z. z ++ concat left) there ∙ follows,
    )
