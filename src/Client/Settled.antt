-- ===== src/Client/Settled.antt =====
-- client/client.cpp, RecvServerAck: which messages still wait once acknowledgements were read.
use mq_cplusplus.Base.{
  ℕ, ◌+◌, ◌^◌, ◌<◌, ◌≡◌, refl, sym, ap, ◌∙◌, inl, inr, Bool, true, not, ◌&&◌, some, List, [], ◌∷◌,
  ◌++◌, map, arith, length, concat, ◌==◌, if◌then◌else◌, Bool-cases, Bytes, All,
}
use mq_cplusplus.Message.Wire.{int}
use mq_cplusplus.Message.Request.{cmd_server_ack_message}
use mq_cplusplus.Message.Packet.{packet}
use mq_cplusplus.Client.Receive.{Connection, Wake, wait_pack}
use mq_cplusplus.Client.Arriving.{server_pack, arriving, holds, Waited, wait_pack-next}
use mq_cplusplus.Client.Taking.{server_pack-IsPacket}
use mq_cplusplus.Client.Producer.{
  Producer, Unacked, has_seq, read_acks, int_le, settle, without_acked, without_up_to, without_all,
  recv_server_ack,
}
use mq_cplusplus.Client.Acknowledged.{acks, ack_bytes-pack, Reads, read_acks-next}

-- Whether a message still waits once some numbers have come: at level 1 its number is none of them, at
-- level 2 it is above all of them.
unfoldable pub above_all : ℕ → List ℕ → Bool
above_all k [] = true
above_all k (seq ∷ seqs) = not (int_le k seq) && above_all k seqs

abbrev pub waits : ℕ → List ℕ → Unacked → Bool
waits level seqs =
    if level == 1
    then (λ m. not (has_seq m.msg_seq seqs))
    else if level == 2
    then (λ m. above_all m.msg_seq seqs)
    else (λ m. true)

unfoldable pub filter : (Unacked → Bool) → List Unacked → List Unacked
filter f [] = []
filter f (m ∷ ms) = let rest = filter f ms in if f m then m ∷ rest else rest

without_acked-filter :
    (seqs : List ℕ) (ms : List Unacked)
    → without_acked seqs ms ≡ filter (λ m. not (has_seq m.msg_seq seqs)) ms
unfolding without_acked filter
without_acked-filter seqs [] = refl
without_acked-filter seqs (m ∷ ms) = elim (Bool-cases (has_seq m.msg_seq seqs)) [
  | inl e ↦ rw e (without_acked-filter seqs ms)
  | inr e ↦ rw e (ap (◌∷◌ m) (without_acked-filter seqs ms))
]

filter-without_up_to :
    (f : Unacked → Bool) (seq : ℕ) (ms : List Unacked)
    → filter f (without_up_to seq ms) ≡ filter (λ m. not (int_le m.msg_seq seq) && f m) ms
unfolding without_up_to filter
filter-without_up_to f seq [] = refl
filter-without_up_to f seq (m ∷ ms) = elim (Bool-cases (int_le m.msg_seq seq)) [
  | inl e ↦ rw e (filter-without_up_to f seq ms)
  | inr e ↦ elim (Bool-cases (f m)) [
    | inl g ↦ rw (e, g) (ap (◌∷◌ m) (filter-without_up_to f seq ms))
    | inr g ↦ rw (e, g) (filter-without_up_to f seq ms)
  ]
]

filter-true : (ms : List Unacked) → filter (λ m. true) ms ≡ ms
unfolding filter
filter-true [] = refl
filter-true (m ∷ ms) = ap (◌∷◌ m) (filter-true ms)

without_all-filter :
    (seqs : List ℕ) (ms : List Unacked)
    → without_all seqs ms ≡ filter (λ m. above_all m.msg_seq seqs) ms
unfolding without_all above_all
without_all-filter [] ms = sym (filter-true ms)
without_all-filter (seq ∷ seqs) ms =
    without_all-filter seqs (without_up_to seq ms)
    ∙ filter-without_up_to (λ m. above_all m.msg_seq seqs) seq ms

settle-filter :
    (seqs : List ℕ) (level : ℕ) (ms : List Unacked)
    → settle seqs level ms ≡ filter (waits level seqs) ms
unfolding settle
settle-filter seqs level ms = elim (Bool-cases (level == 1)) [
  | inl e ↦ rw e (without_acked-filter seqs ms)
  | inr e ↦ elim (Bool-cases (level == 2)) [
    | inl g ↦ rw (e, g) (without_all-filter seqs ms)
    | inr g ↦ rw (e, g) (sym (filter-true ms))
  ]
]

recv_acked :
    (ws ws' : List Wake) (p : Producer) (c : Connection) (seqs : List ℕ) (left : Bytes)
    → wait_pack ws p.connection ≡ some (true, ws', c)
    → read_acks (length c.pending + 1) c.pending ≡ some (seqs, left)
    → recv_server_ack ws p
      ≡ some (
        true,
        ws',
        record p {
          connection = record c { pending = left };
          need_ack = settle seqs c.confirm_level p.need_ack;
        },
      )
unfolding recv_server_ack
recv_acked ws ws' p c seqs left waits reads = rw (recv_server_ack, waits, reads) refl

-- Where what is in the receive buffer and what arrives, in parts none of which is empty, are the logic
-- server's acknowledgements of some numbers, at least one, RecvServerAck succeeds: it reads the first of
-- them, at least one, and what is there then and still arrives are the others; of the messages that
-- waited, those stay, in their order, whose number is none of the numbers that were read (single
-- acknowledgement), or is above all of them (multiple acknowledgement).
pub recv_server_ack-settles :
    (index seq : ℕ) (seqs : List ℕ) (parts : List Bytes) (p : Producer)
    → All (λ seq. seq < 2 ^ 32) (seq ∷ seqs)
    → All (λ part. 0 < length part) parts
    → p.connection.pending ++ concat parts ≡ acks index (seq ∷ seqs)
    → (front : List ℕ) × (back : List ℕ) × (left : List Bytes) × (pending : Bytes)
      × (recv_server_ack (map arriving parts) p
          ≡ some (
            true,
            map arriving left,
            record p {
              connection = holds pending p.connection;
              need_ack = filter (waits p.connection.confirm_level front) p.need_ack;
            },
          ))
      × (front ++ back ≡ seq ∷ seqs)
      × (0 < length front)
      × (pending ++ concat left ≡ acks index back)
unfolding Waited Reads
recv_server_ack-settles index seq seqs parts p k some_parts e =
    let pack = server_pack index cmd_server_ack_message (packet (int seq ∷ [])) in
    let whole : acks index (seq ∷ seqs) ≡ pack ++ acks index seqs =
      ap (λ z. z ++ acks index seqs) (ack_bytes-pack index seq) in
    let (left, pending, (waited, split, there)) =
      wait_pack-next pack (acks index seqs)
        (server_pack-IsPacket index cmd_server_ack_message (packet (int seq ∷ [])) (omega arith))
        (omega arith) parts p.connection some_parts (e ∙ whole) in
    let (front, back, (rest, reads, same, follows, some_read)) =
      read_acks-next index (seq ∷ seqs) (length pending + 1) pending (concat left) k
        (split ∙ sym whole) (omega arith) in
    (
      front,
      back,
      left,
      rest,
      recv_acked (map arriving parts) (map arriving left) p (holds pending p.connection) front rest
            waited reads
          ∙ ap
              (λ ms. some (
                true,
                map arriving left,
                record p { connection = holds rest p.connection; need_ack = ms },
              ))
              (settle-filter front p.connection.confirm_level p.need_ack),
      same,
      elim some_read [ inl few ↦ absurd (omega (arith, few, there)) | inr some_front ↦ some_front ],
      follows,
    )
