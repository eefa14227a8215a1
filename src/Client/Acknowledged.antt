-- ===== src/Client/Acknowledged.antt =====
-- client/client.cpp, RecvServerAck: the acknowledgements of the logic server, as the producer reads them.
use mq_cplusplus.Base.{
  ℕ, zero, suc, ◌+◌, ◌-◌, ◌^◌, ◌≤◌, ◌<◌, ◌≡◌, refl, ap, ◌∙◌, inl, inr, ◌⊎◌, true, some, List, [],
  ◌∷◌, ◌++◌, map, arith, length, drop, concat, ltb, le→ltb, ltb→lt, ltb→le, lt→ltb, Bool-cases,
  Bytes, All, length-append,
}
use mq_cplusplus.Message.Wire.{int, short_bytes}
use mq_cplusplus.Message.Request.{head_len, max_client_package, cmd_server_ack_message}
use mq_cplusplus.Message.Server.{server_ack_pack}
use mq_cplusplus.Message.Packet.{packet, Fit, read_int-padded}
use mq_cplusplus.Message.Packing.{write_pack-packed}
use mq_cplusplus.Logic.Server.{ack_bytes}
use mq_cplusplus.Client.Arriving.{server_pack, begins, read_short-next}
use mq_cplusplus.Client.Taking.{reads_len, reads_index, reads_cmd, sent_pack, server_pack-IsPacket}
use mq_cplusplus.Client.Producer.{read_acks}

ack_fields-Fit : (seq : ℕ) → Fit (int seq ∷ [])
ack_fields-Fit seq = (omega arith, tt)

pub ack_bytes-pack :
    (index seq : ℕ)
    → ack_bytes index seq ≡ server_pack index cmd_server_ack_message (packet (int seq ∷ []))
unfolding ack_bytes server_ack_pack
ack_bytes-pack index seq =
    rw
      (
        ack_bytes,
        server_ack_pack,
        write_pack-packed (head_len + 4) index cmd_server_ack_message max_client_package true
            (int seq ∷ []) (ack_fields-Fit seq) refl (omega arith) (omega arith),
      )
      (sent_pack index cmd_server_ack_message (head_len + 4) (max_client_package - (head_len + 4))
        (int seq ∷ []) (ack_fields-Fit seq) refl)

-- The acknowledgements that go to one client.
abbrev pub acks : ℕ → List ℕ → Bytes
acks index seqs = concat (map (ack_bytes index) seqs)

length-ack_bytes : (index seq : ℕ) → length (ack_bytes index seq) ≡ 12
length-ack_bytes index seq = ap length (ack_bytes-pack index seq)

read_acks-one :
    (fuel index seq : ℕ) (after pending : Bytes) (seqs : List ℕ) (left : Bytes)
    → seq < 2 ^ 32
    → pending ≡ ack_bytes index seq ++ after
    → read_acks fuel after ≡ some (seqs, left)
    → read_acks (suc fuel) pending ≡ some (seq ∷ seqs, left)
unfolding read_acks
read_acks-one fuel index seq after pending seqs left s e reads =
    let e' : pending ≡ server_pack index cmd_server_ack_message (packet (int seq ∷ [])) ++ after =
      e ∙ ap (λ z. z ++ after) (ack_bytes-pack index seq) in
    let long : length pending ≡ 12 + length after = omega (arith, ap length e') in
    rw
      (
        read_acks,
        le→ltb (length pending) head_len (omega (arith, long)),
        reads_len index cmd_server_ack_message (packet (int seq ∷ [])) after pending e'
            (omega arith),
        le→ltb (length pending) (head_len + 4) (omega (arith, long)),
        reads_index index (short_bytes cmd_server_ack_message ++ (packet (int seq ∷ []) ++ after)),
        reads_cmd cmd_server_ack_message (packet (int seq ∷ []) ++ after) (omega arith),
        read_int-padded after seq s,
        ap (drop 12) e',
        reads,
      )
      refl

-- What is less than an acknowledgement stays.
read_acks-few :
    (fuel index seq : ℕ) (pending behind after : Bytes)
    → pending ++ behind ≡ ack_bytes index seq ++ after
    → length pending < 12
    → read_acks (suc fuel) pending ≡ some ([], pending)
unfolding read_acks
read_acks-few fuel index seq pending behind after e few =
    elim (Bool-cases (ltb (length pending) head_len)) [
      | inl no_head ↦ rw (read_acks, no_head) refl
      | inr head ↦
          let p = server_pack index cmd_server_ack_message (packet (int seq ∷ [])) in
          let (r, reads) =
            read_short-next p after
              (server_pack-IsPacket index cmd_server_ack_message (packet (int seq ∷ []))
                (omega arith))
              (omega arith) pending behind (e ∙ ap (λ z. z ++ after) (ack_bytes-pack index seq))
              (omega (arith, ltb→le _ _ head)) in
          rw (read_acks, head, reads, lt→ltb (length pending) 12 few) refl
    ]

-- The loop reads the acknowledgements that are there whole, and leaves the others.
unfoldable pub Reads : ℕ → ℕ → Bytes → Bytes → List ℕ → List ℕ → List ℕ → Type 0
Reads fuel index pending behind seqs front back =
    (left : Bytes) × (read_acks fuel pending ≡ some (front, left))
    × (front ++ back ≡ seqs)
    × (left ++ behind ≡ acks index back)
    × ((length pending < 12) ⊎ (0 < length front))

pub read_acks-next :
    (index : ℕ) (seqs : List ℕ) (fuel : ℕ) (pending behind : Bytes)
    → All (λ seq. seq < 2 ^ 32) seqs
    → pending ++ behind ≡ acks index seqs
    → length pending < fuel
    → (front : List ℕ) × (back : List ℕ) × Reads fuel index pending behind seqs front back
unfolding Reads read_acks
read_acks-next index seqs zero pending behind k e f = absurd (omega (arith, f))
read_acks-next index [] (suc fuel) pending behind k e f = (
  [],
  [],
  (
    pending,
    rw (lt→ltb (length pending) head_len (omega (arith, ap length e, length-append pending behind)))
        refl,
    refl,
    e,
    inl (omega (arith, ap length e, length-append pending behind)),
  ),
)
read_acks-next index (seq ∷ seqs) (suc fuel) pending behind (s, k) e f =
    elim (Bool-cases (ltb (length pending) 12)) [
      | inl few ↦ (
        [],
        seq ∷ seqs,
        (
          pending,
          read_acks-few fuel index seq pending behind (acks index seqs) e (ltb→lt _ _ few),
          refl,
          e,
          inl (ltb→lt _ _ few),
        ),
      )
      | inr there ↦
          let long : length (ack_bytes index seq) ≤ length pending =
            omega (arith, length-ack_bytes index seq, ltb→le _ _ there) in
          let after = drop (length (ack_bytes index seq)) pending in
          let (whole, more) =
            begins (ack_bytes index seq) (acks index seqs) pending behind long e in
          let (front, back, (left, reads, same, follows, some_read)) =
            read_acks-next index seqs fuel after behind k more (
              omega (
                arith,
                f,
                ap length whole,
                length-append (ack_bytes index seq) after,
                length-ack_bytes index seq,
              )) in
          (
            seq ∷ front,
            back,
            (
              left,
              read_acks-one fuel index seq after pending front left s whole reads,
              ap (◌∷◌ seq) same,
              follows,
              inr (omega arith),
            ),
          )
    ]
