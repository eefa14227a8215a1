-- ===== src/Client/Arriving.antt =====
-- client/client.cpp, RecvPack and the loop around it: a packet of the server, in whatever parts it arrives.
use mq_cplusplus.Base.{
  ℕ, ◌+◌, ◌≤◌, ◌<◌, ◌≡◌, refl, sym, ap, ◌∙◌, inl, inr, Bool, true, some, List, [], ◌∷◌, ◌++◌, map,
  arith, length, take, drop, concat, ltb, leb, if◌then◌else◌, Bool-cases, Bytes, All, append-nil,
  append_assoc, length-append, length-take, take-append-drop, append-injective, le→leb, lt→leb,
  leb→le, ltb→le, ltb→lt,
}
use mq_cplusplus.Message.Wire.{short_bytes, int_bytes, read_short}
use mq_cplusplus.Message.Request.{head_len}
use mq_cplusplus.Connect.Events.{got}
use mq_cplusplus.Connect.Packets.{IsPacket, read_short-begins}
use mq_cplusplus.Client.Receive.{
  Connection, Wake, ready, complete, incomplete, wait_server_reply, has_pack, recv_more, wait_pack,
}

-- A part of the server's bytes arrives, which the buffer has room for.
abbrev pub arriving : Bytes → Wake
arriving part = record { polls = ready ∷ []; received = λ room. got part }

-- A packet of the server.
abbrev pub server_pack : ℕ → ℕ → Bytes → Bytes
server_pack index cmd body =
    short_bytes (head_len + length body) ++ (int_bytes index ++ (short_bytes cmd ++ body))

read_length : (p r : Bytes) (m : ℕ) → IsPacket p → read_short p ≡ some (m, r) → m ≡ length p
read_length p r m k e = first-injective (sym e ∙ k.header)
  where
    first-injective : {x y : ℕ × Bytes} → some x ≡ some y → x.0 ≡ y.0
    first-injective e = cc

-- A connection with some bytes in its buffer.
abbrev pub holds : Bytes → Connection → Connection
holds pending c = record c { pending = pending }

recv_more-part :
    (part : Bytes) (c : Connection) (whole : Bool)
    → 0 < length part
    → has_pack (c.pending ++ part) ≡ some whole
    → recv_more (arriving part) c
      ≡ some (if whole then complete else incomplete, holds (c.pending ++ part) c)
unfolding recv_more wait_server_reply
recv_more-part [] c whole h e = absurd (omega arith)
recv_more-part (b ∷ bs) c whole h e = rw e refl

module _ (p rest : Bytes) (k : IsPacket p) (more : head_len < length p) where
  -- The packet's length is read off the beginning of it that is there.
  pub read_short-next :
      (pending behind : Bytes)
      → pending ++ behind ≡ p ++ rest
      → 2 ≤ length pending
      → (r : Bytes) × (read_short pending ≡ some (length p, r))
  read_short-next pending behind e some_bytes =
      let (r, m, n, reads, reads_p, same) =
        read_short-begins pending behind p rest [] e some_bytes (omega (arith, k.long)) in
      let long : n ≡ length p = same ∙ read_length p (drop 2 p) m k reads_p in
      (r, ap read_short (sym (append-nil pending)) ∙ reads ∙ ap (λ n. some (n, r)) long)

  has_pack-next :
      (pending behind : Bytes)
      → pending ++ behind ≡ p ++ rest
      → has_pack pending ≡ some (leb (length p) (length pending))
  unfolding has_pack
  has_pack-next pending behind e = elim (Bool-cases (ltb head_len (length pending))) [
    | inr few ↦
        rw (has_pack, few)
          (ap some (sym (lt→leb (length p) (length pending) (omega (arith, more, ltb→le _ _ few)))))
    | inl enough ↦
        let (r, reads) = read_short-next pending behind e (omega (arith, ltb→lt _ _ enough)) in
        rw (has_pack, enough, reads) refl
  ]

  -- What the loop around RecvPack comes to.
  unfoldable pub Waited : List Bytes → Connection → List Bytes → Bytes → Type 0
  Waited parts c left pending =
      (wait_pack (map arriving parts) c ≡ some (true, map arriving left, holds pending c))
      × (pending ++ concat left ≡ p ++ rest)
      × (length p ≤ length pending)

  wait_pack-there :
      (parts : List Bytes) (c : Connection)
      → c.pending ++ concat parts ≡ p ++ rest
      → length p ≤ length c.pending
      → Waited parts c parts c.pending
  unfolding Waited wait_pack
  wait_pack-there [] c e there =
      (rw (has_pack-next c.pending [] e, le→leb _ _ there) refl, e, there)
  wait_pack-there (part ∷ parts) c e there =
      (rw (has_pack-next c.pending (concat (part ∷ parts)) e, le→leb _ _ there) refl, e, there)

  pub wait_pack-next :
      (parts : List Bytes) (c : Connection)
      → All (λ part. 0 < length part) parts
      → c.pending ++ concat parts ≡ p ++ rest
      → (left : List Bytes) × (pending : Bytes) × Waited parts c left pending
  unfolding Waited wait_pack
  wait_pack-next [] c k e = (
    [],
    c.pending,
    wait_pack-there [] c e
        (omega (arith, ap length e, length-append c.pending [], length-append p rest)),
  )
  wait_pack-next (part ∷ parts) c (some_part, k) e =
      let e' : (c.pending ++ part) ++ concat parts ≡ p ++ rest =
        append_assoc c.pending part (concat parts) ∙ e in
      let reads =
        recv_more-part part c _ some_part (has_pack-next (c.pending ++ part) (concat parts) e') in
      elim (Bool-cases (leb (length p) (length c.pending))) [
        | inl there ↦
            (part ∷ parts, c.pending, wait_pack-there (part ∷ parts) c e (leb→le _ _ there))
        | inr missing ↦ elim (Bool-cases (leb (length p) (length (c.pending ++ part)))) [
          | inl now ↦ (
            parts,
            c.pending ++ part,
            (
              rw (has_pack-next c.pending (concat (part ∷ parts)) e, missing, reads, now) refl,
              e',
              leb→le _ _ now,
            ),
          )
          | inr not_yet ↦
              let (left, pending, (waits, split, there)) =
                wait_pack-next parts (holds (c.pending ++ part) c) k e' in
              (
                left,
                pending,
                (
                  rw (has_pack-next c.pending (concat (part ∷ parts)) e, missing, reads, not_yet)
                      waits,
                  split,
                  there,
                ),
              )
        ]
      ]

-- Bytes that are there and begin with a packet are the packet and what follows it.
pub begins :
    (p rest pending behind : Bytes)
    → length p ≤ length pending
    → pending ++ behind ≡ p ++ rest
    → (pending ≡ p ++ drop (length p) pending) × (drop (length p) pending ++ behind ≡ rest)
begins p rest pending behind there e =
    let after = drop (length p) pending in
    let (front, back) =
      append-injective (take (length p) pending) (after ++ behind) p rest
        (omega (arith, length-take (length p) pending))
        (sym (append_assoc (take (length p) pending) after behind)
          ∙ ap (λ z. z ++ behind) (take-append-drop (length p) pending)
          ∙ e) in
    (sym (take-append-drop (length p) pending) ∙ ap (λ z. z ++ after) front, back)
