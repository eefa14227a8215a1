-- ===== src/Client/Taking.antt =====
-- client/client.cpp, RecvOnePack: the next packet of the server, as the client takes it.
use mq_cplusplus.Base.{
  ℕ, ◌+◌, ◌-◌, ◌*◌, ◌/◌, ◌%◌, ◌^◌, ◌≤◌, ◌<◌, ◌≡◌, refl, ap, ◌∙◌, true, none, some, List, ◌++◌, map,
  arith, length, take, drop, concat, if◌then◌else◌, Bytes, All, take-append, drop-append, le→ltb,
}
use mq_cplusplus.Message.Wire.{short_bytes, int_bytes, read_short, read_int}
use mq_cplusplus.Message.Request.{head_len, max_client_package}
use mq_cplusplus.Message.Wire.{Field}
use mq_cplusplus.Message.Packet.{packet, width, Fit, zeros, length-packet}
use mq_cplusplus.Message.Fields.{head_fields}
use mq_cplusplus.Connect.Packets.{IsPacket}
use mq_cplusplus.Client.Receive.{Connection, Wake, not_built, wait_pack, take_pack, recv_one_pack}
use mq_cplusplus.Client.Arriving.{arriving, server_pack, holds, begins, Waited, wait_pack-next}

pub reads_len :
    (index cmd : ℕ) (body after pending : Bytes)
    → pending ≡ server_pack index cmd body ++ after
    → head_len + length body < 2 ^ 16
    → read_short pending
      ≡ some (head_len + length body, int_bytes index ++ (short_bytes cmd ++ (body ++ after)))
unfolding read_short
reads_len index cmd body after pending e small =
    ap read_short e
    ∙ ap (λ n. some (n, int_bytes index ++ (short_bytes cmd ++ (body ++ after))))
        (omega (arith, small))

pub reads_index :
    (index : ℕ) (rest : Bytes)
    → read_int (int_bytes index ++ rest)
      ≡ some (
        index / 16777216 % 256 * 16777216
            + index / 65536 % 256 * 65536
            + index / 256 % 256 * 256
            + index % 256,
        rest,
      )
unfolding read_int
reads_index index rest = refl

pub reads_cmd :
    (cmd : ℕ) (rest : Bytes)
    → cmd < 2 ^ 16
    → read_short (short_bytes cmd ++ rest) ≡ some (cmd, rest)
unfolding read_short
reads_cmd cmd rest small = ap (λ n. some (n, rest)) (omega (arith, small))

-- The header and the body of a packet of the server, with what follows.
take_pack-server :
    (index cmd : ℕ) (body after : Bytes) (ws : List Wake) (c : Connection)
    → head_len + length body ≤ max_client_package - head_len
    → cmd < 2 ^ 16
    → c.pending ≡ server_pack index cmd body ++ after
    → take_pack ws c ≡ some (some (body, cmd), ws, holds after c)
unfolding take_pack
take_pack-server index cmd body after ws c fits small e =
    rw
      (
        take_pack,
        reads_len index cmd body after c.pending e (omega (arith, fits)),
        reads_index index (short_bytes cmd ++ (body ++ after)),
        reads_cmd cmd (body ++ after) small,
        le→ltb _ _ fits,
        le→ltb (head_len + length body) head_len (omega arith),
        take-append body after (head_len + length body - head_len) (omega arith),
        ap (drop (head_len + length body)) e
            ∙ drop-append (server_pack index cmd body) after (head_len + length body) (omega arith),
      )
      refl

pub server_pack-IsPacket :
    (index cmd : ℕ) (body : Bytes)
    → head_len + length body < 2 ^ 16
    → IsPacket (server_pack index cmd body)
unfolding read_short
server_pack-IsPacket index cmd body small = record {
  long = omega arith;
  short = omega (arith, small);
  header = ap (λ n. some (n, int_bytes index ++ (short_bytes cmd ++ body))) (omega (arith, small));
}

recv_built :
    (ws ws' : List Wake) (c c' : Connection)
    → c.build ≡ true
    → wait_pack ws c ≡ some (true, ws', c')
    → recv_one_pack ws c ≡ take_pack ws' c'
unfolding recv_one_pack
recv_built ws ws' c c' up waits =
    rw (recv_one_pack, waits)
      (ap (λ b. if b then take_pack ws' c' else some (none, ws, record c { err_msg = not_built }))
        up)

-- Where what is there and what arrives begins with a packet of the server, RecvOnePack succeeds: it
-- gives the packet's body and command, and what is there then and still arrives is what follows the
-- packet.
pub recv_one_pack-next :
    (index cmd : ℕ) (body rest : Bytes) (parts : List Bytes) (c : Connection)
    → c.build ≡ true
    → 0 < length body
    → head_len + length body ≤ max_client_package - head_len
    → cmd < 2 ^ 16
    → All (λ part. 0 < length part) parts
    → c.pending ++ concat parts ≡ server_pack index cmd body ++ rest
    → (left : List Bytes) × (pending : Bytes) × (recv_one_pack (map arriving parts) c
        ≡ some (some (body, cmd), map arriving left, holds pending c))
      × (pending ++ concat left ≡ rest)
unfolding Waited
recv_one_pack-next index cmd body rest parts c up some_body fits small k e =
    let p = server_pack index cmd body in
    let (left, pending, (waits, split, there)) =
      wait_pack-next p rest (server_pack-IsPacket index cmd body (omega (arith, fits)))
        (omega (arith, some_body)) parts c k e in
    let after = drop (length p) pending in
    let (whole, back) = begins p rest pending (concat left) there split in
    (
      left,
      after,
      recv_built (map arriving parts) (map arriving left) c (holds pending c) up waits
          ∙ take_pack-server index cmd body after (map arriving left) (holds pending c) fits small
              whole,
      back,
    )

-- The bytes that are sent of a packed buffer.
pub sent_pack :
    (index cmd n z : ℕ) (fields : List Field)
    → Fit fields
    → n ≡ head_len + width fields
    → take n (packet (head_fields n index cmd fields) ++ zeros z)
      ≡ server_pack index cmd (packet fields)
sent_pack index cmd n z fields fit e =
    take-append (packet (head_fields n index cmd fields)) (zeros z) n
      (omega (arith, e, length-packet fields fit))
    ∙ ap (λ n. short_bytes n ++ (int_bytes index ++ (short_bytes cmd ++ packet fields)))
        (omega (arith, e, length-packet fields fit))
