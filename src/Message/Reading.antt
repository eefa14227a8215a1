-- ===== src/Message/Reading.antt =====
-- logicServer/logicServer.cpp: what the server reads of a packet that is laid out as the fields of a
-- request.
use mq_cplusplus.Base.{
  ℕ, ◌-◌, ◌^◌, ◌<◌, ◌≤◌, ◌≡◌, refl, ap, ◌∙◌, Bool, some, List, [], ◌∷◌, ◌++◌, arith, length, Bytes,
  append_assoc, append-nil, le→ltb,
}
use mq_cplusplus.Message.Wire.{Field, short, byte, bool, text}
use mq_cplusplus.Message.Request.{
  Request, create_exchange, create_queue, create_binding, publish, recv, subscribe, delete_exchange,
  delete_queue, cancel_subscribe, client_ack, client_exit, max_name_length, cmd_id,
}
use mq_cplusplus.Message.Read.{
  request, read_named_flags, read_binding, read_publish, read_name_level, read_ack, read_body,
  parse_rest, parse,
}
use mq_cplusplus.Message.Packet.{
  zeros, padded, packet, read_short-padded, read_int-padded, read_byte-padded, read_bool-padded,
  read_name-padded,
}
use mq_cplusplus.Message.Fields.{fields, IsShortName, IsSendable, head_fields}

-- The packet with more bytes behind it.
abbrev pub packet_on : List Field → Bytes → Bytes
packet_on [] rest = rest
packet_on (f ∷ fs) rest = padded f ++ packet_on fs rest

pub packet-packet_on : (fs : List Field) (rest : Bytes) → packet fs ++ rest ≡ packet_on fs rest
packet-packet_on [] rest = refl
packet-packet_on (f ∷ fs) rest =
    append_assoc (padded f) (packet fs) rest ∙ ap (◌++◌ (padded f)) (packet-packet_on fs rest)

-- Where a request does not end with its last field: the body of a message is what is left.
abbrev pub Ends : Request → Bytes → Type 0
Ends (publish _ _ _ _ _ _ _) rest = rest ≡ []
Ends _ rest = Unit

read_named_flags-packet :
    (name : Bytes) (t : ℕ) (d a : Bool) (rest : Bytes)
    → IsShortName name
    → t < 2 ^ 16
    → read_named_flags (packet_on (text name max_name_length ∷ short t ∷ bool d ∷ bool a ∷ []) rest)
      ≡ some (name, t, d, a)
unfolding read_named_flags
read_named_flags-packet name t d a rest n h = rw (
  read_name-padded _ name n.0 n.1,
  read_short-padded _ t h,
  read_bool-padded _ d,
  read_bool-padded _ a,
)

read_name_level-packet :
    (q : Bytes) (c : ℕ) (rest : Bytes)
    → IsShortName q
    → c < 256
    → read_name_level (packet_on (text q max_name_length ∷ byte c ∷ []) rest) ≡ some (q, c)
unfolding read_name_level
read_name_level-packet q c rest n h = rw (read_name-padded _ q n.0 n.1, read_byte-padded _ c h)

body-padded : (body : Bytes) → padded (text body (length body)) ++ [] ≡ body
body-padded body =
    append-nil (padded (text body (length body)))
    ∙ ap (λ n. body ++ zeros n) {x = length body - length body} {y = 0} (omega arith)
    ∙ append-nil body

-- The switch and the handler's reads find the request again.
read_body-fields :
    (r : Request) (rest : Bytes)
    → IsSendable r
    → Ends r rest
    → read_body (cmd_id r) (packet_on (fields r) rest) ≡ some (some r)
unfolding read_body cmd_id read_binding read_publish read_ack
read_body-fields (create_exchange name t d a) rest (n, h) e =
    rw (read_named_flags-packet name t d a rest n h)
read_body-fields (create_queue name p d a) rest (n, h) e =
    rw (read_named_flags-packet name p d a rest n h)
read_body-fields (create_binding x q k) rest (hx, hq, hk) e =
    rw (
      read_name-padded _ x hx.0 hx.1,
      read_name-padded _ q hq.0 hq.1,
      read_name-padded _ k hk.0 hk.1,
    )
read_body-fields (publish x k body p d s c) rest (hx, hk, hp, hs, hc) e = rw (
  e,
  read_name-padded _ x hx.0 hx.1,
  read_name-padded _ k hk.0 hk.1,
  read_short-padded _ p hp,
  read_bool-padded _ d,
  read_int-padded _ s hs,
  read_byte-padded _ c hc,
  body-padded body,
)
read_body-fields (recv q c) rest (n, h) e = rw (read_name_level-packet q c rest n h)
read_body-fields (subscribe q c) rest (n, h) e = rw (read_name_level-packet q c rest n h)
read_body-fields (delete_exchange n) rest h e = rw (read_name-padded _ n h.0 h.1)
read_body-fields (delete_queue n) rest h e = rw (read_name-padded _ n h.0 h.1)
read_body-fields (cancel_subscribe n) rest h e = rw (read_name-padded _ n h.0 h.1)
read_body-fields (client_ack c s) rest (hc, hs) e =
    rw (read_byte-padded _ c hc, read_int-padded _ s hs)
read_body-fields client_exit rest h e = refl

cmd_id_lt : (r : Request) → cmd_id r < 2 ^ 16
unfolding cmd_id
cmd_id_lt (create_exchange _ _ _ _) = omega arith
cmd_id_lt (create_queue _ _ _ _) = omega arith
cmd_id_lt (create_binding _ _ _) = omega arith
cmd_id_lt (publish _ _ _ _ _ _ _) = omega arith
cmd_id_lt (recv _ _) = omega arith
cmd_id_lt (subscribe _ _) = omega arith
cmd_id_lt (delete_exchange _) = omega arith
cmd_id_lt (delete_queue _) = omega arith
cmd_id_lt (cancel_subscribe _) = omega arith
cmd_id_lt (client_ack _ _) = omega arith
cmd_id_lt client_exit = omega arith

pub parse-packet :
    (index n : ℕ) (r : Request) (rest : Bytes)
    → index < 2 ^ 32
    → n < 2 ^ 16
    → IsSendable r
    → Ends r rest
    → n ≤ length (packet_on (head_fields n index (cmd_id r) (fields r)) rest)
    → parse (packet_on (head_fields n index (cmd_id r) (fields r)) rest)
      ≡ some (request (record { pack_len = n; client_index = index; cmd = cmd_id r }) r)
unfolding parse parse_rest
parse-packet index n r rest hi hn hs he hl = rw (
  read_short-padded _ n hn,
  le→ltb _ n hl,
  read_int-padded _ index hi,
  read_short-padded _ (cmd_id r) (cmd_id_lt r),
  read_body-fields r rest hs he,
)
