-- ===== src/Message/RoundTrip.antt =====
-- message/message.cpp against logicServer/logicServer.cpp: what a client packs, the server reads.
use mq_cplusplus.Base.{
  ℕ, zero, ◌-◌, ◌^◌, ◌<◌, ◌≤◌, ◌≡◌, refl, sym, ap, ◌∙◌, Bool, true, false, some, List, [], ◌++◌,
  arith, length, take, Bytes, append-nil, take-append, take_all, if◌then◌else◌, length-append,
  length-replicate,
}
use mq_cplusplus.Message.Wire.{Field}
use mq_cplusplus.Message.Request.{
  Request, create_exchange, create_queue, create_binding, publish, recv, subscribe, delete_exchange,
  delete_queue, cancel_subscribe, client_ack, client_exit, cmd_id,
}
use mq_cplusplus.Message.Pack.{get_message_pack, Buffer, success}
use mq_cplusplus.Message.Read.{request, parse}
use mq_cplusplus.Message.Packet.{zeros, packet, Fit, length-packet}
use mq_cplusplus.Message.Fields.{fields, IsSendable, size, sets_len, fields-Fit, head_fields}
use mq_cplusplus.Message.Reading.{packet_on, packet-packet_on, Ends, parse-packet}
use mq_cplusplus.Message.Packing.{packed, get_message_pack-packed}

-- What is sent behind the packet: the rest of the buffer, where the class does not say how long
-- the packet is.
abbrev trail : ℕ → Request → Bytes
trail k r = if sets_len r then [] else zeros (k - size r)

trail-Ends : (k : ℕ) (r : Request) → Ends r (trail k r)
trail-Ends k (create_exchange _ _ _ _) = tt
trail-Ends k (create_queue _ _ _ _) = tt
trail-Ends k (create_binding _ _ _) = tt
trail-Ends k (publish _ _ _ _ _ _ _) = refl
trail-Ends k (recv _ _) = tt
trail-Ends k (subscribe _ _) = tt
trail-Ends k (delete_exchange _) = tt
trail-Ends k (delete_queue _) = tt
trail-Ends k (cancel_subscribe _) = tt
trail-Ends k (client_ack _ _) = tt
trail-Ends k client_exit = tt

take-sent :
    (sets : Bool) (p : Bytes) (n k : ℕ)
    → n ≡ length p
    → n ≤ k
    → take (if sets then n else k) (p ++ zeros (k - n)) ≡ p ++ (if sets then [] else zeros (k - n))
take-sent true p n k e h = take-append p (zeros (k - n)) n e ∙ sym (append-nil p)
take-sent false p n k e h =
    take_all (p ++ zeros (k - n)) k
      (omega (arith, length-append p (zeros (k - n)), length-replicate (k - n) zero))

-- A client packs a request whose names are shorter than their arrays, whose numbers fit their
-- fields and whose packet is shorter than 2^16 into a cleared buffer that has room for it. The pack
-- succeeds, and from what is then sent the logic server reads the same request, with the client's
-- index, the command of its class and the length of its packet; also where the class leaves
-- `*iopBuffLen` as it was and the whole buffer is sent.
pub request_round_trip :
    (index k : ℕ) (r : Request)
    → index < 2 ^ 32
    → IsSendable r
    → size r ≤ k
    → size r < 2 ^ 16
    → (b : Buffer) × (get_message_pack index (record { bytes = zeros k; len = k }) r ≡ (success, b))
      × (parse (take b.len b.bytes)
          ≡ some (request (record { pack_len = size r; client_index = index; cmd = cmd_id r }) r))
request_round_trip index k r hi hs hk hn = (
  packed index k r,
  get_message_pack-packed index k r hs hk hn,
  ap parse sent ∙ parse-packet index (size r) r (trail k r) hi hn hs (trail-Ends k r) fills,
)
  where
    header : List Field
    header = head_fields (size r) index (cmd_id r) (fields r)

    fits : Fit header
    fits = (omega arith, (omega arith, (omega arith, fields-Fit r hs)))

    long : size r ≡ length (packet header)
    long = omega (arith, length-packet header fits)

    fills : size r ≤ length (packet_on header (trail k r))
    fills = omega (
      arith,
      long,
      length-append (packet header) (trail k r),
      ap length (packet-packet_on header (trail k r)),
    )

    sent : take (packed index k r).len (packed index k r).bytes ≡ packet_on header (trail k r)
    sent =
        take-sent (sets_len r) (packet header) (size r) k long hk
        ∙ packet-packet_on header (trail k r)
