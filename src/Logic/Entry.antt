-- ===== src/Logic/Entry.antt =====
-- logicServer/logicServer.cpp, ProcessRecvData, behind message/message.cpp: from a client's request
-- to the handler.
use mq_cplusplus.Base.{
  ℕ, ◌-◌, ◌≡◌, sym, ap, subst, ◌∙◌, ◌^◌, ◌<◌, ◌≤◌, ◌++◌, arith, take, drop, Bool, if◌then◌else◌,
  Bool-cases, inl, inr, Bytes, Option, some, take-append, take_all, append-nil, length-append,
  length-replicate,
}
use mq_cplusplus.Message.Request.{
  Request, head_len, create_exchange, create_queue, create_binding, publish, recv, subscribe,
  delete_exchange, delete_queue, cancel_subscribe, client_ack, client_exit, cmd_id,
}
use mq_cplusplus.Message.Pack.{Buffer, PackStatus, get_message_pack, success}
use mq_cplusplus.Message.Packet.{zeros, packet, length-packet}
use mq_cplusplus.Message.Packing.{packed, get_message_pack-packed}
use mq_cplusplus.Message.Fields.{IsSendable, size, fields, sets_len, fields-Fit, head_fields}
use mq_cplusplus.Message.RoundTrip.{request_round_trip}
use mq_cplusplus.Logic.Server.{Channel, Server, Outcome}
use mq_cplusplus.Logic.Declare.{on_create_exchange, on_create_queue, on_create_binding}
use mq_cplusplus.Logic.Publish.{on_publish_message}
use mq_cplusplus.Logic.Consume.{on_recv_message, on_create_subscribe, on_client_ack}
use mq_cplusplus.Logic.Remove.{
  on_delete_exchange, on_delete_queue, on_cancel_subscribe, on_client_exit,
}
use mq_cplusplus.Logic.Process.{handle, process_recv_data}

-- The body of a request, as it arrives: behind it stands what its class has sent too much.
abbrev pub body_sent : ℕ → Request → Bytes
body_sent k r = packet (fields r) ++ zeros (if sets_len r then 0 else k - size r)

body_lem :
    (index k : ℕ) (r : Request)
    → IsSendable r
    → size r ≤ k
    → drop head_len (take (packed index k r).len (packed index k r).bytes) ≡ body_sent k r
body_lem index k r h hk =
    let head = packet (head_fields (size r) index (cmd_id r) (fields r)) in
    let long = length-packet (fields r) (fields-Fit r h) in
    elim (Bool-cases (sets_len r)) [
      | inl e ↦ rw e (
          ap (drop head_len) (take-append head (zeros (k - size r)) (size r) (omega (arith, long)))
          ∙ sym (append-nil (packet (fields r))))
      | inr e ↦
          let z : ℕ = 0 in
          rw e (
            ap (drop head_len) (
              take_all (head ++ zeros (k - size r)) k (
                omega (
                  arith,
                  hk,
                  long,
                  length-append head (zeros (k - size r)),
                  length-replicate (k - size r) z,
                ))))
    ]

module _ {S : Type 0} (channel : Channel S) (now : ℕ) (s : Server S) (client : ℕ)
    (raw : Bytes) where
  -- Which handler a request is for, and what it is called with.
  pub data Reached : Request → Option (Outcome S) → Type 0 where
    creates_exchange :
        (name : Bytes) (t : ℕ) (d a : Bool)
        → Reached (create_exchange name t d a) (some (on_create_exchange channel s raw name t d a))
    creates_queue :
        (name : Bytes) (p : ℕ) (d a : Bool)
        → Reached (create_queue name p d a) (some (on_create_queue channel s raw name p d a))
    creates_binding :
        (e q k : Bytes) → Reached (create_binding e q k) (some (on_create_binding channel s e q k))
    publishes :
        (e k body : Bytes) (p : ℕ) (d : Bool) (seq level : ℕ)
        → Reached
            (publish e k body p d seq level)
            (on_publish_message channel s client e k body p d seq level)
    receives :
        (q : Bytes) (level : ℕ)
        → Reached (recv q level) (on_recv_message channel now s client q level)
    subscribes :
        (q : Bytes) (level : ℕ)
        → Reached (subscribe q level) (on_create_subscribe channel s client q level)
    deletes_exchange :
        (name : Bytes)
        → Reached (delete_exchange name) (some (on_delete_exchange channel s raw name))
    deletes_queue :
        (name : Bytes) → Reached (delete_queue name) (on_delete_queue channel s raw name)
    cancels : (q : Bytes) → Reached (cancel_subscribe q) (on_cancel_subscribe channel s client q)
    acknowledges :
        (level seq : ℕ) → Reached (client_ack level seq) (some (on_client_ack channel s level seq))
    exits : Reached client_exit (on_client_exit channel s client)

  handle-Reached : (r : Request) → Reached r (handle channel now s client raw r)
  unfolding handle
  handle-Reached (create_exchange name t d a) = creates_exchange name t d a
  handle-Reached (create_queue name p d a) = creates_queue name p d a
  handle-Reached (create_binding e q k) = creates_binding e q k
  handle-Reached (publish e k body p d seq level) = publishes e k body p d seq level
  handle-Reached (recv q level) = receives q level
  handle-Reached (subscribe q level) = subscribes q level
  handle-Reached (delete_exchange name) = deletes_exchange name
  handle-Reached (delete_queue name) = deletes_queue name
  handle-Reached (cancel_subscribe q) = cancels q
  handle-Reached (client_ack level seq) = acknowledges level seq
  handle-Reached client_exit = exits

-- A client packs a request that fits its fields into a cleared buffer with room for it; the server that
-- gets the bytes calls the handler that is written for that request, with the client's index, the
-- request's own values, and as its bytes the fields of the request, behind which zeros stand where the
-- class does not set the length.
pub process_recv_data-packed :
    {S : Type 0} (channel : Channel S) (now : ℕ) (s : Server S) (index k : ℕ) (r : Request)
    → index < 2 ^ 32
    → IsSendable r
    → size r ≤ k
    → size r < 2 ^ 16
    → (b : Buffer) × (get_message_pack index (record { bytes = zeros k; len = k }) r ≡ (success, b))
      × Reached channel now s index
          (body_sent k r)
          r
          (process_recv_data channel now s (take b.len b.bytes))
unfolding process_recv_data
process_recv_data-packed channel now s index k r hi hs hk hn =
    let (b, packs, reads) = request_round_trip index k r hi hs hk hn in
    let same : b ≡ packed index k r =
      ap (λ (p : PackStatus × Buffer). p.1)
        (sym packs ∙ get_message_pack-packed index k r hs hk hn) in
    let raw = ap (λ b. drop head_len (take b.len b.bytes)) same ∙ body_lem index k r hs hk in
    (
      b,
      packs,
      rw reads (
          subst
            (λ z. Reached channel now s index (body_sent k r) r (handle channel now s index z r))
            (sym raw) (handle-Reached channel now s index (body_sent k r) r)),
    )
