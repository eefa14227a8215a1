-- ===== src/Message/Packing.antt =====
-- message/message.cpp: every GetMessagePack is its names' check and its fields behind the header.
use mq_cplusplus.Base.{
  ℕ, ◌+◌, ◌-◌, ◌^◌, ◌<◌, ◌≤◌, ◌≡◌, refl, ap, ◌∙◌, Bool, true, List, [], ◌∷◌, ◌++◌, arith, length,
  Bytes, All, le→ltb, if◌then◌else◌, ◌⊎◌, inl, inr, Bool-cases, ltb→lt, ltb→le, ltb, false,
}
use mq_cplusplus.Message.Wire.{Field}
use mq_cplusplus.Message.Request.{
  Request, cmd_create_publish, create_exchange, create_queue, create_binding, publish, recv,
  subscribe, delete_exchange, delete_queue, cancel_subscribe, client_ack, client_exit,
  max_name_length, head_len, cmd_id,
}
use mq_cplusplus.Message.Pack.{
  name_too_long, buf_too_small, write_pack, msg_len, check_names, any_too_long, PackStatus,
  create_exchange_pack, create_queue_pack, create_binding_pack, publish_pack, recv_pack,
  subscribe_pack, delete_exchange_pack, delete_queue_pack, cancel_subscribe_pack, client_ack_pack,
  client_exit_pack, get_message_pack, Buffer, success,
}
use mq_cplusplus.Message.Packet.{zeros, packet, width, Fit, write_fields-zeros}
use mq_cplusplus.Message.Fields.{
  fields, IsSendable, size, names, sets_len, fields-Fit, names-short, head_fields,
}

-- Every class checks the names of its request, then writes its fields behind the header.
get_message_pack-fields :
    (index : ℕ) (b : Buffer) (r : Request)
    → get_message_pack index b r
      ≡ check_names (names r) b (write_pack (size r) (sets_len r) index (cmd_id r) (fields r) b)
unfolding get_message_pack cmd_id names create_exchange_pack create_queue_pack create_binding_pack
    publish_pack recv_pack subscribe_pack delete_exchange_pack delete_queue_pack
    cancel_subscribe_pack client_ack_pack client_exit_pack check_names any_too_long
get_message_pack-fields index b (create_exchange name t d a) = refl
get_message_pack-fields index b (create_queue name p d a) = refl
get_message_pack-fields index b (create_binding e q k) = refl
get_message_pack-fields index b (publish e k body p d s c) =
    ap
      (λ n.
        check_names (e ∷ k ∷ []) b
          (write_pack n true index cmd_create_publish (fields (publish e k body p d s c)) b))
      {x = 80 + length body} {y = size (publish e k body p d s c)} (omega arith)
get_message_pack-fields index b (recv q c) = refl
get_message_pack-fields index b (subscribe q c) = refl
get_message_pack-fields index b (delete_exchange n) = refl
get_message_pack-fields index b (delete_queue n) = refl
get_message_pack-fields index b (cancel_subscribe q) = refl
get_message_pack-fields index b (client_ack c s) = refl
get_message_pack-fields index b client_exit = refl

pub write_pack-packed :
    (n index cmd k : ℕ) (sets : Bool) (fs : List Field)
    → Fit fs
    → n ≡ head_len + width fs
    → n < 2 ^ 16
    → n ≤ k
    → write_pack n sets index cmd fs (record { bytes = zeros k; len = k }) ≡ (
      success,
      record {
        bytes = packet (head_fields n index cmd fs) ++ zeros (k - n);
        len = if sets then n else k;
      },
    )
unfolding write_pack
write_pack-packed n index cmd k sets fs fit e hn hk = rw (
  wraps,
  le→ltb k n hk,
  write_fields-zeros (head_fields n index cmd fs) k (omega arith, (omega arith, (omega arith, fit)))
      (omega arith),
  same,
)
  where
    wraps : msg_len n ≡ n
    wraps = omega arith

    same : width (head_fields n index cmd fs) ≡ n
    same = omega arith

check_names-short :
    (names : List Bytes) (b : Buffer) (p : PackStatus × Buffer)
    → All (λ s. length s < max_name_length) names
    → check_names names b p ≡ p
unfolding check_names any_too_long
check_names-short [] b p h = refl
check_names-short (s ∷ names) b p h =
    rw (le→ltb max_name_length (length s) (omega arith)) (check_names-short names b p h.1)

abbrev pub packed : ℕ → ℕ → Request → Buffer
packed index k r = record {
  bytes = packet (head_fields (size r) index (cmd_id r) (fields r)) ++ zeros (k - size r);
  len = if sets_len r then size r else k;
}

pub get_message_pack-packed :
    (index k : ℕ) (r : Request)
    → IsSendable r
    → size r ≤ k
    → size r < 2 ^ 16
    → get_message_pack index (record { bytes = zeros k; len = k }) r ≡ (success, packed index k r)
get_message_pack-packed index k r h hk hn =
    get_message_pack-fields index _ r
    ∙ check_names-short (names r) _ _ (names-short r h)
    ∙ write_pack-packed (size r) index (cmd_id r) k (sets_len r) (fields r) (fields-Fit r h) refl hn
        hk

-- For a request whose packet is shorter than 2^16, GetMessagePack has three answers: a name is too
-- long, or the buffer is shorter than the packet, and then buffer and length are as they were; or
-- it succeeds, and the length is the packet's where the class sets it.
pub get_message_pack-answers :
    (index : ℕ) (b : Buffer) (r : Request)
    → size r < 2 ^ 16
    → (any_too_long (names r) ≡ true × get_message_pack index b r ≡ (name_too_long, b))
      ⊎ ((any_too_long (names r) ≡ false)
          × (b.len < size r)
          × (get_message_pack index b r ≡ (buf_too_small, b)))
      ⊎ ((any_too_long (names r) ≡ false)
          × (size r ≤ b.len)
          × ((get_message_pack index b r).0 ≡ success)
          × ((get_message_pack index b r).1.len ≡ (if sets_len r then size r else b.len)))
unfolding check_names write_pack
get_message_pack-answers index b r h = elim (Bool-cases (any_too_long (names r))) [
  | inl e ↦ inl (e, get_message_pack-fields index b r ∙ rw e refl)
  | inr e ↦ elim (Bool-cases (ltb b.len (size r))) [
    | inl f ↦ inr (inl (e, ltb→lt _ _ f, get_message_pack-fields index b r ∙ rw (e, wraps, f) refl))
    | inr f ↦ inr (
        inr (
          e,
          ltb→le _ _ f,
          ap (λ p. p.0) (get_message_pack-fields index b r) ∙ rw (e, wraps, f) refl,
          ap (λ p. p.1.len) (get_message_pack-fields index b r) ∙ rw (e, wraps, f) refl,
        ))
  ]
]
  where
    wraps : msg_len (size r) ≡ size r
    wraps = omega arith
