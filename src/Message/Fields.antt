-- ===== src/Message/Fields.antt =====
-- What the classes of message/message.cpp put into a packet, as lists of fields, and which requests
-- fit their fields.
use mq_cplusplus.Base.{
  ℕ, ◌+◌, ◌^◌, ◌<◌, Bool, true, false, List, [], ◌∷◌, arith, length, Bytes, All, IsName,
}
use mq_cplusplus.Message.Wire.{Field, short, int, byte, bool, text}
use mq_cplusplus.Message.Request.{
  Request, create_exchange, create_queue, create_binding, publish, recv, subscribe, delete_exchange,
  delete_queue, cancel_subscribe, client_ack, client_exit, max_name_length, head_len,
}
use mq_cplusplus.Message.Packet.{width, Fit}

-- The fields behind the header, and the packet's size.
abbrev pub fields : Request → List Field
fields (create_exchange name t d a) = text name max_name_length ∷ short t ∷ bool d ∷ bool a ∷ []
fields (create_queue name p d a) = text name max_name_length ∷ short p ∷ bool d ∷ bool a ∷ []
fields (create_binding e q k) =
    text e max_name_length ∷ text q max_name_length ∷ text k max_name_length ∷ []
fields (publish e k body p d s c) =
    text e max_name_length
    ∷ text k max_name_length
    ∷ short p
    ∷ bool d
    ∷ int s
    ∷ byte c
    ∷ text body (length body)
    ∷ []
fields (recv q c) = text q max_name_length ∷ byte c ∷ []
fields (subscribe q c) = text q max_name_length ∷ byte c ∷ []
fields (delete_exchange n) = text n max_name_length ∷ []
fields (delete_queue n) = text n max_name_length ∷ []
fields (cancel_subscribe q) = text q max_name_length ∷ []
fields (client_ack c s) = byte c ∷ int s ∷ []
fields client_exit = []

abbrev pub IsShortName : Bytes → Type 0
IsShortName s = IsName s × (length s < max_name_length)

-- Names are C strings shorter than their arrays, and numbers fit their fields.
abbrev pub IsSendable : Request → Type 0
IsSendable (create_exchange name t d a) = IsShortName name × (t < 2 ^ 16)
IsSendable (create_queue name p d a) = IsShortName name × (p < 2 ^ 16)
IsSendable (create_binding e q k) = IsShortName e × IsShortName q × IsShortName k
IsSendable (publish e k body p d s c) =
    IsShortName e × IsShortName k × (p < 2 ^ 16) × (s < 2 ^ 32) × (c < 256)
IsSendable (recv q c) = IsShortName q × (c < 256)
IsSendable (subscribe q c) = IsShortName q × (c < 256)
IsSendable (delete_exchange n) = IsShortName n
IsSendable (delete_queue n) = IsShortName n
IsSendable (cancel_subscribe q) = IsShortName q
IsSendable (client_ack c s) = (c < 256) × (s < 2 ^ 32)
IsSendable client_exit = Unit

-- The packet's length, as the header carries it.
abbrev pub size : Request → ℕ
size r = head_len + width (fields r)

unfoldable pub names : Request → List Bytes
names (create_exchange name _ _ _) = name ∷ []
names (create_queue name _ _ _) = name ∷ []
names (create_binding e q k) = e ∷ q ∷ k ∷ []
names (publish e k _ _ _ _ _) = e ∷ k ∷ []
names (recv q _) = q ∷ []
names (subscribe q _) = q ∷ []
names (delete_exchange n) = n ∷ []
names (delete_queue n) = n ∷ []
names (cancel_subscribe q) = q ∷ []
names (client_ack _ _) = []
names client_exit = []

-- Whether the class says in `*iopBuffLen` how long the packet is.
abbrev pub sets_len : Request → Bool
sets_len (cancel_subscribe _) = false
sets_len client_exit = false
sets_len _ = true

pub fields-Fit : (r : Request) → IsSendable r → Fit (fields r)
fields-Fit (create_exchange name t d a) (n, h) =
    (omega arith, (omega arith, (omega arith, (omega arith, tt))))
fields-Fit (create_queue name p d a) (n, h) =
    (omega arith, (omega arith, (omega arith, (omega arith, tt))))
fields-Fit (create_binding e q k) (a, b, c) = (omega arith, (omega arith, (omega arith, tt)))
fields-Fit (publish e k body p d s c) (a, b, c', d', e') = (
  omega arith,
  (omega arith, (omega arith, (omega arith, (omega arith, (omega arith, (omega arith, tt)))))),
)
fields-Fit (recv q c) h = (omega arith, (omega arith, tt))
fields-Fit (subscribe q c) h = (omega arith, (omega arith, tt))
fields-Fit (delete_exchange n) h = (omega arith, tt)
fields-Fit (delete_queue n) h = (omega arith, tt)
fields-Fit (cancel_subscribe n) h = (omega arith, tt)
fields-Fit (client_ack c s) h = (omega arith, (omega arith, tt))
fields-Fit client_exit h = tt

pub names-short : (r : Request) → IsSendable r → All (λ s. length s < max_name_length) (names r)
unfolding names
names-short (create_exchange name t d a) (n, h) = (n.1, tt)
names-short (create_queue name p d a) (n, h) = (n.1, tt)
names-short (create_binding e q k) (a, b, c) = (a.1, (b.1, (c.1, tt)))
names-short (publish e k body p d s c) (a, b, _, _, _) = (a.1, (b.1, tt))
names-short (recv q c) (n, h) = (n.1, tt)
names-short (subscribe q c) (n, h) = (n.1, tt)
names-short (delete_exchange n) h = (h.1, tt)
names-short (delete_queue n) h = (h.1, tt)
names-short (cancel_subscribe q) h = (h.1, tt)
names-short (client_ack c s) h = tt
names-short client_exit h = tt

abbrev pub head_fields : ℕ → ℕ → ℕ → List Field → List Field
head_fields n index cmd fs = short n ∷ int index ∷ short cmd ∷ fs
