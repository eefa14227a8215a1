-- ===== src/Message/Wire.antt =====
-- mq_util/mq_util.cpp, Read... and Write...: the fields of a packet. Numbers stand in network
-- order; a value is the bit pattern of its field. A packet is written front to back: each field is
-- a memcpy at the pointer, which then moves on by the width of the field.
use mq_cplusplus.Base.{
  ℕ, zero, suc, ◌+◌, ◌*◌, ◌/◌, ◌%◌, Bool, not, Option, none, some, List, [], ◌∷◌, ◌++◌, length,
  take, drop, ◌==◌, if◌then◌else◌, Bytes,
}

abbrev pub short_bytes : ℕ → Bytes
short_bytes v = v / 256 % 256 ∷ v % 256 ∷ []

abbrev pub int_bytes : ℕ → Bytes
int_bytes v = v / 16777216 % 256 ∷ v / 65536 % 256 ∷ v / 256 % 256 ∷ v % 256 ∷ []

abbrev pub byte_bytes : ℕ → Bytes
byte_bytes v = v % 256 ∷ []

abbrev pub bool_bytes : Bool → Bytes
bool_bytes b = (if b then 1 else 0) ∷ []

-- A field: the bytes that are copied, and how far the pointer moves.
abbrev pub Field : Type 0
Field = Bytes × ℕ

-- WriteShort, WriteInt, WriteByte, WriteBool, and WriteBuf into an array of `n` bytes.
abbrev pub short : ℕ → Field
short v = (short_bytes v, 2)

abbrev pub int : ℕ → Field
int v = (int_bytes v, 4)

abbrev pub byte : ℕ → Field
byte v = (byte_bytes v, 1)

abbrev pub bool : Bool → Field
bool b = (bool_bytes b, 1)

abbrev pub text : Bytes → ℕ → Field
text s n = (s, n)

-- memcpy(p, bs, length bs)
abbrev pub copy : Bytes → Bytes → Bytes
copy bs buf = bs ++ drop (length bs) buf

-- The buffer after the fields were written from its start on.
unfoldable pub write_fields : List Field → Bytes → Bytes
write_fields [] buf = buf
write_fields ((bs, n) ∷ fs) buf = take n (copy bs buf) ++ write_fields fs (drop n (copy bs buf))

-- What is read: the value, and the rest of the packet. `none` is a read past the packet's bytes.
unfoldable pub read_short : Bytes → Option (ℕ × Bytes)
read_short (a ∷ b ∷ rest) = some (a * 256 + b, rest)
read_short _ = none

unfoldable pub read_int : Bytes → Option (ℕ × Bytes)
read_int (a ∷ b ∷ c ∷ d ∷ rest) = some (a * 16777216 + b * 65536 + c * 256 + d, rest)
read_int _ = none

unfoldable pub read_byte : Bytes → Option (ℕ × Bytes)
read_byte [] = none
read_byte (a ∷ rest) = some (a, rest)

unfoldable pub read_bool : Bytes → Option (Bool × Bytes)
read_bool [] = none
read_bool (a ∷ rest) = some (not (a == 0), rest)

unfoldable pub read_buf : ℕ → Bytes → Option (Bytes × Bytes)
read_buf zero bs = some ([], bs)
read_buf (suc n) [] = none
read_buf (suc n) (b ∷ bs) = elim (read_buf n bs) [
  | none ↦ none
  | some (s, rest) ↦ some (b ∷ s, rest)
]
