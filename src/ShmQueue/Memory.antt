-- ===== src/ShmQueue/Memory.antt =====
-- The shared segment as an array of bytes: memcpy into it and out of it, and the `int` fields of a
-- block header, least significant byte first as on x86.
use mq_cplusplus.Base.{ℕ, zero, suc, ◌+◌, ◌*◌, ◌/◌, ◌%◌, [], ◌∷◌, set, get_or, Bytes}

-- memcpy(m_pMemAddr + i, bs, length bs)
unfoldable pub write_at : Bytes → ℕ → Bytes → Bytes
write_at mem i [] = mem
write_at mem i (b ∷ bs) = write_at (set mem i b) (i + 1) bs

-- memcpy(buf, m_pMemAddr + i, n)
unfoldable pub read_at : Bytes → ℕ → ℕ → Bytes
read_at mem i zero = []
read_at mem i (suc n) = get_or mem i 0 ∷ read_at mem (i + 1) n

-- The four bytes of an `int`, before those that follow.
abbrev pub le32 : ℕ → Bytes → Bytes
le32 v rest = v % 256 ∷ v / 256 % 256 ∷ v / 65536 % 256 ∷ v / 16777216 % 256 ∷ rest

-- The bit pattern of the `int` that stands at `i`.
abbrev pub int_at : Bytes → ℕ → ℕ
int_at bs i =
    get_or bs i 0
    + 256 * get_or bs (i + 1) 0
    + 65536 * get_or bs (i + 2) 0
    + 16777216 * get_or bs (i + 3) 0
