-- ===== src/Message/Packet.antt =====
-- What is left in a cleared buffer when fields were written, and what each reader makes of it.
use native.Mathlib.Nat.{sub-zero}
use mq_cplusplus.Base.{
  ℕ, zero, suc, ◌+◌, ◌-◌, ◌^◌, ◌<◌, ◌≤◌, ◌≡◌, refl, sym, ap, ap₂, ◌∙◌, Bool, true, false, some,
  List, [], ◌∷◌, ◌++◌, arith, length, take, drop, replicate, Bytes, All, IsName, c_string,
  c_string-append, append_assoc, take-append, drop-append, length-append, length-replicate,
}
use mq_cplusplus.Message.Wire.{
  Field, short, int, byte, bool, text, copy, write_fields, read_short, read_int, read_byte,
  read_bool, read_buf,
}
use mq_cplusplus.Message.Request.{max_name_length}
use mq_cplusplus.Message.Read.{read_name}

abbrev pub zeros : ℕ → Bytes
zeros k = replicate k 0

abbrev pub padded : Field → Bytes
padded (bs, n) = bs ++ zeros (n - length bs)

abbrev pub packet : List Field → Bytes
packet [] = []
packet (f ∷ fs) = padded f ++ packet fs

abbrev pub width : List Field → ℕ
width [] = 0
width ((bs, n) ∷ fs) = n + width fs

-- Every field's bytes fit in its width.
abbrev pub Fit : List Field → Type 0
Fit = All (λ f. length f.0 ≤ f.1)

drop-zeros : (n k : ℕ) → drop n (zeros k) ≡ zeros (k - n)
drop-zeros zero k = rw sub-zero
drop-zeros (suc n) zero = ap zeros {x = 0} {y = 0 - suc n} (omega arith)
drop-zeros (suc n) (suc k) = drop-zeros n k ∙ ap zeros {x = k - n} {y = suc k - suc n} (omega arith)

zeros-append : (m n : ℕ) → zeros m ++ zeros n ≡ zeros (m + n)
zeros-append zero n = ap zeros {x = n} {y = zero + n} (omega arith)
zeros-append (suc m) n =
    ap (◌∷◌ 0) (zeros-append m n) ∙ ap zeros {x = suc (m + n)} {y = suc m + n} (omega arith)

copy-zeros :
    (bs : Bytes) (n k : ℕ)
    → length bs ≤ n
    → n ≤ k
    → copy bs (zeros k) ≡ padded (bs, n) ++ zeros (k - n)
copy-zeros bs n k hb hn =
    ap (◌++◌ bs) (
      drop-zeros (length bs) k
      ∙ ap zeros {x = k - length bs} {y = n - length bs + (k - n)} (omega arith)
      ∙ sym (zeros-append (n - length bs) (k - n)))
    ∙ sym (append_assoc bs (zeros (n - length bs)) (zeros (k - n)))

length-padded : (bs : Bytes) (n : ℕ) → length bs ≤ n → length (padded (bs, n)) ≡ n
length-padded bs n h =
    let z : ℕ = 0 in
    omega (arith, length-append bs (zeros (n - length bs)), length-replicate (n - length bs) z)

-- In a cleared buffer of `k` bytes the fields come out as the packet, and zeros behind it.
pub write_fields-zeros :
    (fs : List Field) (k : ℕ)
    → Fit fs
    → width fs ≤ k
    → write_fields fs (zeros k) ≡ packet fs ++ zeros (k - width fs)
unfolding write_fields
write_fields-zeros [] k fit h = rw sub-zero
write_fields-zeros ((bs, n) ∷ fs) k fit h =
    ap₂ ◌++◌
      (ap (take n) cleared ∙ take-append (padded (bs, n)) _ n (sym (length-padded bs n fit.0)))
      (ap (write_fields fs)
          (ap (drop n) cleared ∙ drop-append (padded (bs, n)) _ n (sym (length-padded bs n fit.0)))
        ∙ write_fields-zeros fs (k - n) fit.1 (omega arith))
    ∙ sym (append_assoc (padded (bs, n)) (packet fs) _)
    ∙ ap (λ m. packet ((bs, n) ∷ fs) ++ zeros m) (omega arith)
  where
    cleared : copy bs (zeros k) ≡ padded (bs, n) ++ zeros (k - n)
    cleared = copy-zeros bs n k fit.0 (omega arith)

pub length-packet : (fs : List Field) → Fit fs → length (packet fs) ≡ width fs
length-packet [] fit = refl
length-packet ((bs, n) ∷ fs) fit = omega (
  arith,
  length-append (padded (bs, n)) (packet fs),
  length-padded bs n fit.0,
  length-packet fs fit.1,
)

-- A name shorter than its array is the string in the array: a zero ends it.
c_string-padded : (s : Bytes) (n : ℕ) → IsName s → length s < n → c_string (padded (s, n)) ≡ some s
c_string-padded s n name h =
    ap (λ k. c_string (s ++ zeros k)) {x = n - length s} {y = suc (n - length s - 1)} (omega arith)
    ∙ c_string-append s (zeros (n - length s - 1)) name

-- Each reader takes its field off the front of a packet.
module _ (rest : Bytes) where
  pub read_short-padded :
      (v : ℕ) → v < 2 ^ 16 → read_short (padded (short v) ++ rest) ≡ some (v, rest)
  unfolding read_short
  read_short-padded v h = ap (λ n. some (n, rest)) (omega arith)

  pub read_int-padded : (v : ℕ) → v < 2 ^ 32 → read_int (padded (int v) ++ rest) ≡ some (v, rest)
  unfolding read_int
  read_int-padded v h = ap (λ n. some (n, rest)) (omega arith)

  pub read_byte-padded : (v : ℕ) → v < 256 → read_byte (padded (byte v) ++ rest) ≡ some (v, rest)
  unfolding read_byte
  read_byte-padded v h = ap (λ n. some (n, rest)) (omega arith)

  pub read_bool-padded : (b : Bool) → read_bool (padded (bool b) ++ rest) ≡ some (b, rest)
  unfolding read_bool
  read_bool-padded true = refl
  read_bool-padded false = refl

  read_buf-append : (bs : Bytes) (n : ℕ) → n ≡ length bs → read_buf n (bs ++ rest) ≡ some (bs, rest)
  unfolding read_buf
  read_buf-append [] zero e = refl
  read_buf-append [] (suc n) e = absurd (omega arith)
  read_buf-append (b ∷ bs) zero e = absurd (omega arith)
  read_buf-append (b ∷ bs) (suc n) e = rw (read_buf-append bs n (omega arith), read_buf)

  -- A name shorter than its array is read back: the array ends it with a zero.
  pub read_name-padded :
      (s : Bytes)
      → IsName s
      → length s < max_name_length
      → read_name (padded (text s max_name_length) ++ rest) ≡ some (s, rest)
  unfolding read_name
  read_name-padded s name h = rw (
    read_name,
    read_buf-append (padded (text s max_name_length)) max_name_length
        (sym (length-padded s max_name_length (omega arith))),
    c_string-padded s max_name_length name h,
  )
