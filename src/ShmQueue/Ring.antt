-- ===== src/ShmQueue/Ring.antt =====
-- The segment seen as a ring: byte by byte, the index going round at `len`. Straight and split
-- memcpys are such ring accesses, and a write leaves the rest of the ring alone.
use native.Mathlib.Nat.{mod-add-mod, mod-eq_of_lt, mod-eq-sub-mod, add-zero, zero-add}
use mq_cplusplus.Base.{
  ℕ, zero, suc, ◌+◌, ◌-◌, ◌%◌, ◌≤◌, ◌<◌, ◌≡◌, refl, sym, ap, ap₂, ◌∙◌, ◌≢◌, [], ◌∷◌, ◌++◌, take,
  drop, length-take, length-drop, take-append-drop, dec_lt, arith, length, take, drop, set, get_or,
  Bytes, length-set, get_or-set_self, get_or-set_ne, length-take, length-drop, take-append-drop,
}
use mq_cplusplus.ShmQueue.Memory.{write_at, read_at}

add_right : (m n : ℕ) → suc m + n ≡ suc (m + n)
add_right m n = omega arith

cut : (s : ℕ) (bs : Bytes) → s ≤ length bs → length (take s bs) ≡ s
cut s bs h = omega (arith, length-take s bs)

head_eq : {a b : ℕ} {as' bs : Bytes} → ◌≡◌ {A = Bytes} (a ∷ as') (b ∷ bs) → a ≡ b
head_eq e = cc

pub wrap_mod : (len i n : ℕ) → len ≤ i + n → i + n < len + len → (i + n) % len ≡ i + n - len
wrap_mod len i n h k =
    mod-eq-sub-mod {n = i + n} {m = len} h ∙ mod-eq_of_lt {n = i + n - len} {m = len} (omega arith)

module _ (len : ℕ) where
  -- The `n` bytes from index `i` on.
  unfoldable pub window : Bytes → ℕ → ℕ → Bytes
  window mem i zero = []
  window mem i (suc n) = get_or mem i 0 ∷ window mem ((i + 1) % len) n

  pub ring_write : Bytes → ℕ → Bytes → Bytes
  ring_write mem i [] = mem
  ring_write mem i (b ∷ bs) = ring_write (set mem i b) ((i + 1) % len) bs

  pub length-window : (mem : Bytes) (i n : ℕ) → length (window mem i n) ≡ n
  unfolding window
  length-window mem i zero = refl
  length-window mem i (suc n) = ap suc (length-window mem ((i + 1) % len) n)

  pub length-ring_write :
      (mem : Bytes) (i : ℕ) (bs : Bytes) → length (ring_write mem i bs) ≡ length mem
  unfolding ring_write
  length-ring_write mem i [] = refl
  length-ring_write mem i (b ∷ bs) =
      length-ring_write (set mem i b) ((i + 1) % len) bs ∙ length-set mem i b

  shift_mod : (i n : ℕ) → ((i + 1) % len + n) % len ≡ (i + suc n) % len
  shift_mod i n = mod-add-mod (i + 1) len n ∙ ap (λ k. k % len) (omega arith)

  next_mod : (i k : ℕ) → ((i + k) % len + 1) % len ≡ (i + suc k) % len
  next_mod i k = mod-add-mod (i + k) len 1 ∙ ap (λ t. t % len) (omega arith)

  pub window-append :
      (mem : Bytes) (i m n : ℕ)
      → i < len
      → window mem i (m + n) ≡ window mem i m ++ window mem ((i + m) % len) n
  unfolding window
  window-append mem i zero n h = rw (zero-add, add-zero, mod-eq_of_lt h)
  window-append mem i (suc m) n h =
      ap (window mem i) (add_right m n)
      ∙ ap (◌∷◌ (get_or mem i 0)) (
          window-append mem ((i + 1) % len) m n (omega arith)
          ∙ ap (λ j. window mem ((i + 1) % len) m ++ window mem j n) (shift_mod i m))

  pub ring_write-append :
      (mem : Bytes) (i : ℕ) (as' bs : Bytes)
      → i < len
      → ring_write mem i (as' ++ bs) ≡ ring_write (ring_write mem i as') ((i + length as') % len) bs
  unfolding ring_write
  ring_write-append mem i [] bs h = rw (add-zero, mod-eq_of_lt h)
  ring_write-append mem i (a ∷ as') bs h =
      ring_write-append (set mem i a) ((i + 1) % len) as' bs (omega arith)
      ∙ ap (λ j. ring_write (ring_write (set mem i a) ((i + 1) % len) as') j bs)
          (shift_mod i (length as'))

  -- A memcpy that does not run past the end is a ring access.
  pub write_at-ring_write :
      (mem : Bytes) (i : ℕ) (bs : Bytes)
      → i + length bs ≤ len
      → write_at mem i bs ≡ ring_write mem i bs
  unfolding write_at ring_write
  write_at-ring_write mem i [] h = refl
  write_at-ring_write mem i (b ∷ []) h = refl
  write_at-ring_write mem i (b ∷ c ∷ bs) h =
      write_at-ring_write (set mem i b) (i + 1) (c ∷ bs) (omega arith)
      ∙ ap (λ j. ring_write (set mem i b) j (c ∷ bs)) (sym (mod-eq_of_lt (omega arith)))

  pub read_at-window : (mem : Bytes) (i n : ℕ) → i + n ≤ len → read_at mem i n ≡ window mem i n
  unfolding read_at window
  read_at-window mem i zero h = refl
  read_at-window mem i (suc zero) h = refl
  read_at-window mem i (suc (suc n)) h = ap (◌∷◌ (get_or mem i 0)) (
      read_at-window mem (i + 1) (suc n) (omega arith)
      ∙ ap (λ j. window mem j (suc n)) (sym (mod-eq_of_lt (omega arith))))

  -- A byte written `k` places past `i` is outside the first `n ≤ k` bytes.
  ahead_ne : (i k : ℕ) → i < len → 0 < k → k < len → (i + k) % len ≢ i
  ahead_ne i k hi h0 hk = elim (dec_lt (i + k) len) [
    | yes p ↦ omega (arith, mod-eq_of_lt p)
    | no p ↦ omega (arith, wrap_mod len i k (omega arith) (omega arith))
  ]

  window-set :
      (mem : Bytes) (i k n : ℕ) (b : ℕ)
      → i < len
      → n ≤ k
      → k < len
      → window (set mem ((i + k) % len) b) i n ≡ window mem i n
  unfolding window
  window-set mem i k zero b hi hn hk = refl
  window-set mem i zero (suc n) b hi hn hk = absurd (omega arith)
  window-set mem i (suc k) (suc n) b hi hn hk =
      ap₂ ◌∷◌ (get_or-set_ne mem b 0 (ahead_ne i (suc k) hi (omega arith) hk)) (
        ap (λ j. window (set mem j b) ((i + 1) % len) n) (sym (shift_mod i k))
        ∙ window-set mem ((i + 1) % len) k n b (omega arith) (omega arith) (omega arith))

  -- A write that starts past the window and does not come round to it leaves the window alone.
  pub window-ring_write_ne :
      (mem : Bytes) (i k n : ℕ) (bs : Bytes)
      → i < len
      → n ≤ k
      → k + length bs ≤ len
      → window (ring_write mem ((i + k) % len) bs) i n ≡ window mem i n
  unfolding ring_write
  window-ring_write_ne mem i k n [] hi hn hk = refl
  window-ring_write_ne mem i k n (b ∷ bs) hi hn hk =
      ap (λ j. window (ring_write (set mem ((i + k) % len) b) j bs) i n) (next_mod i k)
      ∙ window-ring_write_ne (set mem ((i + k) % len) b) i (suc k) n bs hi (omega arith)
          (omega arith)
      ∙ window-set mem i k n b hi hn (omega arith)

  -- What was written is read back.
  pub window-ring_write_self :
      (mem : Bytes) (i : ℕ) (bs : Bytes)
      → i < len
      → len ≤ length mem
      → length bs ≤ len
      → window (ring_write mem i bs) i (length bs) ≡ bs
  unfolding window ring_write
  window-ring_write_self mem i [] hi hm hb = refl
  window-ring_write_self mem i (b ∷ bs) hi hm hb = ap₂ ◌∷◌ first (
      window-ring_write_self (set mem i b) ((i + 1) % len) bs (omega arith)
        (omega (arith, length-set mem i b)) (omega arith))
    where
      first : get_or (ring_write (set mem i b) ((i + 1) % len) bs) i 0 ≡ b
      first =
          head_eq (window-ring_write_ne (set mem i b) i 1 1 bs hi (omega arith) (omega arith))
          ∙ get_or-set_self mem i b 0 (omega arith)

-- A write split at the end of the segment, and a read split there, are ring accesses.
module _ (len : ℕ) where
  pub write_split :
      (mem : Bytes) (i s : ℕ) (bs : Bytes)
      → i < len
      → i + s ≡ len
      → s ≤ length bs
      → length bs ≤ len
      → write_at (write_at mem i (take s bs)) 0 (drop s bs) ≡ ring_write len mem i bs
  write_split mem i s bs hi e hs hb =
      write_at-ring_write len (write_at mem i (take s bs)) 0 (drop s bs)
        (omega (arith, length-drop s bs))
      ∙ ap (λ m. ring_write len m 0 (drop s bs))
          (write_at-ring_write len mem i (take s bs) (omega (arith, length-take s bs)))
      ∙ ap (λ j. ring_write len (ring_write len mem i (take s bs)) j (drop s bs)) landing
      ∙ sym (ring_write-append len mem i (take s bs) (drop s bs) hi)
      ∙ ap (ring_write len mem i) (take-append-drop s bs)
    where
      landing : 0 ≡ (i + length (take s bs)) % len
      landing = omega (
        arith,
        wrap_mod len i s (omega arith) (omega arith),
        ap (λ k. (i + k) % len) (cut s bs hs),
      )

  pub read_split-window :
      (mem : Bytes) (i s n : ℕ)
      → i < len
      → i + s ≡ len
      → s ≤ n
      → n ≤ len
      → read_at mem i s ++ read_at mem 0 (n - s) ≡ window len mem i n
  read_split-window mem i s n hi e hs hn =
      ap₂ ◌++◌ (read_at-window len mem i s (omega arith)) (
        read_at-window len mem 0 (n - s) (omega arith)
        ∙ ap (λ j. window len mem j (n - s))
            (omega (arith, wrap_mod len i s (omega arith) (omega arith))))
      ∙ sym (window-append len mem i s (n - s) hi)
      ∙ ap (window len mem i) (omega arith)
