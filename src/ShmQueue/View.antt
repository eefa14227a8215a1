-- ===== src/ShmQueue/View.antt =====
-- The abstract view of a queue: the data blocks that its segment holds, oldest first.
use native.Mathlib.Nat.{mod-eq_of_lt, mod-lt, mod-add-mod, add-zero}
use mq_cplusplus.Base.{
  ℕ, ◌+◌, ◌-◌, ◌*◌, ◌%◌, ◌^◌, ◌≤◌, ◌<◌, ◌≡◌, refl, sym, ap, subst, ◌∙◌, ◌⊎◌, inl, inr, true, List,
  [], ◌∷◌, ◌++◌, arith, length, Bytes, dec_lt,
}
use mq_cplusplus.ShmQueue.{ShmQueue, free_space}
use mq_cplusplus.ShmQueue.Ring.{window, ring_write, window-ring_write_ne, wrap_mod}
use mq_cplusplus.ShmQueue.Layout.{frame, block_size, HasSpace}

abbrev pub total : List Bytes → ℕ
total [] = 0
total (d ∷ ds) = block_size d + total ds

pub total-append : (ds : List Bytes) (d : Bytes) → total (ds ++ d ∷ []) ≡ total ds + block_size d
total-append [] d = omega arith
total-append (e ∷ ds) d = omega (arith, total-append ds d)

pub length-le-total : (ds : List Bytes) → 14 * length ds ≤ total ds
length-le-total [] = omega arith
length-le-total (d ∷ ds) = omega (arith, length-le-total ds)

-- The blocks stand one after another on the ring from index `i` on.
abbrev pub Stored : ℕ → Bytes → ℕ → List Bytes → Type 0
Stored len mem i [] = Unit
Stored len mem i (d ∷ ds) =
    (window len mem i (block_size d) ≡ frame i d) × Stored len mem ((i + block_size d) % len) ds

pub record Holds (q : ShmQueue) (ds : List Bytes) : Type 0 where
  pub head_in : q.head < q.len
  pub len_small : q.len < 2 ^ 31
  pub mem_size : q.len ≤ length q.mem
  pub fits : total ds ≤ q.len
  pub tail_at : q.tail ≡ (q.head + total ds) % q.len
  pub counted : q.block_num ≡ length ds
  pub stored : Stored q.len q.mem q.head ds

-- No process is inside the queue, and it has been initialised.
pub record IsFree (q : ShmQueue) : Type 0 where
  pub released : q.used_num ≡ 0
  pub ready : q.attached ≡ true

-- The block counter is far from its wrap-around.
pub counter_small : {q : ShmQueue} (ds : List Bytes) → Holds q ds → q.block_num < 2 ^ 31
counter_small ds h = omega (arith, length-le-total ds)

-- Where the tail is, without the remainder.
pub tail_cases :
    {q : ShmQueue} (ds : List Bytes)
    → Holds q ds
    → (q.tail ≡ q.head + total ds) × (q.tail < q.len)
      ⊎ (q.tail + q.len ≡ q.head + total ds) × (q.tail ≤ q.head)
tail_cases {q} ds h = elim (dec_lt (q.head + total ds) q.len) [
  | yes p ↦ inl (omega (arith, mod-eq_of_lt p), omega (arith, mod-eq_of_lt p))
  | no p ↦
      let e : (q.head + total ds) % q.len ≡ q.head + total ds - q.len =
        wrap_mod q.len q.head (total ds) (omega arith) (omega arith) in
      inr (omega arith, omega arith)
]

-- What Enqueue computes from the two indices is the room that the blocks leave.
pub free_space-total :
    {q : ShmQueue} (ds : List Bytes) → Holds q ds → free_space q ≡ q.len - total ds
unfolding free_space
free_space-total [] h = ground (arith, tail_cases [] h)
free_space-total (d ∷ ds) h = ground (arith, tail_cases (d ∷ ds) h)

pub Holds-HasSpace :
    {q : ShmQueue} (ds : List Bytes) (n : ℕ) → Holds q ds → total ds + n ≤ q.len → HasSpace q n
Holds-HasSpace ds n h e = ground (arith, tail_cases ds h)

-- A write behind the blocks leaves them as they are.
pub Stored-ring_write :
    (len : ℕ) (mem : Bytes) (i k : ℕ) (ds : List Bytes) (bs : Bytes)
    → i < len
    → total ds ≤ k
    → k + length bs ≤ len
    → Stored len mem i ds
    → Stored len (ring_write len mem ((i + k) % len) bs) i ds
Stored-ring_write len mem i k [] bs hi ht hk st = tt
Stored-ring_write len mem i k (d ∷ ds) bs hi ht hk st = (
  window-ring_write_ne len mem i k (block_size d) bs hi (omega arith) hk ∙ st.0,
  subst (λ j. Stored len (ring_write len mem j bs) ((i + block_size d) % len) ds) (sym shifted)
      (Stored-ring_write len mem ((i + block_size d) % len) (k - block_size d) ds bs
        (mod-lt _ (omega arith)) (omega arith) (omega arith) st.1),
)
  where
    shifted : (i + k) % len ≡ ((i + block_size d) % len + (k - block_size d)) % len
    shifted =
        sym
          (mod-add-mod (i + block_size d) len (k - block_size d) ∙ ap (λ j. j % len) (omega arith))

pub Stored-snoc :
    (len : ℕ) (mem : Bytes) (i : ℕ) (ds : List Bytes) (d : Bytes)
    → i < len
    → Stored len mem i ds
    → window len mem ((i + total ds) % len) (block_size d) ≡ frame ((i + total ds) % len) d
    → Stored len mem i (ds ++ d ∷ [])
Stored-snoc len mem i [] d hi st w = (
  subst (λ j. window len mem j (block_size d) ≡ frame j d) (mod-eq_of_lt hi ∙ refl)
      (subst (λ j. window len mem (j % len) (block_size d) ≡ frame (j % len) d) (add-zero i) w),
  tt,
)
Stored-snoc len mem i (e ∷ ds) d hi st w = (
  st.0,
  Stored-snoc len mem ((i + block_size e) % len) ds d (mod-lt _ (omega arith)) st.1
      (subst (λ j. window len mem j (block_size d) ≡ frame j d) (sym moved) w),
)
  where
    moved : ((i + block_size e) % len + total ds) % len ≡ (i + total (e ∷ ds)) % len
    moved = mod-add-mod (i + block_size e) len (total ds) ∙ ap (λ j. j % len) (omega arith)
