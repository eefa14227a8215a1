-- ===== src/ShmQueue/Lock.antt =====
-- Several processes on one queue: each calls Enqueue or Dequeue, and the two spin loops on
-- m_iUsedNum let one of them in at a time. A step is one try of a spin loop, or the work between.
use mq_cplusplus.Base.{
  ℕ, ◌≡◌, refl, sym, ap, subst, ◌∙◌, ◌⊎◌, inl, inr, Bool, true, false, List, arith, Bytes, Option,
  some, none, ◌==◌, if◌then◌else◌,
}
use mq_cplusplus.ShmQueue.{ShmQueue, spin, cas32, enqueue_locked, dequeue_locked}
use mq_cplusplus.ShmQueue.View.{Holds, IsFree}
use mq_cplusplus.ShmQueue.Trace.{Op, put, get}
use mq_cplusplus.ShmQueue.Fifo
use mq_cplusplus.ShmQueue.Put.{enqueue_locked-put, held-Holds}
use mq_cplusplus.ShmQueue.Get.{dequeue_locked-get}

-- Where a process is: outside, spinning to get in, inside with its call, spinning to get out.
pub data Pc : Type 0 where
  outside : Pc
  wants : Op → Pc
  inside : Op → Pc
  leaving : Pc

pub record System : Type 0 where
  pub queue : ShmQueue
  pub pc : ℕ → Pc

abbrev pub move : (ℕ → Pc) → ℕ → Pc → ℕ → Pc
move pc i p j = if i == j then p else pc j

-- The queue after the work of one call.
pub perform : ShmQueue → Op → Option ShmQueue
perform q (put d) = some (enqueue_locked q d).1
perform q (get n) = elim (dequeue_locked q n) [ none ↦ none | some r ↦ some r.queue ]

pub data Step (s : System) : System → Type 0 where
  call : (i : ℕ) (op : Op) → s.pc i ≡ outside → Step s (record s { pc = move s.pc i (wants op) })
  enter :
      (i : ℕ) (op : Op) (q : ShmQueue)
      → s.pc i ≡ wants op
      → spin 0 1 s.queue ≡ some q
      → Step s (record { queue = q; pc = move s.pc i (inside op) })
  retry : (i : ℕ) (op : Op) → s.pc i ≡ wants op → spin 0 1 s.queue ≡ none → Step s s
  work :
      (i : ℕ) (op : Op) (q : ShmQueue)
      → s.pc i ≡ inside op
      → perform s.queue op ≡ some q
      → Step s (record { queue = q; pc = move s.pc i leaving })
  leave :
      (i : ℕ) (q : ShmQueue)
      → s.pc i ≡ leaving
      → spin 1 0 s.queue ≡ some q
      → Step s (record { queue = q; pc = move s.pc i outside })

pub data Reach (s : System) : System → Type 0 where
  here : Reach s s
  later : {t u : System} → Reach s t → Step t u → Reach s u

-- Between the two spin loops.
abbrev pub busy : Pc → Bool
busy outside = false
busy (wants op) = false
busy (inside op) = true
busy leaving = true

pub record IsExclusive (s : System) : Type 0 where
  pub bit : (s.queue.used_num ≡ 0) ⊎ (s.queue.used_num ≡ 1)
  pub free : s.queue.used_num ≡ 0 → (i : ℕ) → busy (s.pc i) ≡ false
  pub one : (i j : ℕ) → busy (s.pc i) ≡ true → busy (s.pc j) ≡ true → i ≡ j
  pub blocks : List Bytes
  pub holds : Holds s.queue blocks

-- The blocks after the work of one call.
abbrev pub next_blocks : ℕ → List Bytes → Op → List Bytes
next_blocks cap ds (put d) = (Fifo.put cap ds d).1
next_blocks cap ds (get n) = (Fifo.get ds n).rest

perform-blocks :
    {q : ShmQueue} (ds : List Bytes) (op : Op)
    → Holds q ds
    → (q' : ShmQueue) × (perform q op ≡ some q')
      × Holds q' (next_blocks q.len ds op)
      × (q'.used_num ≡ q.used_num)
unfolding perform
perform-blocks {q} ds (put d) h =
    let (ret, holds, len, used, ready) = enqueue_locked-put ds d h in
    ((enqueue_locked q d).1, refl, holds, used)
perform-blocks {q} ds (get n) h =
    let (q', e, holds, len, used, ready) = dequeue_locked-get ds n h in
    (q', rw (e, perform), holds, used)

spin-swap :
    (old new : ℕ) (q q' : ShmQueue)
    → spin old new q ≡ some q'
    → (q.used_num ≡ old) × (q' ≡ record q { used_num = new })
unfolding spin cas32
spin-swap old new q q' e = ground arith

module _ (s : System) where
  -- Once process `i` is the only one that may be between the loops, it stays so.
  move-one :
      (i : ℕ) (p : Pc)
      → ((k : ℕ) → busy (s.pc k) ≡ true → k ≡ i)
      → (j k : ℕ) → busy (move s.pc i p j) ≡ true
      → busy (move s.pc i p k) ≡ true
      → j ≡ k
  move-one i p only j k hj hk = ground (arith, only j, only k)

  move-free :
      (i : ℕ) (p : Pc)
      → busy p ≡ false
      → ((k : ℕ) → busy (s.pc k) ≡ true → k ≡ i)
      → (k : ℕ) → busy (move s.pc i p k) ≡ false
  move-free i p out only k = ground (arith, only k)

-- Every step keeps the lock exclusive and the segment in order.
pub Step-IsExclusive : {s t : System} → Step s t → IsExclusive s → IsExclusive t
Step-IsExclusive {s} (call i op e) x = record {
  bit = x.bit;
  free = λ z k. ground (arith, x.free z k);
  one = λ j k hj hk. ground (arith, x.one j k);
  blocks = x.blocks;
  holds = x.holds;
}
Step-IsExclusive {s} (enter i op q e swap) x = record {
  bit = inr (ap (λ r. r.used_num) (spin-swap 0 1 s.queue q swap).1);
  free = λ z. absurd (omega (arith, ap (λ r. r.used_num) (spin-swap 0 1 s.queue q swap).1));
  one = move-one s i (inside op) alone;
  blocks = x.blocks;
  holds =
      subst (λ r. Holds r x.blocks) (sym (spin-swap 0 1 s.queue q swap).1)
        (held-Holds x.blocks 1 x.holds);
}
  where
    alone : (k : ℕ) → busy (s.pc k) ≡ true → k ≡ i
    alone k hk = cc (x.free (spin-swap 0 1 s.queue q swap).0 k)
Step-IsExclusive (retry i op e again) x = x
Step-IsExclusive {s} (work i op q e done) x = record {
  bit = elim x.bit [ inl z ↦ inl (kept ∙ z) | inr z ↦ inr (kept ∙ z) ];
  free = λ z. cc (x.free (sym kept ∙ z) i);
  one = move-one s i leaving (λ k hk. x.one k i hk (ap busy e));
  blocks = next_blocks s.queue.len x.blocks op;
  holds = subst (λ r. Holds r (next_blocks s.queue.len x.blocks op)) same worked.2;
}
  where
    worked :
        (q' : ShmQueue) × (perform s.queue op ≡ some q')
        × Holds q' (next_blocks s.queue.len x.blocks op)
        × (q'.used_num ≡ s.queue.used_num)
    worked = perform-blocks x.blocks op x.holds

    same : worked.0 ≡ q
    same = cc (worked.1)

    kept : q.used_num ≡ s.queue.used_num
    kept = ap (λ r. r.used_num) (sym same) ∙ worked.3
Step-IsExclusive {s} (leave i q e swap) x = record {
  bit = inl (ap (λ r. r.used_num) (spin-swap 1 0 s.queue q swap).1);
  free = λ _. move-free s i outside refl (λ k hk. x.one k i hk (ap busy e));
  one = move-one s i outside (λ k hk. x.one k i hk (ap busy e));
  blocks = x.blocks;
  holds =
      subst (λ r. Holds r x.blocks) (sym (spin-swap 1 0 s.queue q swap).1)
        (held-Holds x.blocks 0 x.holds);
}

-- All processes outside, on a free queue that holds `ds`.
pub IsExclusive-start :
    {q : ShmQueue} (ds : List Bytes)
    → Holds q ds
    → IsFree q
    → IsExclusive (record { queue = q; pc = λ _. outside })
IsExclusive-start ds h f = record {
  bit = inl f.released;
  free = λ _ _. refl;
  one = λ i j hi hj. cc;
  blocks = ds;
  holds = h;
}

pub Reach-IsExclusive : {s t : System} → IsExclusive s → Reach s t → IsExclusive t
Reach-IsExclusive x here = x
Reach-IsExclusive x (later r st) = Step-IsExclusive st (Reach-IsExclusive x r)

-- However the calls of the processes interleave, from a free queue with all of them outside: two
-- processes are never between the spin loops together, and the segment holds a sequence of whole
-- blocks.
pub mutual_exclusion :
    {q : ShmQueue} {t : System} (ds : List Bytes)
    → Holds q ds
    → IsFree q
    → Reach (record { queue = q; pc = λ _. outside }) t
    → ((i j : ℕ) → busy (t.pc i) ≡ true → busy (t.pc j) ≡ true → i ≡ j)
      × ((blocks : List Bytes) × Holds t.queue blocks)
mutual_exclusion ds h f r =
    let x = Reach-IsExclusive (IsExclusive-start ds h f) r in (x.one, (x.blocks, x.holds))

-- However the calls of the processes interleave, from a free queue with all of them outside: a
-- process that is inside finishes its work, and one that has finished gets out at the first try, so
-- no spin loop of a process inside waits for another.
pub inside_proceeds :
    {q : ShmQueue} {t : System} (ds : List Bytes) (i : ℕ)
    → Holds q ds
    → IsFree q
    → Reach (record { queue = q; pc = λ _. outside }) t
    → ((op : Op) → t.pc i ≡ inside op → (q' : ShmQueue) × (perform t.queue op ≡ some q'))
      × (t.pc i ≡ leaving → spin 1 0 t.queue ≡ some (record (t.queue) { used_num = 0 }))
unfolding spin cas32
inside_proceeds {t} ds i h f r =
    let x = Reach-IsExclusive (IsExclusive-start ds h f) r in
    (
      λ op e. let (q', done, holds, used) = perform-blocks x.blocks op x.holds in (q', done),
      λ e. elim x.bit [ inl z ↦ cc (x.free z i) | inr z ↦ ground arith ],
    )
