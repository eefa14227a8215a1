-- ===== src/ShmQueue/Tests.antt =====
-- Runs of the queue on small segments, and its theorems at concrete inputs.
use mq_cplusplus.Base.{
  ℕ, ◌≡◌, refl, List, [], ◌∷◌, ◌++◌, true, arith, Bytes, some, replicate, name_eq,
}
use mq_cplusplus.ShmQueue.{
  ShmQueue, success, full, empty, buf_small, enqueue, enqueue_locked, dequeue, dequeue_locked,
  read_block, take_block, spin, cas32, free_space, save_block, save_header, save_body, save_tail,
  read_split, next_index, tail_mark,
}
use mq_cplusplus.ShmQueue.Memory.{write_at, read_at}
use mq_cplusplus.ShmQueue.Ring.{window}
use mq_cplusplus.ShmQueue.View.{Holds, IsFree}
use mq_cplusplus.ShmQueue.Fifo
use mq_cplusplus.ShmQueue.Put.{enqueue-put}
use mq_cplusplus.ShmQueue.Get.{dequeue-get}
use mq_cplusplus.ShmQueue.Trace.{Op, put, get, run, run_fifo, run-run_fifo}
use mq_cplusplus.ShmQueue.Lock.{
  System, Reach, here, later, outside, wants, inside, leaving, busy, perform, call, enter, move,
  mutual_exclusion, inside_proceeds,
}

-- One block, `7 8`, that goes round the end of a segment of 20 bytes.
abbrev wrapped : ShmQueue
wrapped = record {
  len = 20;
  head = 10;
  tail = 6;
  block_num = 1;
  used_num = 0;
  mem = tail_mark ++ (replicate 4 0 ++ (10 ∷ 0 ∷ 0 ∷ 0 ∷ 2 ∷ 0 ∷ 0 ∷ 0 ∷ 7 ∷ 8 ∷ []));
  queue_size = 20;
  attached = true;
}

abbrev script : List Op
script = get 1 ∷ put (1 ∷ []) ∷ get 9 ∷ put (1 ∷ 2 ∷ 3 ∷ []) ∷ put [] ∷ get 9 ∷ get 9 ∷ []

wrapped-Holds : Holds wrapped ((7 ∷ 8 ∷ []) ∷ [])
unfolding window
wrapped-Holds = record {
  head_in = omega arith;
  len_small = omega arith;
  mem_size = omega arith;
  fits = omega arith;
  tail_at = refl;
  counted = refl;
  stored = (refl, tt);
}

wrapped-IsFree : IsFree wrapped
wrapped-IsFree = record { released = refl; ready = refl }

run-wrapped :
    run wrapped script
    ≡ some (
        (buf_small, 2, [])
        ∷ (full, 0, [])
        ∷ (success, 2, 7 ∷ 8 ∷ [])
        ∷ (success, 0, [])
        ∷ (full, 0, [])
        ∷ (success, 3, 1 ∷ 2 ∷ 3 ∷ [])
        ∷ (empty, 9, [])
        ∷ [])
unfolding run enqueue enqueue_locked dequeue dequeue_locked read_block take_block spin cas32
    free_space save_block save_header save_body save_tail read_split next_index write_at read_at
    name_eq
run-wrapped = refl

enqueue-put_example :
    (q' : ShmQueue) × (enqueue wrapped (1 ∷ [])
      ≡ some ((Fifo.put 20 ((7 ∷ 8 ∷ []) ∷ []) (1 ∷ [])).0, q'))
    × Holds q' (Fifo.put 20 ((7 ∷ 8 ∷ []) ∷ []) (1 ∷ [])).1
    × IsFree q'
    × (q'.len ≡ 20)
enqueue-put_example = enqueue-put ((7 ∷ 8 ∷ []) ∷ []) (1 ∷ []) wrapped-Holds wrapped-IsFree

dequeue-get_example :
    (q' : ShmQueue) × (dequeue wrapped (some 9)
      ≡ some (record { status = success; buf_len = 2; date = 7 ∷ 8 ∷ []; queue = q' }))
    × Holds q' []
    × IsFree q'
    × (q'.len ≡ 20)
unfolding Fifo.get
dequeue-get_example = dequeue-get ((7 ∷ 8 ∷ []) ∷ []) 9 wrapped-Holds wrapped-IsFree

run-run_fifo_example : run wrapped script ≡ some (run_fifo 20 ((7 ∷ 8 ∷ []) ∷ []) script)
run-run_fifo_example = run-run_fifo script ((7 ∷ 8 ∷ []) ∷ []) wrapped-Holds wrapped-IsFree

-- Process 3 is inside with a call of Dequeue, and process 4 wants to get in.
abbrev start : System
start = record { queue = wrapped; pc = λ _. outside }

abbrev both_called : System
both_called = record start { pc = move (move start.pc 3 (wants (get 9))) 4 (wants (put [])) }

abbrev held : System
held = record {
  queue = record wrapped { used_num = 1 };
  pc = move both_called.pc 3 (inside (get 9));
}

held-Reach : Reach start held
unfolding spin cas32
held-Reach =
    later (later (later here (call 3 (get 9) refl)) (call 4 (put []) refl))
      (enter 3 (get 9) (record wrapped { used_num = 1 }) refl refl)

mutual_exclusion_example :
    ((i j : ℕ) → busy (held.pc i) ≡ true → busy (held.pc j) ≡ true → i ≡ j)
    × ((blocks : List Bytes) × Holds held.queue blocks)
mutual_exclusion_example =
    mutual_exclusion ((7 ∷ 8 ∷ []) ∷ []) wrapped-Holds wrapped-IsFree held-Reach

inside_proceeds_example :
    ((op : Op) → held.pc 3 ≡ inside op → (q' : ShmQueue) × (perform held.queue op ≡ some q'))
    × (held.pc 3 ≡ leaving → spin 1 0 held.queue ≡ some wrapped)
inside_proceeds_example =
    inside_proceeds ((7 ∷ 8 ∷ []) ∷ []) 3 wrapped-Holds wrapped-IsFree held-Reach
