-- ===== src/ShmQueue.antt =====
-- shm_queue/shm_queue.cpp and shm_queue.h: the queue of data blocks in shared memory. The header
-- of the segment and the block bytes are the fields of one record; a function that updates them
-- returns the new record beside its status. Under `View.Holds` the `int` differences below never
-- go under zero, so they are plain subtractions; the block counter keeps its wrap-around.
pub mod Memory
pub mod Ring
pub mod Writes
pub mod Layout
pub mod View
pub mod Fifo
pub mod Put
pub mod Read
pub mod Taken
pub mod Get
pub mod Trace
pub mod Lock
pub mod Channel
mod Tests
use mq_cplusplus.Base.{
  ℕ, zero, suc, ◌+◌, ◌-◌, ◌%◌, ◌^◌, Bool, true, false, not, ◌&&◌, ◌||◌, Option, none, some, List,
  [], ◌++◌, ltb, leb, ◌==◌, if◌then◌else◌, length, take, drop, get_or, replicate, Bytes, name_eq,
  ◌>>=◌,
}
use Memory.{write_at, read_at, le32, int_at}

-- The return codes. ERR_SHM_QUEUE_DATE_RESET and ERR_SHM_QUEUE_DATE_TAIL share the number -208.
pub data Status : Type 0 where
  success error full empty buf_small date_reset date_tail : Status

-- `QueueHead`, the bytes behind it, `m_iQueueSize`, and whether `m_pQueueHead` is set.
pub record ShmQueue : Type 0 where
  pub len : ℕ
  pub head : ℕ
  pub tail : ℕ
  pub block_num : ℕ
  pub used_num : ℕ
  pub mem : Bytes
  pub queue_size : ℕ
  pub attached : Bool

-- sizeof(DateBlockHead), sizeof(pTail) and TAIL_FLAG
abbrev pub head_size : ℕ
head_size = 8

abbrev pub tail_size : ℕ
tail_size = 6

abbrev pub tail_flag : ℕ
tail_flag = 0xdd

abbrev pub tail_mark : Bytes
tail_mark = replicate tail_size tail_flag

-- The bytes of a `DateBlockHead`: m_iIndex, then m_iDateLen.
abbrev pub header_bytes : ℕ → ℕ → Bytes
header_bytes index date_len = le32 index (le32 date_len [])

-- `int` counters: their 32-bit patterns.
abbrev pub inc32 : ℕ → ℕ
inc32 n = (n + 1) % 2 ^ 32

abbrev pub dec32 : ℕ → ℕ
dec32 n = (n + 2 ^ 32 - 1) % 2 ^ 32

abbrev pub is_negative : ℕ → Bool
is_negative n = leb (2 ^ 31) n

-- The part of Init that lays out a fresh segment, and the part that opens one that is there.
pub init_fresh : ℕ → ShmQueue
init_fresh queue_size = record {
  len = queue_size;
  head = 0;
  tail = 0;
  block_num = 0;
  used_num = 0;
  mem = replicate queue_size 0;
  queue_size = queue_size;
  attached = true;
}

pub free_space : ShmQueue → ℕ
free_space q =
    if ltb q.head q.tail || (q.head == q.tail && q.block_num == 0)
    then q.len - (q.tail - q.head)
    else if ltb q.tail q.head
    then q.head - q.tail
    else 0

-- `m_pMemAddr`, `saveIndex` and `tailRightSpace` while a block is written.
pub record Cursor : Type 0 where
  pub bytes : Bytes
  pub index : ℕ
  pub space : ℕ

module _ (len head : ℕ) where
  pub save_header : Cursor → Bytes → Cursor
  save_header c hdr =
      if leb head_size c.space
      then record {
        bytes = write_at c.bytes c.index hdr;
        index = (c.index + head_size) % len;
        space = c.space - head_size;
      }
      else record {
        bytes = write_at (write_at c.bytes c.index (take c.space hdr)) 0 (drop c.space hdr);
        index = (0 + head_size - c.space) % len;
        space = head - (0 + head_size - c.space) % len;
      }

  pub save_body : Cursor → Bytes → Cursor
  save_body c date =
      if leb (length date) c.space
      then record {
        bytes = write_at c.bytes c.index date;
        index = (c.index + length date) % len;
        space = c.space - length date;
      }
      else record {
        bytes = write_at (write_at c.bytes c.index (take c.space date)) 0 (drop c.space date);
        index = (0 + length date - c.space) % len;
        space = head - (0 + length date - c.space) % len;
      }

pub save_tail : Cursor → Bytes
save_tail c =
    if leb tail_size c.space
    then write_at c.bytes c.index tail_mark
    else write_at (write_at c.bytes c.index (take c.space tail_mark)) 0 (drop c.space tail_mark)

-- The three writes of Enqueue, straight where the block fits before the end of the segment.
pub save_block : ShmQueue → Bytes → Bytes
save_block q date =
    let hdr = header_bytes q.tail (length date) in
    if ltb q.tail q.head || leb (length date + head_size + tail_size) (q.len - q.tail)
    then write_at (write_at (write_at q.mem q.tail hdr) (q.tail + head_size) date)
        (q.tail + head_size + length date) tail_mark
    else save_tail (
        save_body q.len q.head
          (save_header q.len q.head
            (record { bytes = q.mem; index = q.tail; space = q.len - q.tail }) hdr)
          date)

-- Enqueue between the two spin loops.
unfoldable pub enqueue_locked : ShmQueue → Bytes → Status × ShmQueue
enqueue_locked q date =
    if ltb (free_space q) (head_size + length date + tail_size) then (full, q) else (
      success,
      record q {
        tail = (q.tail + length date + head_size + tail_size) % q.len;
        block_num = inc32 q.block_num;
        mem = save_block q date;
      },
    )

-- What Dequeue hands back: the status, `*iopBufLen`, the bytes copied into `opBuf`, the queue.
pub record Reply : Type 0 where
  pub status : Status
  pub buf_len : ℕ
  pub date : Bytes
  pub queue : ShmQueue

-- Reading `n` bytes from `i`, `space` of them before the end, and the index after them.
pub read_split : Bytes → ℕ → ℕ → ℕ → Bytes
read_split mem i space n =
    if leb n space then read_at mem i n else read_at mem i space ++ read_at mem 0 (n - space)

pub next_index : ℕ → ℕ → ℕ → ℕ → ℕ
next_index len i space n = if leb n space then (i + n) % len else (0 + n - space) % len

-- The search for the next block after a header that does not stand where `m_iHead` says: the index
-- just past six tail flags. The loop has no other exit; `none` is a search that is not over yet.
pub find_tail : ℕ → Bytes → ℕ → ℕ → ℕ → Option ℕ
find_tail zero mem len read_index count = none
find_tail (suc fuel) mem len read_index count =
    let count' = if get_or mem read_index 0 == tail_flag then count + 1 else 0 in
    let next = (read_index + 1) % len in
    let rest = find_tail fuel mem len next count' in if count' == 6 then some next else rest

-- Twice round the ring.
abbrev pub find_fuel : ShmQueue → ℕ
find_fuel q = q.len + q.len

pub reset : ShmQueue → ShmQueue
reset q = record q { len = q.queue_size; head = 0; tail = 0; block_num = 0 }

-- The branch of a header that is not at the head: skip to the next block, or empty the queue.
pub resync : ShmQueue → ℕ → ℕ → Option Reply
resync q read_index buf_len =
    if ltb 0 q.block_num && not (is_negative q.block_num)
    then (do
      next ← find_tail (find_fuel q) q.mem q.len read_index 0
      some (record {
        status = date_reset;
        buf_len = buf_len;
        date = [];
        queue = record q { head = next; block_num = dec32 q.block_num };
      }))
    else some (record { status = empty; buf_len = buf_len; date = []; queue = reset q })

-- The branch of a sound header: copy the data, step over the block, compare the tail flags.
pub take_block : ShmQueue → ℕ → ℕ → Reply
take_block q read_index date_len =
    let space = q.len - read_index in
    let after = next_index q.len read_index space date_len in
    let space' = if leb date_len space then space - date_len else q.len - after in
    let read_tail = read_split q.mem after space' tail_size in
    record {
      status = if name_eq tail_mark read_tail then success else date_tail;
      buf_len = date_len;
      date = read_split q.mem read_index space date_len;
      queue = record q {
        head = (q.head + head_size + date_len + tail_size) % q.len;
        block_num = dec32 q.block_num;
      };
    }

-- What Dequeue does with a header that says `index` and `date_len`.
pub read_block : ShmQueue → ℕ → ℕ → ℕ → ℕ → Option Reply
read_block q buf_len read_index index date_len =
    if not (is_negative date_len) && ltb buf_len date_len
    then some (record { status = buf_small; buf_len = date_len; date = []; queue = q })
    else if not (index == q.head)
    then resync q read_index buf_len
    else if is_negative date_len
    then some (record { status = empty; buf_len = buf_len; date = []; queue = reset q })
    else some (take_block q read_index date_len)

-- Dequeue between the spin loops; `none` where the search for a block is not over after two
-- rounds.
pub dequeue_locked : ShmQueue → ℕ → Option Reply
dequeue_locked q buf_len =
    if (ltb 0 q.block_num && not (is_negative q.block_num)) || not (q.head == q.tail)
    then (let hdr = read_split q.mem q.head (q.len - q.head) head_size in
        let read_index = next_index q.len q.head (q.len - q.head) head_size in
        read_block q buf_len read_index (int_at hdr 0) (int_at hdr 4))
    else some (record { status = empty; buf_len = buf_len; date = []; queue = q })

-- CAS32 on m_iUsedNum: whether the swap took place, and the value after it.
pub cas32 : ℕ → ℕ → ℕ → Bool × ℕ
cas32 val old new = if val == old then (true, new) else (false, val)

-- A spin loop that no other process interferes with: the first try, or none for ever.
pub spin : ℕ → ℕ → ShmQueue → Option ShmQueue
spin old new q =
    let (swapped, val) = cas32 q.used_num old new in
    if swapped then some (record q { used_num = val }) else none

-- Enqueue as a whole. `none`: the spin loop does not end.
pub enqueue : ShmQueue → Bytes → Option (Status × ShmQueue)
enqueue q date = if not q.attached then some (error, q) else (do
  held ← spin 0 1 q
  let (ret, held') = enqueue_locked held date
  freed ← spin 1 0 held'
  some (ret, freed))

-- Dequeue as a whole. The arguments `opBuf` and `iopBufLen` are one value, `none` if one is NULL.
pub dequeue : ShmQueue → Option ℕ → Option Reply
dequeue q none = some (record { status = error; buf_len = 0; date = []; queue = q })
dequeue q (some buf_len) =
    if not q.attached
    then some (record { status = error; buf_len = buf_len; date = []; queue = q })
    else (do
      held ← spin 0 1 q
      r ← dequeue_locked held buf_len
      freed ← spin 1 0 r.queue
      some (record r { queue = freed }))
