-- ===== src/Persist/Merge.antt =====
-- PersistenceServer/PersistenceServer.cpp, ClearUpFile, CalculateCondsumeRate and MergeFiles: two groups of
-- which most was consumed become one. `none` is a read or a write outside an array, or an iterator behind
-- the end of its list.
use mq_cplusplus.Base.{
  ℕ, zero, suc, ◌+◌, ◌*◌, ◌/◌, Bool, true, false, not, ◌&&◌, ◌||◌, Option, none, some, List, [],
  ◌∷◌, ◌++◌, ◌==◌, ltb, leb, if◌then◌else◌, length, take, drop, put_at, replicate, Bytes, name_eq,
  find, insert, erase, ◌>>=◌,
}
use mq_cplusplus.Message.Wire.{int_bytes, read_int, read_short}
use mq_cplusplus.Persist.Disk.{
  Disk, dir, file, stat_size, write, open_append, open_empty, remove_file,
}
use mq_cplusplus.Persist.Server.{PersistenceServer}
use mq_cplusplus.Persist.Publish.{data_ext, index_ext, group_path}
use mq_cplusplus.Persist.Consume.{consume_ext}
use mq_cplusplus.Persist.Recover.{read_entries}

-- Whether CalculateCondsumeRate of a group is above 0.5: a group without a file or with an empty one has
-- rate 0; a division by 0 is an infinite rate, or none if nothing was consumed.
unfoldable pub above_half : Bytes → Bytes → Disk → Bool
above_half path group d = elim (stat_size (group_path path group index_ext) d) [
  | none ↦ false
  | some indexed ↦ elim (stat_size (group_path path group consume_ext) d) [
    | none ↦ false
    | some consumed ↦ if indexed == 0 then false else ltb (indexed / 8) (2 * (consumed / 4))
  ]
]

-- A file that is mapped: it is there and not empty.
unfoldable pub mapped : Bytes → Disk → Option Bytes
mapped path d = elim (find name_eq path d) [
  | none ↦ none
  | some n ↦ elim n [ dir ↦ none | file bytes ↦ elim bytes [ [] ↦ none | b ∷ bs ↦ some (b ∷ bs) ] ]
]

unfoldable pub read_consumed : ℕ → Bytes → Option (List ℕ)
read_consumed fuel [] = some []
read_consumed zero (b ∷ bs) = none
read_consumed (suc fuel) (b ∷ bs) = do
  (index, rest) ← read_int (b ∷ bs)
  more ← read_consumed fuel rest
  some (index ∷ more)

unfoldable pub is_consumed : ℕ → List ℕ → Bool
is_consumed index [] = false
is_consumed index (x ∷ xs) = (x == index) || is_consumed index xs

-- The buffers of MergeFiles and the map of the queue's indices, which may be missing.
pub record Sifted : Type 0 where
  pub index_buff : Bytes
  pub index_len : ℕ
  pub messages : Bytes
  pub groups : Option (List (ℕ × Bytes))

unfoldable pub in_groups :
    (List (ℕ × Bytes) → List (ℕ × Bytes)) → Option (List (ℕ × Bytes)) → Option (List (ℕ × Bytes))
in_groups f none = none
in_groups f (some m) = some (f m)

-- A message is kept. Its entry goes to the front of `pIndexBuff`, whatever stands there.
unfoldable pub keep : Option Bytes → ℕ → ℕ → Bytes → Sifted → Sifted
keep to index pos message k = record {
  index_buff = put_at 0 (int_bytes index ++ int_bytes pos) k.index_buff;
  index_len = k.index_len + 8;
  messages = k.messages ++ message;
  groups = elim to [ none ↦ k.groups | some group ↦ in_groups (insert ◌==◌ index group) k.groups ];
}

-- The loop over the entries of a group; `room` is the size of `pDataBuff`, `to` the group that an index is
-- noted with.
unfoldable pub sift : ℕ → Bytes → List ℕ → Option Bytes → List (ℕ × ℕ) → Sifted → Option Sifted
sift room bytes consumed to [] k = some k
sift room bytes consumed to ((index, pos) ∷ entries) k =
    let gone =
      sift room bytes consumed to entries
        (record k { groups = in_groups (erase ◌==◌ index) k.groups }) in
    let kept = (do
      (len, rest) ← read_short (drop pos bytes)
      let more =
          sift room bytes consumed to entries (keep to index pos (take len (drop pos bytes)) k)
      (if leb (pos + len) (length bytes) && leb (length k.messages + len) room
          then more
          else none)) in
    if is_consumed index consumed then gone else kept

-- The three files of a group.
unfoldable pub map_group : Bytes → Bytes → Disk → Option (Bytes × Bytes × Bytes)
map_group path group d = do
  index ← mapped (group_path path group index_ext) d
  stored ← mapped (group_path path group data_ext) d
  consume ← mapped (group_path path group consume_ext) d
  some (index, stored, consume)

-- The buffers after a group has been gone through.
unfoldable pub sift_group :
    ℕ → Option Bytes → ℕ → Bytes × Bytes × Bytes → Option (List (ℕ × Bytes)) → Option Sifted
sift_group room to size (index, stored, consume) groups = do
  consumed ← read_consumed (length consume) consume
  entries ← read_entries (length index) index
  sift room stored consumed to entries
      (record { index_buff = replicate size 0; index_len = 0; messages = []; groups = groups })

module _ (opens : Bytes → Bool) where
  -- Both files of a group are opened, and written if that succeeds.
  unfoldable pub write_pair :
      (Bytes → Disk → Option Disk) → Bytes → Bytes → Sifted → Disk → Bool × Disk
  write_pair fopen path group k d =
      let (data_open, d₁) = tried d (fopen (group_path path group data_ext) d) in
      let (index_open, d₂) = tried d₁ (fopen (group_path path group index_ext) d₁) in
      if data_open && index_open
      then (
        true,
        write (group_path path group index_ext) (take k.index_len k.index_buff)
            (write (group_path path group data_ext) k.messages d₂),
      )
      else (false, d₂)
    where
      tried : Disk → Option Disk → Bool × Disk
      tried d none = (false, d)
      tried d (some d') = (true, d')

  unfoldable pub remove_merged : Bytes → Bytes → Bytes → Disk → Disk
  remove_merged path first second d = remove_file (group_path path first consume_ext) (
      remove_file (group_path path second consume_ext) (
        remove_file (group_path path second data_ext)
          (remove_file (group_path path second index_ext) d)))

  unfoldable pub with_groups :
      Bytes → Option (List (ℕ × Bytes)) → PersistenceServer → PersistenceServer
  with_groups name none s = s
  with_groups name (some m) s = record s { index_file = insert name_eq name m s.index_file }

  -- The second group, behind the first.
  unfoldable pub merge_second :
      Bytes
      → Bytes
      → Bytes
      → Bytes
      → ℕ
      → Bytes × Bytes × Bytes
      → Sifted
      → Bool × Disk
      → PersistenceServer
      → Option (Bool × PersistenceServer)
  merge_second path name first second size files k (false, d) s =
      some (false, with_groups name k.groups (record s { disk = d }))
  merge_second path name first second size files k (true, d) s = do
    k' ← sift_group s.durable_file_size (some first) size files k.groups
    let (opened, d') = write_pair (open_append opens) path first k' d
    let after : PersistenceServer =
        with_groups name k'.groups
          (record s { disk = if opened then remove_merged path first second d' else d' })
    (if leb k'.index_len size || not opened then some (opened, after) else none)

  unfoldable pub merge_mapped :
      Bytes
      → Bytes
      → Bytes
      → Bytes
      → Bytes × Bytes × Bytes
      → Bytes × Bytes × Bytes
      → PersistenceServer
      → Option (Bool × PersistenceServer)
  merge_mapped path name first second (index, stored, consume) files s = do
    k ←
        sift_group s.durable_file_size none (length index) (index, stored, consume)
          (find name_eq name s.index_file)
    merge_second path name first second (length index) files k
        (write_pair (open_empty opens) path first k s.disk) s

  unfoldable pub merge_files :
      Bytes → Bytes → Bytes → PersistenceServer → Option (Bool × PersistenceServer)
  merge_files name first second s =
      let path : Bytes = s.queue_path ++ name in
      elim (map_group path first s.disk) [
        | none ↦ some (false, s)
        | some one ↦ elim (map_group path second s.disk) [
          | none ↦ some (false, s)
          | some two ↦ merge_mapped path name first second one two s
        ]
      ]

  -- Two groups in a row: they are merged if more than half of each was consumed.
  unfoldable pub clear_pair :
      Bytes → Bytes → Bytes → ℕ × PersistenceServer → Option (ℕ × PersistenceServer)
  clear_pair name prev cur (count, s) =
      let path : Bytes = s.queue_path ++ name in
      let merged = (do
        (ok, s') ← merge_files name prev cur s
        some (if ok then count + 1 else count, s')) in
      if above_half path prev s.disk && above_half path cur s.disk then merged else some (count, s)

  -- The loop over a queue's groups: behind each pair the iterator is moved and read once more.
  unfoldable pub clear_groups :
      Bytes → Bytes → List Bytes → ℕ × PersistenceServer → Option (ℕ × PersistenceServer)
  clear_groups name prev [] s = some s
  clear_groups name [] (x ∷ xs) s = clear_groups name x xs s
  clear_groups name (a ∷ prev) (x ∷ []) s = none
  clear_groups name (a ∷ prev) (x ∷ y ∷ ys) s = do
    s' ← clear_pair name (a ∷ prev) x s
    clear_groups name y ys s'

  -- ClearUpFile, over the queues of the map until something was merged.
  unfoldable pub clear_queues :
      List (Bytes × List Bytes) → ℕ × PersistenceServer → Option (ℕ × PersistenceServer)
  clear_queues [] s = some s
  clear_queues ((name, groups) ∷ queues) (count, s) =
      let go = (do s' ← clear_groups name [] groups (count, s); clear_queues queues s') in
      if count == 0 then go else some (count, s)

  unfoldable pub clear_up_file : PersistenceServer → Option (ℕ × PersistenceServer)
  clear_up_file s = clear_queues s.queue_list (0, s)
