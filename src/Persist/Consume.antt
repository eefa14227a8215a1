-- ===== src/Persist/Consume.antt =====
-- PersistenceServer/PersistenceServer.cpp, OnConsumeMessage: what was consumed is noted in the group's
-- third file, and a group of which all was consumed is removed.
use mq_cplusplus.Base.{
  ℕ, ◌/◌, Bool, true, false, Option, none, some, List, [], ◌∷◌, ◌++◌, ◌==◌, if◌then◌else◌, Bytes,
  name_eq, find, insert, erase, ◌>>=◌,
}
use mq_cplusplus.Message.Wire.{int_bytes, read_int}
use mq_cplusplus.Message.Read.{read_name}
use mq_cplusplus.Persist.Disk.{is_file_exist, stat_size, write, open_append, remove_file}
use mq_cplusplus.Persist.Server.{PersistenceServer}
use mq_cplusplus.Persist.Publish.{data_ext, index_ext, group_path}

-- ".consume"
abbrev pub consume_ext : Bytes
consume_ext = 46 ∷ 99 ∷ 111 ∷ 110 ∷ 115 ∷ 117 ∷ 109 ∷ 101 ∷ []

unfoldable pub without_name : Bytes → List Bytes → List Bytes
without_name g [] = []
without_name g (x ∷ xs) = let rest = without_name g xs in if name_eq x g then rest else x ∷ rest

-- The group's files and what the maps say of it are removed. The map of the indices stays.
unfoldable pub drop_group : Bytes → Bytes → Bytes → PersistenceServer → PersistenceServer
drop_group dir name group s =
    let is_tail : Bool = elim (find name_eq name s.tail_file) [
      | none ↦ false
      | some g ↦ name_eq g group
    ] in
    record s {
      disk = remove_file (group_path dir group consume_ext) (
          remove_file (group_path dir group index_ext)
            (remove_file (group_path dir group data_ext) s.disk));
      tail_file = if is_tail then erase name_eq name s.tail_file else s.tail_file;
      queue_list = elim (find name_eq name s.queue_list) [
        | none ↦ s.queue_list
        | some groups ↦ insert name_eq name (without_name group groups) s.queue_list
      ];
    }

-- Behind the write: the entries of both files are counted.
unfoldable pub count_group : Bytes → Bytes → Bytes → PersistenceServer → Bool × PersistenceServer
count_group dir name group s = elim (stat_size (group_path dir group consume_ext) s.disk) [
  | none ↦ (false, s)
  | some consumed ↦ elim (stat_size (group_path dir group index_ext) s.disk) [
    | none ↦ (false, s)
    | some indexed ↦
        if consumed / 4 == indexed / 8 then (true, drop_group dir name group s) else (true, s)
  ]
]

-- The group that holds the message with this index.
unfoldable pub group_of : Bytes → ℕ → PersistenceServer → Option Bytes
group_of name index s = do groups ← find name_eq name s.index_file; find ◌==◌ index groups

module _ (opens : Bytes → Bool) where
  unfoldable pub consume_in :
      Bytes → Bytes → ℕ → Option Bytes → PersistenceServer → Bool × PersistenceServer
  consume_in dir name index none s = (false, s)
  consume_in dir name index (some group) s =
      elim (open_append opens (group_path dir group consume_ext) s.disk) [
        | none ↦ (false, s)
        | some d ↦
            count_group dir name group
              (record s { disk = write (group_path dir group consume_ext) (int_bytes index) d })
      ]

  unfoldable pub on_consume_message : Bytes → PersistenceServer → Option (Bool × PersistenceServer)
  on_consume_message buffer s = do
    (name, rest) ← read_name buffer
    (index, rest) ← read_int rest
    let dir : Bytes = s.queue_path ++ name
    some (
        if is_file_exist dir s.disk
        then consume_in dir name index (group_of name index s) s
        else (false, s))
