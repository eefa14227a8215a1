-- ===== src/Persist/Publish.antt =====
-- PersistenceServer/PersistenceServer.cpp, OnPublishMessage: durable messages are put into groups of a
-- data file and an index file. `none` is a size that is read without having been set.
use mq_cplusplus.Base.{
  ℕ, ◌+◌, ◌-◌, Bool, true, false, Option, none, some, List, [], ◌∷◌, ◌++◌, ◌==◌, ltb, if◌then◌else◌,
  length, take, replicate, Bytes, name_eq, find, insert, ◌>>=◌,
}
use mq_cplusplus.Message.Wire.{int_bytes}
use mq_cplusplus.Logic.Server.{to_string}
use mq_cplusplus.Persist.Disk.{
  Disk, slash, is_file_exist, stat_size, write, open_append, open_empty,
}
use mq_cplusplus.Persist.Server.{PersistenceServer}

-- ".data", ".index", "/write_offset.bin"
abbrev pub data_ext : Bytes
data_ext = 46 ∷ 100 ∷ 97 ∷ 116 ∷ 97 ∷ []

abbrev pub index_ext : Bytes
index_ext = 46 ∷ 105 ∷ 110 ∷ 100 ∷ 101 ∷ 120 ∷ []

abbrev pub write_offset_bin : Bytes
write_offset_bin =
    47 ∷ 119 ∷ 114 ∷ 105 ∷ 116 ∷ 101 ∷ 95 ∷ 111 ∷ 102 ∷ 102 ∷ 115 ∷ 101 ∷ 116 ∷ 46 ∷ 98 ∷ 105 ∷ 110
    ∷ []

unfoldable pub convert_index_to_string : ℕ → Bytes
convert_index_to_string i = replicate (10 - length (to_string i)) 48 ++ to_string i

-- `dir/file` with an extension.
abbrev pub group_path : Bytes → Bytes → Bytes → Bytes
group_path dir name ext = dir ++ slash ∷ (name ++ ext)

-- `m[k]` where a missing key means an empty value, and `insert`, which keeps a value that is there.
unfoldable pub entry_of : {A : Type 0} → Bytes → List (Bytes × List A) → List A
entry_of k m = elim (find name_eq k m) [ none ↦ [] | some a ↦ a ]

unfoldable pub insert_new : ℕ → Bytes → List (ℕ × Bytes) → List (ℕ × Bytes)
insert_new k v m = elim (find ◌==◌ k m) [ none ↦ insert ◌==◌ k v m | some w ↦ m ]

-- Which group a message of `len` bytes goes to, and where in its data file: `none` is a new group.
unfoldable pub choose_group : Bytes → ℕ → Bytes → PersistenceServer → Option (Option (Bytes × ℕ))
choose_group dir len name s = elim (find name_eq name s.tail_file) [
  | none ↦ some none
  | some group ↦ elim (stat_size (group_path dir group data_ext) s.disk) [
    | none ↦ none
    | some size ↦ some (if ltb s.durable_file_size (size + len) then none else some (group, size))
  ]
]

-- The maps when the message with this index is put into a group; a new group has the index as its name.
unfoldable pub note_group :
    Bytes → ℕ → Option (Bytes × ℕ) → PersistenceServer → Bytes × ℕ × PersistenceServer
note_group name index none s =
    let group : Bytes = convert_index_to_string index in
    (
      group,
      0,
      record s {
        tail_file = insert name_eq name group s.tail_file;
        index_file =
            insert name_eq name (insert_new index group (entry_of name s.index_file)) s.index_file;
        queue_list = insert name_eq name (entry_of name s.queue_list ++ group ∷ []) s.queue_list;
      },
    )
note_group name index (some (group, pos)) s = (
  group,
  pos,
  record s {
    index_file =
        insert name_eq name (insert_new index group (entry_of name s.index_file)) s.index_file;
  },
)

unfoldable pub write_group : Bytes → Bytes → ℕ → ℕ → Bytes → Disk → Disk
write_group dir group index pos message d = write (dir ++ write_offset_bin) (int_bytes index) (
    write (group_path dir group index_ext) (int_bytes index ++ int_bytes pos)
      (write (group_path dir group data_ext) message d))

module _ (opens : Bytes → Bool) where
  -- The three files are opened, which makes them if they are missing, before any result is looked at.
  unfoldable pub open_group : Bytes → Bytes → Disk → Bool × Disk
  open_group dir group d =
      let (data_open, d₁) = tried d (open_append opens (group_path dir group data_ext) d) in
      let (index_open, d₂) = tried d₁ (open_append opens (group_path dir group index_ext) d₁) in
      let (offset_open, d₃) = tried d₂ (open_empty opens (dir ++ write_offset_bin) d₂) in
      (if data_open then if index_open then offset_open else false else false, d₃)
    where
      tried : Disk → Option Disk → Bool × Disk
      tried d none = (false, d)
      tried d (some d') = (true, d')

  unfoldable pub store_message :
      Bytes → ℕ → Bytes → Bytes × ℕ × PersistenceServer → Bool × PersistenceServer
  store_message dir index message (group, pos, s) =
      let (opened, d) = open_group dir group s.disk in
      (opened, record s { disk = if opened then write_group dir group index pos message d else d })

  unfoldable pub on_publish_message :
      Bytes → ℕ → Bytes → ℕ → PersistenceServer → Option (Bool × PersistenceServer)
  on_publish_message buffer len name index s =
      let dir : Bytes = s.queue_path ++ name in
      let stored = (do
        choice ← choose_group dir len name s
        some (store_message dir index (take len buffer) (note_group name index choice s))) in
      if is_file_exist dir s.disk then stored else some (false, s)
