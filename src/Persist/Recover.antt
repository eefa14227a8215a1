-- ===== src/Persist/Recover.antt =====
-- PersistenceServer/PersistenceServer.cpp, InitFileInfo, FindIndexFiles and ProcessIndexFile: the maps
-- are built again from the files. A directory is read in the order of the disk.
use mq_cplusplus.Base.{
  ℕ, zero, suc, Bool, true, false, not, ◌&&◌, ◌||◌, Option, none, some, List, [], ◌∷◌, ◌++◌, ◌==◌,
  ltb, if◌then◌else◌, length, drop, Bytes, name_eq, find, insert, ◌>>=◌,
}
use mq_cplusplus.Message.Wire.{read_int}
use mq_cplusplus.Persist.Disk.{Disk, Node, dir, file, slash, starts_with}
use mq_cplusplus.Persist.Server.{PersistenceServer}
use mq_cplusplus.Persist.Publish.{index_ext, group_path, entry_of, insert_new}

-- The entries of an index file: pairs of an index and a position. `none` is a read past its end.
unfoldable pub read_entries : ℕ → Bytes → Option (List (ℕ × ℕ))
read_entries fuel [] = some []
read_entries zero (b ∷ bs) = none
read_entries (suc fuel) (b ∷ bs) = do
  (index, rest) ← read_int (b ∷ bs)
  (pos, rest) ← read_int rest
  entries ← read_entries fuel rest
  some ((index, pos) ∷ entries)

-- The map of the indices with the entries of a group.
unfoldable pub insert_entries : Bytes → List (ℕ × ℕ) → List (ℕ × Bytes) → List (ℕ × Bytes)
insert_entries group [] m = m
insert_entries group ((index, pos) ∷ entries) m =
    insert_entries group entries (insert_new index group m)

-- ProcessIndexFile
unfoldable pub process_index_file :
    Bytes → Bytes → PersistenceServer → Option (Bool × PersistenceServer)
process_index_file name group s =
    elim (find name_eq (group_path (s.queue_path ++ name) group index_ext) s.disk) [
      | none ↦ some (false, s)
      | some n ↦ elim n [
        | dir ↦ some (false, s)
        | file bytes ↦ elim bytes [
          | [] ↦ some (false, s)
          | b ∷ bs ↦ do
            entries ← read_entries (length (b ∷ bs)) (b ∷ bs)
            some (
              true,
              record s {
                index_file =
                    insert name_eq name (insert_entries group entries (entry_of name s.index_file))
                      s.index_file;
              },
            )
        ]
      ]
    ]

-- What stands in a directory itself, by its name: `front` is the directory's path with a '/' behind it.
unfoldable pub has_slash : Bytes → Bool
has_slash [] = false
has_slash (b ∷ bs) = (b == slash) || has_slash bs

unfoldable pub entries_in : Bytes → Disk → List (Bytes × Node)
entries_in front [] = []
entries_in front ((p, n) ∷ d) =
    let rest = entries_in front d in
    let name : Bytes = drop (length front) p in
    if starts_with front p && (not (has_slash name) && not (length name == 0))
    then (name, n) ∷ rest
    else rest

-- What stands before the first ".index" of a file's name, if one stands in it.
unfoldable pub before_index : Bytes → Option Bytes
before_index [] = none
before_index (b ∷ bs) =
    let rest = before_index bs in
    if starts_with index_ext (b ∷ bs) then some [] else (do s ← rest; some (b ∷ s))

-- FindIndexFiles
unfoldable pub index_names : List (Bytes × Node) → List Bytes
index_names [] = []
index_names ((name, n) ∷ entries) =
    let rest = index_names entries in
    elim n [
      | dir ↦ rest
      | file bytes ↦ elim (before_index name) [ none ↦ rest | some group ↦ group ∷ rest ]
    ]

unfoldable pub find_index_files : Bytes → Disk → List Bytes
find_index_files path d = index_names (entries_in (path ++ slash ∷ []) d)

-- `<` on std::string, and std::sort.
unfoldable pub name_less : Bytes → Bytes → Bool
name_less s [] = false
name_less [] (b ∷ bs) = true
name_less (a ∷ as') (b ∷ bs) = let rest = name_less as' bs in ltb a b || ((a == b) && rest)

unfoldable pub insert_sorted : Bytes → List Bytes → List Bytes
insert_sorted x [] = x ∷ []
insert_sorted x (y ∷ ys) =
    let rest = insert_sorted x ys in if name_less y x then y ∷ rest else x ∷ (y ∷ ys)

unfoldable pub sort : List Bytes → List Bytes
sort [] = []
sort (x ∷ xs) = insert_sorted x (sort xs)

unfoldable pub process_index_files :
    Bytes → List Bytes → PersistenceServer → Option PersistenceServer
process_index_files name [] s = some s
process_index_files name (group ∷ groups) s = do
  (ret, s') ← process_index_file name group s
  process_index_files name groups (record s' {
    queue_list = insert name_eq name (entry_of name s'.queue_list ++ group ∷ []) s'.queue_list;
  })

-- The loop over the directories of the queues.
unfoldable pub init_queues : List (Bytes × Node) → PersistenceServer → Option PersistenceServer
init_queues [] s = some s
init_queues ((name, n) ∷ entries) s = elim n [
  | file bytes ↦ init_queues entries s
  | dir ↦ do
    s' ← process_index_files name (sort (find_index_files (s.queue_path ++ name) s.disk)) s
    init_queues entries s'
]

-- InitFileInfo: `queue_path` ends with a '/', and a second one in a path makes no difference.
unfoldable pub init_file_info : PersistenceServer → Option PersistenceServer
init_file_info s = init_queues (entries_in s.queue_path s.disk) s
