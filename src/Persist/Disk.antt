-- ===== src/Persist/Disk.antt =====
-- The files and directories that PersistenceServer/PersistenceServer.cpp works on, and the functions of
-- mq_util/mq_util.cpp for them. A disk leads paths to what stands there. Calls on directories succeed; a
-- file opens where its path leads to no directory and the system lets it, which `opens` says.
use mq_cplusplus.Base.{
  ℕ, Bool, true, false, ◌&&◌, ◌||◌, Option, none, some, List, [], ◌∷◌, ◌++◌, ◌==◌, if◌then◌else◌,
  length, Bytes, name_eq, find, insert, erase,
}

pub data Node : Type 0 where
  dir : Node
  file : Bytes → Node

abbrev pub Disk : Type 0
Disk = List (Bytes × Node)

abbrev pub slash : ℕ
slash = 47

-- IsFileExist
unfoldable pub is_file_exist : Bytes → Disk → Bool
is_file_exist path d = elim (find name_eq path d) [ none ↦ false | some n ↦ true ]

-- `st_size` of a file, where stat finds one.
unfoldable pub stat_size : Bytes → Disk → Option ℕ
stat_size path d = elim (find name_eq path d) [
  | none ↦ none
  | some n ↦ elim n [ dir ↦ none | file bytes ↦ some (length bytes) ]
]

-- CheckDir
unfoldable pub check_dir : Bytes → Disk → Disk
check_dir path d = if is_file_exist path d then d else insert name_eq path dir d

-- MakeDir: every front of the path that ends before a '/', and the path. `front` is what the loop has
-- passed, without a '/' at its end, which names the same directory.
unfoldable pub make_dir_from : Bytes → Bytes → Disk → Disk
make_dir_from front [] d = d
make_dir_from front (c ∷ []) d =
    let last = check_dir (front ++ c ∷ []) d in
    let passed = check_dir front d in
    elim front [
      | [] ↦ if c == slash then d else last
      | a ∷ as' ↦ if c == slash then passed else last
    ]
make_dir_from front (c ∷ e ∷ rest) d =
    let go = make_dir_from (front ++ c ∷ []) (e ∷ rest) d in
    let checked = make_dir_from (front ++ c ∷ []) (e ∷ rest) (check_dir front d) in
    elim front [ [] ↦ go | a ∷ as' ↦ if c == slash then checked else go ]

unfoldable pub make_dir : Bytes → Disk → Disk
make_dir path d = make_dir_from [] path d

unfoldable pub starts_with : Bytes → Bytes → Bool
starts_with [] path = true
starts_with (a ∷ as') [] = false
starts_with (a ∷ as') (b ∷ bs) = (a == b) && starts_with as' bs

-- RemoveDir: all that is below, and the directory.
unfoldable pub remove_dir : Bytes → Disk → Disk
remove_dir path [] = []
remove_dir path ((p, n) ∷ d) =
    let rest = remove_dir path d in
    if name_eq p path || starts_with (path ++ slash ∷ []) p then rest else (p, n) ∷ rest

-- RemoveFile
unfoldable pub remove_file : Bytes → Disk → Disk
remove_file path d = elim (find name_eq path d) [
  | none ↦ d
  | some n ↦ elim n [ file bytes ↦ erase name_eq path d | dir ↦ remove_dir path d ]
]

-- fwrite at the end of a file that is open.
unfoldable pub write : Bytes → Bytes → Disk → Disk
write path bytes d = elim (find name_eq path d) [
  | none ↦ d
  | some n ↦ elim n [ dir ↦ d | file old ↦ insert name_eq path (file (old ++ bytes)) d ]
]

-- fopen with "ab+", and with "wb+".
module _ (opens : Bytes → Bool) where
  unfoldable pub open_append : Bytes → Disk → Option Disk
  open_append path d =
      if opens path
      then elim (find name_eq path d) [
        | none ↦ some (insert name_eq path (file []) d)
        | some n ↦ elim n [ dir ↦ none | file bytes ↦ some d ]
      ]
      else none

  unfoldable pub open_empty : Bytes → Disk → Option Disk
  open_empty path d =
      if opens path
      then elim (find name_eq path d) [
        | none ↦ some (insert name_eq path (file []) d)
        | some n ↦ elim n [ dir ↦ none | file bytes ↦ some (insert name_eq path (file []) d) ]
      ]
      else none
