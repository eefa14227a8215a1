-- ===== src/Persist/Steps.antt =====
-- PersistenceServer/PersistenceServer.cpp, OnPublishMessage: its steps on the branches that it takes.
use mq_cplusplus.Base.{
  ℕ, ◌+◌, ◌≤◌, ◌≡◌, refl, ap, Bool, true, false, Option, none, some, List, [], ◌∷◌, ◌++◌, arith,
  length, Bytes, le→ltb, length-append, take_all, name_eq, find, insert,
}
use mq_cplusplus.Persist.Disk.{Disk, Node, file, slash, is_file_exist, stat_size}
use mq_cplusplus.Persist.Server.{PersistenceServer}
use mq_cplusplus.Persist.Publish.{
  group_path, data_ext, convert_index_to_string, insert_new, entry_of, choose_group, note_group,
  store_message, on_publish_message,
}
use mq_cplusplus.Persist.Paths.{longer_apart}

-- The directory is none of the files in it.
pub file_apart : (path rest : Bytes) → name_eq (path ++ slash ∷ rest) path ≡ false
file_apart path rest =
    longer_apart (path ++ slash ∷ rest) path (omega (arith, length-append path (slash ∷ rest)))

-- The steps of OnPublishMessage, put together again.
pub publish_in :
    (opens : Bytes → Bool) (m name path : Bytes) (index : ℕ) (s : PersistenceServer)
    (choice : Option (Bytes × ℕ)) (noting : Bytes × ℕ × PersistenceServer)
    (r : Bool × PersistenceServer)
    → s.queue_path ++ name ≡ path
    → is_file_exist path s.disk ≡ true
    → choose_group path (length m) name s ≡ some choice
    → note_group name index choice s ≡ noting
    → store_message opens path index m noting ≡ r
    → on_publish_message opens m (length m) name index s ≡ some r
unfolding on_publish_message
publish_in opens m name path index s choice noting r at there chooses notes stores =
    rw (on_publish_message, at, there, chooses, notes, take_all m (length m) (omega arith), stores)
      refl

pub is_there :
    (path : Bytes) (d : Disk) (n : Node)
    → find name_eq path d ≡ some n
    → is_file_exist path d ≡ true
unfolding is_file_exist
is_there path d n e = rw (is_file_exist, e) refl

pub chooses_tail :
    (path name group : Bytes) (len : ℕ) (old : Bytes) (s : PersistenceServer)
    → find name_eq name s.tail_file ≡ some group
    → find name_eq (group_path path group data_ext) s.disk ≡ some (file old)
    → length old + len ≤ s.durable_file_size
    → choose_group path len name s ≡ some (some (group, length old))
unfolding choose_group stat_size
chooses_tail path name group len old s tail held room =
    rw (choose_group, tail, held, le→ltb _ _ room) refl

pub chooses_new :
    (path name : Bytes) (len : ℕ) (s : PersistenceServer)
    → find name_eq name s.tail_file ≡ none
    → choose_group path len name s ≡ some none
unfolding choose_group
chooses_new path name len s tail = rw (choose_group, tail) refl

abbrev pub noted_index : Bytes → List (ℕ × Bytes) → PersistenceServer → PersistenceServer
noted_index name known s = record s { index_file = insert name_eq name known s.index_file }

pub notes_tail :
    (name group : Bytes) (index pos : ℕ) (known : List (ℕ × Bytes)) (s : PersistenceServer)
    → find name_eq name s.index_file ≡ some known
    → note_group name index (some (group, pos)) s
      ≡ (group, pos, noted_index name (insert_new index group known) s)
unfolding note_group entry_of
notes_tail name group index pos known s knows = rw (note_group, entry_of, knows) refl

pub entry_of-none :
    (k : Bytes) (m : List (Bytes × List (ℕ × Bytes))) → find name_eq k m ≡ none → entry_of k m ≡ []
unfolding entry_of
entry_of-none k m e = rw (entry_of, e) refl

-- What a new group is noted as.
abbrev pub new_group : Bytes → ℕ → PersistenceServer → PersistenceServer
new_group name index s = record s {
  tail_file = insert name_eq name (convert_index_to_string index) s.tail_file;
  index_file =
      insert name_eq name (insert_new index (convert_index_to_string index) []) s.index_file;
  queue_list =
      insert name_eq name (entry_of name s.queue_list ++ convert_index_to_string index ∷ [])
        s.queue_list;
}

pub notes_new :
    (name : Bytes) (index : ℕ) (s : PersistenceServer)
    → find name_eq name s.index_file ≡ none
    → note_group name index none s ≡ (convert_index_to_string index, 0, new_group name index s)
unfolding note_group
notes_new name index s knows =
    ap
      (λ known. (
        convert_index_to_string index,
        0,
        record s {
          tail_file = insert name_eq name (convert_index_to_string index) s.tail_file;
          index_file =
              insert name_eq name (insert_new index (convert_index_to_string index) known)
                s.index_file;
          queue_list =
              insert name_eq name (entry_of name s.queue_list ++ convert_index_to_string index ∷ [])
                s.queue_list;
        },
      ))
      (entry_of-none name s.index_file knows)
