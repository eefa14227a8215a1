-- ===== src/Persist/Recovery.antt =====
-- PersistenceServer/PersistenceServer.cpp: messages that OnPublishMessage writes to a group, and a server
-- that starts again.
use mq_cplusplus.Base.{
  ◌==◌, ℕ, ◌+◌, ◌^◌, ◌≤◌, ◌<◌, ◌≡◌, refl, sym, ap, subst, ◌∙◌, inl, Bool, true, Option, none, some,
  List, [], ◌∷◌, ◌++◌, arith, length, All, Bytes, append_assoc, append-nil, length-append, name_eq,
  name_eq_iff, find, insert, find-insert_self, ◌>>=◌,
}
use mq_cplusplus.Message.Wire.{int_bytes}
use mq_cplusplus.Persist.Disk.{Node, file}
use mq_cplusplus.Persist.Server.{PersistenceServer}
use mq_cplusplus.Persist.Publish.{
  group_path, data_ext, index_ext, write_offset_bin, convert_index_to_string, insert_new,
  on_publish_message,
}
use mq_cplusplus.Persist.Recover.{read_entries, insert_entries, process_index_file}
use mq_cplusplus.Persist.Opened.{Group, MayHold, store_message-Group}
use mq_cplusplus.Persist.Entries.{
  bodies, entries_at, positions, noted, bodies-last, entries_at-start, noted-last,
  insert_entries-positions, read_entries-entries_at, length-entries_at, bodies-Points, Leads,
  positions-Leads,
}
use mq_cplusplus.Persist.Known.{noted-All}
use mq_cplusplus.Persist.Steps.{
  file_apart, publish_in, is_there, chooses_tail, chooses_new, noted_index, notes_tail,
  entry_of-none, new_group, notes_new,
}

-- The queue `name` in `path` has published `ms`, all to one group.
pub record Written (s : PersistenceServer) (name path group : Bytes) (ms : List (ℕ × Bytes))
    : Type 0 where
  pub at_path : s.queue_path ++ name ≡ path
  pub there : (n : Node) × (find name_eq path s.disk ≡ some n)
  pub files : Group path group s.disk (bodies ms) (entries_at 0 ms)
  pub offset :
      (bytes : Bytes) × (find name_eq (path ++ write_offset_bin) s.disk ≡ some (file bytes))
  pub is_tail : find name_eq name s.tail_file ≡ some group
  pub knows : find name_eq name s.index_file ≡ some (noted group ms [])

module _ (opens : Bytes → Bool) (may : (p : Bytes) → opens p ≡ true) (name path group : Bytes) where
  publish_next :
      (index : ℕ) (m : Bytes) (ms : List (ℕ × Bytes)) (s : PersistenceServer)
      → Written s name path group ms
      → length (bodies ms) + length m ≤ s.durable_file_size
      → (s' : PersistenceServer) × (on_publish_message opens m (length m) name index s
          ≡ some (true, s'))
        × Written s' name path group (ms ++ (index, m) ∷ [])
        × (s'.durable_file_size ≡ s.durable_file_size)
        × (s'.queue_path ≡ s.queue_path)
  publish_next index m ms s w room =
      let (n, there) = w.there in
      let (bytes, offset) = w.offset in
      let known = insert_new index group (noted group ms []) in
      let s₁ = noted_index name known s in
      let (d, stores, g, offset', same) =
        store_message-Group path group opens index (length (bodies ms)) m s₁ (bodies ms)
          (entries_at 0 ms) may
          (record {
            data_file = inl w.files.data_file;
            index_file = inl w.files.index_file;
            offset_file = (bytes, inl offset);
          }) in
      (
        record s₁ { disk = d },
        publish_in opens m name path index s (some (group, length (bodies ms)))
            (group, length (bodies ms), s₁) (true, record s₁ { disk = d }) w.at_path
            (is_there path s.disk n there)
            (chooses_tail path name group (length m) (bodies ms) s w.is_tail w.files.data_file room)
            (notes_tail name group index (length (bodies ms)) (noted group ms []) s w.knows) stores,
        record {
          at_path = w.at_path;
          there =
              (n, same path (file_apart path _) (file_apart path _) (file_apart path _) ∙ there);
          files = record {
            data_file = g.data_file ∙ ap (λ b. some (file b)) (sym (bodies-last ms index m));
            index_file = g.index_file ∙ ap (λ b. some (file b)) (sym (entries_at-start ms index m));
          };
          offset = (int_bytes index, offset');
          is_tail = w.is_tail;
          knows =
              find-insert_self name_eq name_eq_iff name known s.index_file
              ∙ ap some (sym (noted-last group ms [] index m));
        },
        refl,
        refl,
      )

module _ (opens : Bytes → Bool) (may : (p : Bytes) → opens p ≡ true) (name path : Bytes) where
  publish_first :
      (index : ℕ) (m : Bytes) (s : PersistenceServer) (n : Node)
      → s.queue_path ++ name ≡ path
      → find name_eq path s.disk ≡ some n
      → find name_eq name s.tail_file ≡ none
      → find name_eq name s.index_file ≡ none
      → MayHold path (convert_index_to_string index) s.disk [] []
      → (s' : PersistenceServer) × (on_publish_message opens m (length m) name index s
          ≡ some (true, s'))
        × Written s' name path (convert_index_to_string index) ((index, m) ∷ [])
        × (s'.durable_file_size ≡ s.durable_file_size)
        × (s'.queue_path ≡ s.queue_path)
  unfolding noted bodies entries_at
  publish_first index m s n at there tail knows h =
      let group = convert_index_to_string index in
      let s₁ = new_group name index s in
      let (d, stores, g, offset', same) =
        store_message-Group path group opens index 0 m s₁ [] [] may h in
      (
        record s₁ { disk = d },
        publish_in opens m name path index s none (group, 0, s₁) (true, record s₁ { disk = d }) at
            (is_there path s.disk n there) (chooses_new path name (length m) s tail)
            (notes_new name index s knows) stores,
        record {
          at_path = at;
          there =
              (n, same path (file_apart path _) (file_apart path _) (file_apart path _) ∙ there);
          files = record {
            data_file = g.data_file ∙ ap (λ b. some (file b)) (sym (append-nil m));
            index_file =
                g.index_file
                ∙ ap (λ b. some (file b)) (sym (append-nil (int_bytes index ++ int_bytes 0)));
          };
          offset = (int_bytes index, offset');
          is_tail = find-insert_self name_eq name_eq_iff name group s.tail_file;
          knows =
              find-insert_self name_eq name_eq_iff name (insert_new index group []) s.index_file;
        },
        refl,
        refl,
      )

-- OnPublishMessage for one message after another.
pub publish_all :
    (Bytes → Bool) → Bytes → List (ℕ × Bytes) → PersistenceServer → Option PersistenceServer
publish_all opens name [] s = some s
publish_all opens name ((index, m) ∷ ms) s = do
  (ok, s') ← on_publish_message opens m (length m) name index s
  publish_all opens name ms s'

publish_rest :
    (opens : Bytes → Bool)
    → ((p : Bytes) → opens p ≡ true)
    → (name path group : Bytes) (before ms : List (ℕ × Bytes)) (s : PersistenceServer)
    → Written s name path group before
    → length (bodies before) + length (bodies ms) ≤ s.durable_file_size
    → (s' : PersistenceServer) × (publish_all opens name ms s ≡ some s')
      × Written s' name path group (before ++ ms)
unfolding publish_all bodies
publish_rest opens may name path group before [] s w room =
    (s, refl, subst (Written s name path group) (sym (append-nil before)) w)
publish_rest opens may name path group before ((index, m) ∷ ms) s w room =
    let (s₁, one, w₁, size, at) =
      publish_next opens may name path group index m before s w
        (omega (arith, room, length-append m (bodies ms))) in
    let (s', rest, w') =
      publish_rest opens may name path group (before ++ (index, m) ∷ []) ms s₁ w₁ (
        omega (
          arith,
          room,
          size,
          length-append m (bodies ms),
          ap length (bodies-last before index m),
          length-append (bodies before) m,
        )) in
    (
      s',
      rw one rest,
      subst (Written s' name path group) (append_assoc before ((index, m) ∷ []) ms) w',
    )

index_read :
    (t : PersistenceServer) (name path group : Bytes) (b : ℕ) (bs : Bytes) (read : List (ℕ × ℕ))
    → t.queue_path ++ name ≡ path
    → find name_eq (group_path path group index_ext) t.disk ≡ some (file (b ∷ bs))
    → read_entries (length (b ∷ bs)) (b ∷ bs) ≡ some read
    → find name_eq name t.index_file ≡ none
    → process_index_file name group t
      ≡ some (
        true,
        record t { index_file = insert name_eq name (insert_entries group read []) t.index_file },
      )
unfolding process_index_file
index_read t name path group b bs read at found reads knows =
    rw (process_index_file, at, found, reads)
      (ap
        (λ known. some (
          true,
          record t {
            index_file = insert name_eq name (insert_entries group read known) t.index_file;
          },
        ))
        (entry_of-none name t.index_file knows))

-- ProcessIndexFile reads what was written.
process_written :
    (t : PersistenceServer) (name path group : Bytes) (ms : List (ℕ × Bytes)) (messages : Bytes)
    → t.queue_path ++ name ≡ path
    → Group path group t.disk messages (entries_at 0 ms)
    → find name_eq name t.index_file ≡ none
    → 0 < length ms
    → All (λ x. x.0 < 2 ^ 32) ms
    → length (bodies ms) < 2 ^ 32
    → process_index_file name group t
      ≡ some (true, record t { index_file = insert name_eq name (noted group ms []) t.index_file })
unfolding process_index_file entries_at
process_written t name path group [] messages at g knows some_there k b =
    absurd (omega (arith, some_there))
process_written t name path group ((i, m) ∷ ms) messages at g knows some_there k b =
    index_read t name path group _ _ (positions 0 ((i, m) ∷ ms)) at g.index_file
      (read_entries-entries_at _ 0 ((i, m) ∷ ms) (length-entries_at 0 ((i, m) ∷ ms)) k
        (omega (arith, b)))
      knows
    ∙ ap (λ known. some (true, record t { index_file = insert name_eq name known t.index_file }))
        (insert_entries-positions group 0 ((i, m) ∷ ms) [])

-- A queue that has no group yet gets messages that fit into one file, every file can be opened, and the
-- files of the new group are missing or empty. All are written: the entries that are read from the index file are the messages'
-- indices and positions in the data file, at each of which the message stands; the server's map leads each
-- index to the group; and a server that starts on this disk knowing nothing of the queue reads
-- from the index file the map that the first one had.
pub publish_all-recovers :
    (opens : Bytes → Bool) (name : Bytes) (index : ℕ) (m : Bytes) (ms : List (ℕ × Bytes))
    (s : PersistenceServer) (n : Node)
    → ((p : Bytes) → opens p ≡ true)
    → find name_eq (s.queue_path ++ name) s.disk ≡ some n
    → find name_eq name s.tail_file ≡ none
    → find name_eq name s.index_file ≡ none
    → MayHold (s.queue_path ++ name) (convert_index_to_string index) s.disk [] []
    → length (bodies ((index, m) ∷ ms)) ≤ s.durable_file_size
    → s.durable_file_size < 2 ^ 31
    → All (λ x. x.0 < 2 ^ 32) ((index, m) ∷ ms)
    → (s' : PersistenceServer) × (known : List (ℕ × Bytes)) × (stored indexed : Bytes)
      × (entries : List (ℕ × ℕ)) × (publish_all opens name ((index, m) ∷ ms) s ≡ some s')
      × (find name_eq
            (group_path (s.queue_path ++ name) (convert_index_to_string index) data_ext)
            s'.disk
          ≡ some (file stored))
      × (find name_eq
            (group_path (s.queue_path ++ name) (convert_index_to_string index) index_ext)
            s'.disk
          ≡ some (file indexed))
      × (read_entries (length indexed) indexed ≡ some entries)
      × Leads stored entries ((index, m) ∷ ms)
      × (find name_eq name s'.index_file ≡ some known)
      × All (λ x. find ◌==◌ x.0 known ≡ some (convert_index_to_string index)) ((index, m) ∷ ms)
      × ((t : PersistenceServer)
          → t.queue_path ≡ s.queue_path
          → t.disk ≡ s'.disk
          → find name_eq name t.index_file ≡ none
          → process_index_file name (convert_index_to_string index) t
            ≡ some (true, record t { index_file = insert name_eq name known t.index_file }))
unfolding publish_all bodies
publish_all-recovers opens name index m ms s n may there tail knows h fits small k =
    let path = s.queue_path ++ name in
    let group = convert_index_to_string index in
    let all = (index, m) ∷ ms in
    let (s₁, one, w₁, size, at) =
      publish_first opens may name path index m s n refl there tail knows h in
    let (s', rest, w) =
      publish_rest opens may name path group ((index, m) ∷ []) ms s₁ w₁
        (omega (arith, fits, size, length-append m (bodies ms), ap length (append-nil m))) in
    (
      s',
      noted group all [],
      bodies all,
      entries_at 0 all,
      positions 0 all,
      rw one rest,
      w.files.data_file,
      w.files.index_file,
      read_entries-entries_at (length (entries_at 0 all)) 0 all (length-entries_at 0 all) k
          (omega (arith, fits, small)),
      positions-Leads (bodies all) 0 all (bodies-Points [] 0 all refl),
      w.knows,
      noted-All group all,
      λ t same_path same_disk fresh.
          process_written t name path group all (bodies all) (ap (λ q. q ++ name) same_path)
            (subst (λ d. Group path group d (bodies all) (entries_at 0 all)) (sym same_disk)
              w.files)
            fresh (omega arith) k (omega (arith, fits, small)),
    )
