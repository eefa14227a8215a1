-- ===== src/Persist/Tests.antt =====
-- A persistence server with one queue, and the witnesses.
use mq_cplusplus.Base.{
  ◌==◌, All, length, ℕ, ◌+◌, ◌≡◌, ◌≢◌, refl, ◌⊎◌, inr, Bool, true, none, some, List, [], ◌∷◌, ◌++◌,
  arith, find, insert, Bytes, name_eq, replicate, c_string,
}
use mq_cplusplus.Message.Wire.{int_bytes, read_int, read_buf}
use mq_cplusplus.Message.Read.{read_name}
use mq_cplusplus.Persist.Disk.{dir, file}
use mq_cplusplus.Persist.Server.{PersistenceServer}
use mq_cplusplus.Persist.Publish.{group_path, data_ext, index_ext, convert_index_to_string}
use mq_cplusplus.Persist.Consume.{consume_ext, group_of, on_consume_message}
use mq_cplusplus.Persist.Recover.{process_index_file, read_entries}
use mq_cplusplus.Persist.Merge.{clear_up_file}
use mq_cplusplus.Persist.Opened.{Group, MayHold}
use mq_cplusplus.Persist.Entries.{Leads, bodies}
use mq_cplusplus.Persist.Recovery.{publish_all, publish_all-recovers}
use mq_cplusplus.Persist.Consumed.{IsGone, on_consume_message-counts}
use mq_cplusplus.Persist.Cleared.{IsEven, clear_up_file-faults}

abbrev opens : Bytes → Bool
opens p = true

-- The queue "a" in "q/a".
abbrev queue : Bytes
queue = 97 ∷ []

abbrev queue_dir : Bytes
queue_dir = 113 ∷ 47 ∷ 97 ∷ []

abbrev server : PersistenceServer
server = record {
  disk = (queue_dir, dir) ∷ [];
  exchange_path = 101 ∷ 47 ∷ [];
  queue_path = 113 ∷ 47 ∷ [];
  durable_file_size = 1024;
  tail_file = [];
  index_file = [];
  queue_list = [];
}

abbrev two : List (ℕ × Bytes)
two = (3, 0 ∷ 3 ∷ 7 ∷ []) ∷ (4, 0 ∷ 2 ∷ []) ∷ []

nothing_there : MayHold queue_dir (convert_index_to_string 3) server.disk [] []
unfolding find name_eq
nothing_there = record {
  data_file = inr (refl, refl);
  index_file = inr (refl, refl);
  offset_file = ([], inr (refl, refl));
}

publish_all-recovers_example :
    (s' : PersistenceServer) × (known : List (ℕ × Bytes)) × (stored indexed : Bytes)
    × (held_entries : List (ℕ × ℕ)) × (publish_all opens queue two server ≡ some s')
    × (find name_eq (group_path queue_dir (convert_index_to_string 3) data_ext) s'.disk
        ≡ some (file stored))
    × (find name_eq (group_path queue_dir (convert_index_to_string 3) index_ext) s'.disk
        ≡ some (file indexed))
    × (read_entries (length indexed) indexed ≡ some held_entries)
    × Leads stored held_entries two
    × (find name_eq queue s'.index_file ≡ some known)
    × All (λ x. find ◌==◌ x.0 known ≡ some (convert_index_to_string 3)) two
    × ((t : PersistenceServer)
        → t.queue_path ≡ server.queue_path
        → t.disk ≡ s'.disk
        → find name_eq queue t.index_file ≡ none
        → process_index_file queue (convert_index_to_string 3) t
          ≡ some (true, record t { index_file = insert name_eq queue known t.index_file }))
unfolding find name_eq bodies
publish_all-recovers_example =
    publish_all-recovers opens queue 3 (0 ∷ 3 ∷ 7 ∷ []) ((4, 0 ∷ 2 ∷ []) ∷ []) server dir
      (λ p. refl) refl refl refl nothing_there (omega arith) (omega arith)
      (omega arith, (omega arith, tt))

-- The group "g" holds the two messages, and nothing was consumed.
abbrev group : Bytes
group = 103 ∷ []

abbrev entries : Bytes
entries = (int_bytes 3 ++ int_bytes 0) ++ (int_bytes 4 ++ int_bytes 3)

abbrev holding : PersistenceServer
holding = record server {
  disk =
      (queue_dir, dir)
      ∷ (group_path queue_dir group data_ext, file (0 ∷ 3 ∷ 7 ∷ 0 ∷ 2 ∷ []))
      ∷ (group_path queue_dir group index_ext, file entries)
      ∷ [];
  tail_file = (queue, group) ∷ [];
  index_file = (queue, (3, group) ∷ (4, group) ∷ []) ∷ [];
}

abbrev packet : Bytes
packet = 97 ∷ (replicate 31 0 ++ int_bytes 4)

packet_name : read_name packet ≡ some (queue, int_bytes 4)
unfolding read_name read_buf c_string
packet_name = refl

held : Group queue_dir group holding.disk (0 ∷ 3 ∷ 7 ∷ 0 ∷ 2 ∷ []) entries
unfolding find name_eq
held = record { data_file = refl; index_file = refl }

on_consume_message-counts_example :
    (s' : PersistenceServer) × (on_consume_message opens packet holding ≡ some (true, s'))
    × (((0 + 1 ≡ 2)
          × IsGone queue_dir group s'.disk
          × (find name_eq queue s'.tail_file ≢ some group))
        ⊎ ((0 + 1 ≢ 2)
            × Group queue_dir group s'.disk (0 ∷ 3 ∷ 7 ∷ 0 ∷ 2 ∷ []) entries
            × (find name_eq (group_path queue_dir group consume_ext) s'.disk
                ≡ some (file ([] ++ int_bytes 4)))
            × (s'.tail_file ≡ holding.tail_file)))
unfolding find name_eq group_of read_int
on_consume_message-counts_example =
    on_consume_message-counts opens packet queue (int_bytes 4) [] group (0 ∷ 3 ∷ 7 ∷ 0 ∷ 2 ∷ [])
      entries [] 4 2 0 holding dir (λ p. refl) packet_name refl refl refl held (inr (refl, refl))
      refl refl

abbrev full : PersistenceServer
full = record server { queue_list = (queue, group ∷ (104 ∷ []) ∷ []) ∷ [] }

clear_up_file-faults_example : clear_up_file opens full ≡ none
unfolding IsEven
clear_up_file-faults_example =
    clear_up_file-faults opens queue group (104 ∷ []) [] [] full refl ((λ e. cc), (λ e. cc), tt)
