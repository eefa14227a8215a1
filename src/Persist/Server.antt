-- ===== src/Persist/Server.antt =====
-- PersistenceServer/PersistenceServer.cpp: the state of PersistenceServer, and the handlers of the
-- durable objects that have one file each. `none` is a read past the bytes of a packet.
use mq_cplusplus.Base.{
  ℕ, Bool, true, false, Option, none, some, List, [], ◌∷◌, ◌++◌, if◌then◌else◌, take, Bytes,
  name_eq, erase, ◌>>=◌,
}
use mq_cplusplus.Message.Read.{read_name}
use mq_cplusplus.Persist.Disk.{Disk, is_file_exist, make_dir, remove_dir, write, open_empty}

-- The two paths and the greatest size of a data file come from the configuration.
pub record PersistenceServer : Type 0 where
  pub disk : Disk
  pub exchange_path : Bytes
  pub queue_path : Bytes
  pub durable_file_size : ℕ
  pub tail_file : List (Bytes × Bytes)
  pub index_file : List (Bytes × List (ℕ × Bytes))
  pub queue_list : List (Bytes × List Bytes)

-- "/info.bin", "/subscribe.bin", "/binding.bin"
abbrev pub info_bin : Bytes
info_bin = 47 ∷ 105 ∷ 110 ∷ 102 ∷ 111 ∷ 46 ∷ 98 ∷ 105 ∷ 110 ∷ []

abbrev pub subscribe_bin : Bytes
subscribe_bin = 47 ∷ 115 ∷ 117 ∷ 98 ∷ 115 ∷ 99 ∷ 114 ∷ 105 ∷ 98 ∷ 101 ∷ 46 ∷ 98 ∷ 105 ∷ 110 ∷ []

abbrev pub binding_bin : Bytes
binding_bin = 47 ∷ 98 ∷ 105 ∷ 110 ∷ 100 ∷ 105 ∷ 110 ∷ 103 ∷ 46 ∷ 98 ∷ 105 ∷ 110 ∷ []

module _ (opens : Bytes → Bool) where
  -- A file is written anew.
  unfoldable pub store_file : Bytes → Bytes → PersistenceServer → Bool × PersistenceServer
  store_file path bytes s = elim (open_empty opens path s.disk) [
    | none ↦ (false, s)
    | some d ↦ (true, record s { disk = write path bytes d })
  ]

  -- OnCreateExchange and OnCreateQueue: `buffer` begins behind the command, `len` is its length.
  unfoldable pub on_create_exchange :
      Bytes → ℕ → PersistenceServer → Option (Bool × PersistenceServer)
  on_create_exchange buffer len s = do
    (name, rest) ← read_name buffer
    let path : Bytes = s.exchange_path ++ name
    let made : PersistenceServer = record s {
      disk = if is_file_exist path s.disk then s.disk else make_dir path s.disk;
    }
    some (store_file (path ++ info_bin) (take len buffer) made)

  unfoldable pub on_create_queue : Bytes → ℕ → PersistenceServer → Option (Bool × PersistenceServer)
  on_create_queue buffer len s = do
    (name, rest) ← read_name buffer
    let path : Bytes = s.queue_path ++ name
    let made : PersistenceServer = record s {
      disk = if is_file_exist path s.disk then s.disk else make_dir path s.disk;
    }
    some (store_file (path ++ info_bin) (take len buffer) made)

  unfoldable pub on_subcribe : Bytes → ℕ → PersistenceServer → Option (Bool × PersistenceServer)
  on_subcribe buffer len s = do
    (name, rest) ← read_name buffer
    let path : Bytes = s.queue_path ++ name
    some (
        if is_file_exist path s.disk
        then store_file (path ++ subscribe_bin) (take len buffer) s
        else (false, s))

  unfoldable pub on_binding : Bytes → ℕ → PersistenceServer → Option (Bool × PersistenceServer)
  on_binding buffer len s = do
    (name, rest) ← read_name buffer
    let path : Bytes = s.exchange_path ++ name
    some (
        if is_file_exist path s.disk
        then store_file (path ++ binding_bin) (take len buffer) s
        else (false, s))

unfoldable pub on_delete_exchange : Bytes → PersistenceServer → Option (Bool × PersistenceServer)
on_delete_exchange buffer s = do
  (name, rest) ← read_name buffer
  let path : Bytes = s.exchange_path ++ name
  some (
    true,
    record s { disk = if is_file_exist path s.disk then remove_dir path s.disk else s.disk },
  )

-- Of the three maps only the one of the tail files forgets the queue.
unfoldable pub on_delete_queue : Bytes → PersistenceServer → Option (Bool × PersistenceServer)
on_delete_queue buffer s = do
  (name, rest) ← read_name buffer
  let path : Bytes = s.queue_path ++ name
  some (
    true,
    record s {
      disk = if is_file_exist path s.disk then remove_dir path s.disk else s.disk;
      tail_file = erase name_eq name s.tail_file;
    },
  )
