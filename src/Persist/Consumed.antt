-- ===== src/Persist/Consumed.antt =====
-- PersistenceServer/PersistenceServer.cpp, OnConsumeMessage: when a group of files is removed.
use mq_cplusplus.Base.{
  ℕ, ◌+◌, ◌*◌, ◌/◌, ◌≡◌, ◌≢◌, refl, sym, ap, ◌∙◌, ◌⊎◌, inl, inr, Bool, true, false, Option, none,
  some, [], ◌∷◌, ◌++◌, arith, length, length-append, ◌==◌, ==_iff, Bytes, Bool-cases, name_eq,
  name_eq_iff, find, erase, find-erase_self, find-erase_ne, ℕ_discrete,
}
use mq_cplusplus.Message.Wire.{int_bytes, read_int}
use mq_cplusplus.Message.Read.{read_name}
use mq_cplusplus.Persist.Disk.{Disk, Node, file, stat_size, remove_file, write, open_append}
use mq_cplusplus.Persist.Server.{PersistenceServer}
use mq_cplusplus.Persist.Publish.{group_path, data_ext, index_ext}
use mq_cplusplus.Persist.Consume.{
  consume_ext, drop_group, count_group, group_of, consume_in, on_consume_message,
}
use mq_cplusplus.Persist.Paths.{
  CanHold, last_of, group_last, ends_apart, write_self, write_other, open_append-lem,
}
use mq_cplusplus.Persist.Opened.{Group, data_last, index_last, index_data}
use mq_cplusplus.Persist.Steps.{is_there}

stat_size-file :
    (path bytes : Bytes) (d : Disk)
    → find name_eq path d ≡ some (file bytes)
    → stat_size path d ≡ some (length bytes)
unfolding stat_size
stat_size-file path bytes d e = rw (stat_size, e) refl

remove_file-file :
    (path bytes : Bytes) (d : Disk)
    → find name_eq path d ≡ some (file bytes)
    → remove_file path d ≡ erase name_eq path d
unfolding remove_file
remove_file-file path bytes d e = rw (remove_file, e) refl

module _ (path group : Bytes) where
  consume_last : last_of (group_path path group consume_ext) ≡ 101
  consume_last = group_last path group 46 (99 ∷ 111 ∷ 110 ∷ 115 ∷ 117 ∷ 109 ∷ 101 ∷ [])

  consume_data :
      name_eq (group_path path group consume_ext) (group_path path group data_ext) ≡ false
  consume_data = ends_apart _ _ (λ e. absurd (omega (arith, e, data_last path group, consume_last)))

  consume_index :
      name_eq (group_path path group consume_ext) (group_path path group index_ext) ≡ false
  consume_index =
      ends_apart _ _ (λ e. absurd (omega (arith, e, index_last path group, consume_last)))

  data_index : name_eq (group_path path group data_ext) (group_path path group index_ext) ≡ false
  data_index =
      ends_apart _ _ (λ e. absurd (omega (arith, e, index_last path group, data_last path group)))

  data_consume :
      name_eq (group_path path group data_ext) (group_path path group consume_ext) ≡ false
  data_consume = ends_apart _ _ (λ e. absurd (omega (arith, e, consume_last, data_last path group)))

  index_consume :
      name_eq (group_path path group index_ext) (group_path path group consume_ext) ≡ false
  index_consume =
      ends_apart _ _ (λ e. absurd (omega (arith, e, consume_last, index_last path group)))

  -- The three files are gone.
  pub IsGone : Disk → Type 0
  IsGone d =
      (find name_eq (group_path path group data_ext) d ≡ none)
      × (find name_eq (group_path path group index_ext) d ≡ none)
      × (find name_eq (group_path path group consume_ext) d ≡ none)

  removed-IsGone :
      (d : Disk) (messages entries consumed : Bytes)
      → Group path group d messages entries
      → find name_eq (group_path path group consume_ext) d ≡ some (file consumed)
      → IsGone (
          remove_file (group_path path group consume_ext) (
            remove_file
              (group_path path group index_ext)
              (remove_file (group_path path group data_ext) d)))
  unfolding IsGone
  removed-IsGone d messages entries consumed g c =
      let data_p = group_path path group data_ext in
      let index_p = group_path path group index_ext in
      let consume_p = group_path path group consume_ext in
      let erased = λ (p q : Bytes) (d : Disk) (ne : name_eq p q ≡ false).
        find-erase_ne name_eq name_eq_iff p q d ne in
      let gone = λ (p : Bytes) (d : Disk). find-erase_self name_eq name_eq_iff p d in
      let d₁ = erase name_eq data_p d in
      let d₂ = erase name_eq index_p d₁ in
      let d₃ = erase name_eq consume_p d₂ in
      rw
        (
          remove_file-file data_p messages d g.data_file,
          remove_file-file index_p entries d₁ (erased data_p index_p d data_index ∙ g.index_file),
          remove_file-file consume_p consumed d₂ (
              erased index_p consume_p d₁ index_consume
              ∙ erased data_p consume_p d data_consume
              ∙ c),
        )
        (
          erased consume_p data_p d₂ consume_data
              ∙ erased index_p data_p d₁ (index_data path group)
              ∙ gone data_p d,
          erased consume_p index_p d₂ consume_index ∙ gone index_p d₁,
          gone consume_p d₂,
        )

none-some : {b : Bytes} → none ≡ some b → ⊥
none-some e = cc

some-injective : {a b : Bytes} → some a ≡ some b → a ≡ b
some-injective e = cc

false-true : false ≡ true → ⊥
false-true e = cc

-- The queue's tail group is not the one that was dropped.
dropped_tail :
    (path name group : Bytes) (s : PersistenceServer)
    → find name_eq name (drop_group path name group s).tail_file ≢ some group
unfolding drop_group
dropped_tail path name group s e = elim (tail_cases (find name_eq name s.tail_file)) [
  | inl none_there ↦ absurd (
      none-some (
        sym none_there
        ∙ sym (ap (find name_eq name) {y = s.tail_file} (rw (drop_group, none_there) refl))
        ∙ e))
  | inr (g, there) ↦ elim (Bool-cases (name_eq g group)) [
    | inl is_it ↦ absurd (
        none-some (
          sym (find-erase_self name_eq name_eq_iff name s.tail_file)
          ∙ sym (
              ap (find name_eq name) {y = erase name_eq name s.tail_file}
                (rw (drop_group, there, is_it) refl))
          ∙ e))
    | inr other ↦ absurd (
        false-true (
          sym other
          ∙ (name_eq_iff g group).1 (
              some-injective (
                sym there
                ∙ sym
                    (ap (find name_eq name) {y = s.tail_file} (rw (drop_group, there, other) refl))
                ∙ e))))
  ]
]
  where
    tail_cases : (o : Option Bytes) → (o ≡ none) ⊎ ((g : Bytes) × (o ≡ some g))
    tail_cases none = inl refl
    tail_cases (some g) = inr (g, refl)

count_group-all :
    (path name group : Bytes) (s : PersistenceServer) (entries consumed : Bytes) (n : ℕ)
    → find name_eq (group_path path group index_ext) s.disk ≡ some (file entries)
    → find name_eq (group_path path group consume_ext) s.disk ≡ some (file consumed)
    → length entries ≡ 8 * n
    → length consumed ≡ 4 * n
    → count_group path name group s ≡ (true, drop_group path name group s)
unfolding count_group
count_group-all path name group s entries consumed n i c le lc =
    rw
      (
        count_group,
        stat_size-file _ consumed s.disk c,
        stat_size-file _ entries s.disk i,
        (==_iff (length consumed / 4) (length entries / 8)).1 (omega (arith, le, lc)),
      )
      refl

count_group-some :
    (path name group : Bytes) (s : PersistenceServer) (entries consumed : Bytes) (n k : ℕ)
    → find name_eq (group_path path group index_ext) s.disk ≡ some (file entries)
    → find name_eq (group_path path group consume_ext) s.disk ≡ some (file consumed)
    → length entries ≡ 8 * n
    → length consumed ≡ 4 * k
    → k ≢ n
    → count_group path name group s ≡ (true, s)
unfolding count_group
count_group-some path name group s entries consumed n k i c le lc ne =
    rw (count_group, stat_size-file _ consumed s.disk c, stat_size-file _ entries s.disk i, differ)
      refl
  where
    differ : (length consumed / 4 == length entries / 8) ≡ false
    differ = elim (Bool-cases (length consumed / 4 == length entries / 8)) [
      | inl same ↦
          absurd
            (ne (omega (arith, le, lc, (==_iff (length consumed / 4) (length entries / 8)).0 same)))
      | inr e ↦ e
    ]

consumes_in :
    (opens : Bytes → Bool) (buffer name rest rest' group : Bytes) (index : ℕ)
    (s : PersistenceServer) (node : Node) (d : Disk) (r : Bool × PersistenceServer)
    → read_name buffer ≡ some (name, rest)
    → read_int rest ≡ some (index, rest')
    → group_of name index s ≡ some group
    → find name_eq (s.queue_path ++ name) s.disk ≡ some node
    → open_append opens (group_path (s.queue_path ++ name) group consume_ext) s.disk ≡ some d
    → count_group (s.queue_path ++ name) name group (record s {
      disk = write (group_path (s.queue_path ++ name) group consume_ext) (int_bytes index) d;
    })
      ≡ r
    → on_consume_message opens buffer s ≡ some r
unfolding on_consume_message consume_in
consumes_in opens buffer name rest rest' group index s node d r reads reads' of_group there opened
      counts =
    rw
      (
        on_consume_message,
        reads,
        reads',
        is_there (s.queue_path ++ name) s.disk node there,
        of_group,
      )
      (ap some (rw (consume_in, opened) counts))

-- OnConsumeMessage of a message of a group in order, where the group's third file can be written: the
-- index is noted. If as many are noted as the group has messages, the three files of the group
-- are gone and it is not the one that is written to; else the messages stay.
pub on_consume_message-counts :
    (opens : Bytes → Bool) (buffer name rest rest' group messages entries consumed : Bytes)
    (index n k : ℕ) (s : PersistenceServer) (node : Node)
    → ((p : Bytes) → opens p ≡ true)
    → read_name buffer ≡ some (name, rest)
    → read_int rest ≡ some (index, rest')
    → group_of name index s ≡ some group
    → let path = s.queue_path ++ name in
      find name_eq path s.disk ≡ some node
      → Group path group s.disk messages entries
      → CanHold s.disk (group_path path group consume_ext) consumed
      → length entries ≡ 8 * n
      → length consumed ≡ 4 * k
      → (s' : PersistenceServer) × (on_consume_message opens buffer s ≡ some (true, s'))
        × (((k + 1 ≡ n) × IsGone path group s'.disk × (find name_eq name s'.tail_file ≢ some group))
            ⊎ ((k + 1 ≢ n)
                × Group path group s'.disk messages entries
                × (find name_eq (group_path path group consume_ext) s'.disk
                    ≡ some (file (consumed ++ int_bytes index)))
                × (s'.tail_file ≡ s.tail_file)))
unfolding drop_group
on_consume_message-counts opens buffer name rest rest' group messages entries consumed index n k s
      node may reads reads' of_group there g c le lc =
    let path = s.queue_path ++ name in
    let (d, opened, held, same) =
      open_append-lem opens (group_path path group consume_ext) (may _) consumed s.disk c in
    let d' = write (group_path path group consume_ext) (int_bytes index) d in
    let s₁ : PersistenceServer = record s { disk = d' } in
    let same' = write_other (group_path path group consume_ext) (int_bytes index) d consumed held in
    let held' = write_self (group_path path group consume_ext) consumed (int_bytes index) d held in
    let g' : Group path group d' messages entries = record {
      data_file =
          same' _ (consume_data path group) ∙ same _ (consume_data path group) ∙ g.data_file;
      index_file =
          same' _ (consume_index path group) ∙ same _ (consume_index path group) ∙ g.index_file;
    } in
    elim (ℕ_discrete (k + 1) n) [
      | yes all ↦ (
        drop_group path name group s₁,
        consumes_in opens buffer name rest rest' group index s node d _ reads reads' of_group there
            opened
            (count_group-all path name group s₁ entries (consumed ++ int_bytes index) n
              g'.index_file held' le
              (omega (arith, lc, all, length-append consumed (int_bytes index)))),
        inl (
          all,
          removed-IsGone path group d' messages entries (consumed ++ int_bytes index) g' held',
          dropped_tail path name group s₁,
        ),
      )
      | no some_left ↦ (
        s₁,
        consumes_in opens buffer name rest rest' group index s node d _ reads reads' of_group there
            opened
            (count_group-some path name group s₁ entries (consumed ++ int_bytes index) n (k + 1)
              g'.index_file held' le (omega (arith, lc, length-append consumed (int_bytes index)))
              some_left),
        inr (some_left, g', held', refl),
      )
    ]
