-- ===== src/Persist/Opened.antt =====
-- PersistenceServer/PersistenceServer.cpp, OnPublishMessage: what the three files of a group hold after a
-- message was written.
use mq_cplusplus.Base.{
  ℕ, ◌≡◌, refl, ◌∙◌, inl, inr, Bool, true, false, some, [], ◌∷◌, ◌++◌, arith, Bytes, name_eq, find,
}
use mq_cplusplus.Message.Wire.{int_bytes}
use mq_cplusplus.Persist.Disk.{Disk, file, write}
use mq_cplusplus.Persist.Server.{PersistenceServer}
use mq_cplusplus.Persist.Publish.{
  group_path, data_ext, index_ext, write_offset_bin, open_group, write_group, store_message,
}
use mq_cplusplus.Persist.Paths.{
  CanHold, last_of, last_of-append, group_last, ends_apart, write_self, write_other,
  open_append-lem, open_empty-lem,
}

-- The group's files: their bytes.
pub record Group (path group : Bytes) (d : Disk) (messages entries : Bytes) : Type 0 where
  pub data_file : find name_eq (group_path path group data_ext) d ≡ some (file messages)
  pub index_file : find name_eq (group_path path group index_ext) d ≡ some (file entries)

-- They may be missing, and then hold nothing.
pub record MayHold (path group : Bytes) (d : Disk) (messages entries : Bytes) : Type 0 where
  pub data_file : CanHold d (group_path path group data_ext) messages
  pub index_file : CanHold d (group_path path group index_ext) entries
  pub offset_file : (bytes : Bytes) × CanHold d (path ++ write_offset_bin) bytes

-- What stands at paths other than the three is the same.
abbrev pub SameElse : Bytes → Bytes → Disk → Disk → Type 0
SameElse path group d d' =
    (q : Bytes)
    → name_eq (group_path path group data_ext) q ≡ false
    → name_eq (group_path path group index_ext) q ≡ false
    → name_eq (path ++ write_offset_bin) q ≡ false
    → find name_eq q d' ≡ find name_eq q d

pub CanHold-same :
    (path bytes : Bytes) (d d' : Disk)
    → find name_eq path d' ≡ find name_eq path d
    → CanHold d path bytes
    → CanHold d' path bytes
CanHold-same path bytes d d' e (inl h) = inl (e ∙ h)
CanHold-same path bytes d d' e (inr (h, empty)) = inr (e ∙ h, empty)

module _ (path group : Bytes) where
  pub data_last : last_of (group_path path group data_ext) ≡ 97
  data_last = group_last path group 46 (100 ∷ 97 ∷ 116 ∷ 97 ∷ [])

  pub index_last : last_of (group_path path group index_ext) ≡ 120
  index_last = group_last path group 46 (105 ∷ 110 ∷ 100 ∷ 101 ∷ 120 ∷ [])

  offset_last : last_of (path ++ write_offset_bin) ≡ 110
  offset_last = last_of-append path 47 _

  data_index : name_eq (group_path path group data_ext) (group_path path group index_ext) ≡ false
  data_index = ends_apart _ _ (λ e. absurd (omega (arith, e, data_last, index_last)))

  data_offset : name_eq (group_path path group data_ext) (path ++ write_offset_bin) ≡ false
  data_offset = ends_apart _ _ (λ e. absurd (omega (arith, e, data_last, offset_last)))

  pub index_data :
      name_eq (group_path path group index_ext) (group_path path group data_ext) ≡ false
  index_data = ends_apart _ _ (λ e. absurd (omega (arith, e, data_last, index_last)))

  index_offset : name_eq (group_path path group index_ext) (path ++ write_offset_bin) ≡ false
  index_offset = ends_apart _ _ (λ e. absurd (omega (arith, e, index_last, offset_last)))

  offset_data : name_eq (path ++ write_offset_bin) (group_path path group data_ext) ≡ false
  offset_data = ends_apart _ _ (λ e. absurd (omega (arith, e, data_last, offset_last)))

  offset_index : name_eq (path ++ write_offset_bin) (group_path path group index_ext) ≡ false
  offset_index = ends_apart _ _ (λ e. absurd (omega (arith, e, index_last, offset_last)))

  -- The three files are opened.
  open_group-Group :
      (opens : Bytes → Bool) (d : Disk) (messages entries : Bytes)
      → ((p : Bytes) → opens p ≡ true)
      → MayHold path group d messages entries
      → (d' : Disk) × (open_group opens path group d ≡ (true, d'))
        × Group path group d' messages entries
        × (find name_eq (path ++ write_offset_bin) d' ≡ some (file []))
        × SameElse path group d d'
  unfolding open_group
  open_group-Group opens d messages entries may h =
      let (d₁, opened₁, data₁, same₁) =
        open_append-lem opens (group_path path group data_ext) (may _) messages d h.data_file in
      let (d₂, opened₂, index₂, same₂) =
        open_append-lem opens (group_path path group index_ext) (may _) entries d₁
          (CanHold-same _ _ d d₁ (same₁ _ data_index) h.index_file) in
      let (d₃, opened₃, offset₃, same₃) =
        open_empty-lem opens (path ++ write_offset_bin) (may _) h.offset_file.0 d₂
          (CanHold-same _ _ d d₂ (same₂ _ index_offset ∙ same₁ _ data_offset) h.offset_file.1) in
      (
        d₃,
        rw (opened₁, opened₂, opened₃) refl,
        record {
          data_file = same₃ _ offset_data ∙ same₂ _ index_data ∙ data₁;
          index_file = same₃ _ offset_index ∙ index₂;
        },
        offset₃,
        λ q x y z. same₃ q z ∙ same₂ q y ∙ same₁ q x,
      )

  write_group-Group :
      (index pos : ℕ) (message : Bytes) (d : Disk) (messages entries : Bytes)
      → Group path group d messages entries
      → find name_eq (path ++ write_offset_bin) d ≡ some (file [])
      → Group path group
          (write_group path group index pos message d)
          (messages ++ message)
          (entries ++ (int_bytes index ++ int_bytes pos))
        × (find name_eq (path ++ write_offset_bin) (write_group path group index pos message d)
            ≡ some (file (int_bytes index)))
        × SameElse path group d (write_group path group index pos message d)
  unfolding write_group
  write_group-Group index pos message d messages entries g empty =
      let d₁ = write (group_path path group data_ext) message d in
      let d₂ = write (group_path path group index_ext) (int_bytes index ++ int_bytes pos) d₁ in
      let same₁ = write_other (group_path path group data_ext) message d messages g.data_file in
      let index₁ = same₁ _ data_index ∙ g.index_file in
      let same₂ =
        write_other (group_path path group index_ext) (int_bytes index ++ int_bytes pos) d₁ entries
          index₁ in
      let offset₂ = same₂ _ index_offset ∙ same₁ _ data_offset ∙ empty in
      let same₃ = write_other (path ++ write_offset_bin) (int_bytes index) d₂ [] offset₂ in
      (
        record {
          data_file =
              same₃ _ offset_data
              ∙ same₂ _ index_data
              ∙ write_self (group_path path group data_ext) messages message d g.data_file;
          index_file =
              same₃ _ offset_index
              ∙ write_self (group_path path group index_ext) entries
                  (int_bytes index ++ int_bytes pos) d₁ index₁;
        },
        write_self (path ++ write_offset_bin) [] (int_bytes index) d₂ offset₂,
        λ q x y z. same₃ q z ∙ same₂ q y ∙ same₁ q x,
      )

  -- A message goes to the end of its group's data file, and its entry to the end of the index file.
  pub store_message-Group :
      (opens : Bytes → Bool) (index pos : ℕ) (message : Bytes) (s : PersistenceServer)
      (messages entries : Bytes)
      → ((p : Bytes) → opens p ≡ true)
      → MayHold path group s.disk messages entries
      → (d : Disk) × (store_message opens path index message (group, pos, s)
          ≡ (true, record s { disk = d }))
        × Group path group d (messages ++ message) (entries ++ (int_bytes index ++ int_bytes pos))
        × (find name_eq (path ++ write_offset_bin) d ≡ some (file (int_bytes index)))
        × SameElse path group s.disk d
  unfolding store_message
  store_message-Group opens index pos message s messages entries may h =
      let (d, opened, g, empty, same) = open_group-Group opens s.disk messages entries may h in
      let (g', offset, same') = write_group-Group index pos message d messages entries g empty in
      (
        write_group path group index pos message d,
        rw opened refl,
        g',
        offset,
        λ q x y z. same' q x y z ∙ same q x y z,
      )
