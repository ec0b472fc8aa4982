-- ===== src/Disks/Delete.antt =====
-- crates/openlake_io/src/local_fs.rs: `delete_version`, `delete_object_scoped` and `delete`.
use openlake.Prelude.{ℕ, String, Bool, Option, none, some, List, [], ◌∷◌, if◌then◌else◌, string_eq}
use openlake.Prelude.Maps.{remove}
use openlake.Erasure.Codec.{Bytes}
use openlake.Errors.{Result, ok, err, IoError, file_not_found}
use openlake.Records.{FileInfo}
use openlake.XlMeta.Layout.{OnDiskMeta, DecodedRecord}
use openlake.XlMeta.Decode.{decode_all}
use openlake.Disks.State.{
  ObjectDir, opened, Faults, Io, ◌>>◌, done, lift, attempt, untorn, best_effort, require_vol,
  read_meta, sync, remove_meta, remove_backup, restore, trash_data, trash_object,
}
use openlake.Disks.Versions.{on_live, remove_if_empty}

-- The data directories of the records are trashed; one that cannot be is left.
unfoldable pub trash_all : List DecodedRecord → ObjectDir → ObjectDir
trash_all [] o = o
trash_all (r ∷ rs) o =
    let next =
      if string_eq.beq r.data_dir "" then o else record o { shards = remove r.data_dir o.shards } in
    trash_all rs next

abbrev pub records_in : Result IoError (List DecodedRecord) → List DecodedRecord
records_in (ok rs) = rs
records_in (err e) = []

module _ (fault : Faults) where
  -- `delete` of the object's directory, with all that is in it.
  abbrev pub delete_all : (volume path : String) → Option ObjectDir → Io (Unit {0})
  delete_all volume path none = lift (err (file_not_found volume path))
  delete_all volume path (some o) =
      attempt (fault trash_object) untorn (λ d. record d { live = none })

  unfoldable pub delete_recursive : (volume path : String) → Io (Unit {0})
  unfolding require_vol
  delete_recursive volume path = do require_vol fault volume; λ d. delete_all volume path d.live d

  -- The rename of the backup over the file, and what follows it.
  abbrev pub restore_backup : (volume path : String) → FileInfo → Option Bytes → Io (Unit {0})
  restore_backup volume path fi none = delete_recursive volume path
  restore_backup volume path fi (some b) = do
    attempt (fault restore) untorn (on_live λ o. record o { meta = some b; backup = none })
    attempt (fault sync) untorn (λ d. d)
    (if string_eq.beq fi.data_dir ""
        then done tt
        else best_effort (fault trash_data)
            (on_live λ o. record o { shards = remove fi.data_dir o.shards }))

module _ (from_slice : Bytes → Option OnDiskMeta) (xxh64 : Bytes → ℕ) (fault : Faults) where
  abbrev pub remove_files : (volume path : String) → Option Bytes → Io (Unit {0})
  remove_files volume path none = lift (err (file_not_found volume path))
  remove_files volume path (some raw) = do
    best_effort (fault trash_data)
        (on_live (trash_all (records_in (decode_all from_slice xxh64 raw))))
    attempt (fault remove_meta) untorn (on_live λ o. record o { meta = none })
    best_effort (fault remove_backup) (on_live λ o. record o { backup = none })
    best_effort (fault trash_object) (λ d. record d { live = remove_if_empty d.live })

  unfoldable pub delete_object_scoped : (volume path : String) → Io (Unit {0})
  unfolding require_vol decode_all trash_all
  delete_object_scoped volume path = do
    require_vol fault volume
    attempt (fault read_meta) untorn (λ d. d)
    λ d. remove_files volume path (opened d.live).meta d

  unfoldable pub delete_version :
      (volume path : String) → FileInfo → (undo_write : Bool) → Io (Unit {0})
  unfolding delete_object_scoped delete_recursive
  delete_version volume path fi undo_write =
      if undo_write
      then (λ d. restore_backup fault volume path fi (opened d.live).backup d)
      else delete_object_scoped volume path
