-- ===== src/Disks/Versions.antt =====
-- crates/openlake_io/src/local_fs.rs: `read_version` and `write_metadata`. The path of the object is an
-- argument only for what the errors say.
use openlake.Prelude.{ℕ, String, Bool, Option, none, some, [], ◌∷◌, if◌then◌else◌, string_eq}
use openlake.Erasure.Codec.{Bytes}
use openlake.Errors.{
  Result, ok, err, IoError, file_not_found, file_version_not_found, corrupt_metadata, map_err,
}
use openlake.Records.{FileInfo}
use openlake.XlMeta.Layout.{OnDiskMeta, DecodedRecord, to_vec}
use openlake.XlMeta.Encode.{encode}
use openlake.XlMeta.Decode.{decode, find_version, file_info_from_record}
use openlake.Disks.State.{
  ObjectDir, opened, Disk, Faults, Io, ◌>>=◌, ◌>>◌, lift, attempt, untorn, require_vol, read_meta,
  commit, sync, make_object, write_temporary,
}

-- The error of a damaged file names the volume and the path.
abbrev pub named : (volume path : String) → IoError → IoError
named volume path (corrupt_metadata v p msg) = corrupt_metadata volume path msg
named volume path e = e

-- A change of the object's directory, and of that of the write.
abbrev pub on_live : (ObjectDir → ObjectDir) → Disk → Disk
on_live f d = record d { live = some (f (opened d.live)) }

abbrev pub on_staged : (ObjectDir → ObjectDir) → Disk → Disk
on_staged f d = record d { staged = some (f (opened d.staged)) }

-- `remove_dir`, which removes an empty directory only.
abbrev pub remove_if_empty : Option ObjectDir → Option ObjectDir
remove_if_empty none = none
remove_if_empty (some o) = elim o.meta [
  | some b ↦ some o
  | none ↦ elim o.backup [ some b ↦ some o | none ↦ elim o.shards [ [] ↦ none | x ∷ xs ↦ some o ] ]
]

abbrev pub without_data : Bool → FileInfo → FileInfo
without_data read_data fi = if read_data then fi else record fi { inline_data = none }

module _ (from_slice : Bytes → Option OnDiskMeta) (xxh64 : Bytes → ℕ) where
  abbrev pub pick_version :
      (volume path : String) → Option String → Bytes → Result IoError DecodedRecord
  pick_version volume path none bytes = map_err (named volume path) (decode from_slice xxh64 bytes)
  pick_version volume path (some id) bytes = elim (find_version from_slice xxh64 bytes id) [
    | ok (some r) ↦ ok r
    | ok none ↦ err (file_version_not_found volume path id)
    | err e ↦ err e
  ]

  abbrev pub read_file_of :
      (volume path : String) → Option String → Bool → Option Bytes → Result IoError FileInfo
  read_file_of volume path version_id read_data none = err (file_not_found volume path)
  read_file_of volume path version_id read_data (some bytes) =
      elim (pick_version volume path version_id bytes) [
        | ok r ↦ ok (without_data read_data (file_info_from_record r volume path))
        | err e ↦ err e
      ]

  module _ (fault : Faults) where
    unfoldable pub read_version :
        (volume path : String) → Option String → (read_data : Bool) → Io FileInfo
    unfolding require_vol decode find_version file_info_from_record
    read_version volume path version_id read_data = do
      require_vol fault volume
      attempt (fault read_meta) untorn (λ d. d)
      λ d. (read_file_of volume path version_id read_data (opened d.live).meta, d)

module _ (to_vec_named : OnDiskMeta → Option Bytes) (xxh64 : Bytes → ℕ) (fault : Faults) where
  -- The file is written under another name and renamed, so that a write that fails leaves it as it was;
  -- the rename stands even if the directory is not synced.
  unfoldable pub write_metadata : (volume path : String) → FileInfo → Io (Unit {0})
  unfolding require_vol encode to_vec
  write_metadata volume path fi = do
    require_vol fault volume
    attempt (fault make_object) untorn (on_live λ o. o)
    e ← lift (encode xxh64 to_vec_named fi)
    attempt (fault write_temporary) untorn (λ d. d)
    attempt (fault commit) untorn (on_live λ o. record o { meta = some (to_vec e) })
    attempt (fault sync) untorn (λ d. d)
