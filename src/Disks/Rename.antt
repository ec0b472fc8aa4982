-- ===== src/Disks/Rename.antt =====
-- crates/openlake_io/src/local_fs.rs: `rename_data`.
use openlake.Prelude.{
  ℕ, String, Bool, true, false, not, ◌||◌, ◌&&◌, Option, none, some, List, [], ◌∷◌, ◌++◌,
  if◌then◌else◌, string_eq,
}
use openlake.Prelude.Maps.{get, remove, insert}
use openlake.Erasure.Codec.{Bytes}
use openlake.Errors.{Result, ok, err, IoError, io, other, invalid_argument, map_err}
use openlake.Records.{FileInfo}
use openlake.XlMeta.Layout.{OnDiskMeta, DecodedRecord, to_vec}
use openlake.XlMeta.Encode.{encode_versions}
use openlake.XlMeta.Decode.{sort_newest, decode_all, file_info_from_record}
use openlake.Disks.State.{
  opened, Disk, Faults, Io, and_then, ◌>>=◌, ◌>>◌, done, lift, attempt, untorn, best_effort,
  is_system_vol, require_vol, read_meta, make_staged, write_staged, stat_data, make_data_parent,
  move_data, make_backup_parent, write_backup, make_parent, commit, sync, remove_staged,
}
use openlake.Disks.Versions.{named, on_live, on_staged, remove_if_empty}

unfoldable pub has_version : String → List DecodedRecord → Bool
has_version version_id [] = false
has_version version_id (r ∷ rs) = string_eq.beq r.version_id version_id || has_version version_id rs

-- The data directory of the version that is replaced, or the empty text.
unfoldable pub old_data_dir : FileInfo → List DecodedRecord → String
old_data_dir fi [] = ""
old_data_dir fi (r ∷ rs) =
    let rest = old_data_dir fi rs in
    if string_eq.beq r.version_id fi.version_id
    then (if string_eq.beq r.data_dir fi.data_dir then "" else r.data_dir)
    else rest

-- The records of the versions that are kept.
unfoldable pub kept : FileInfo → (volume path : String) → List DecodedRecord → List FileInfo
unfolding file_info_from_record
kept fi volume path [] = []
kept fi volume path (r ∷ rs) =
    let rest = kept fi volume path rs in
    if string_eq.beq r.version_id fi.version_id
    then rest
    else file_info_from_record r volume path ∷ rest

unfoldable pub merged : FileInfo → (volume path : String) → List DecodedRecord → List FileInfo
unfolding kept sort_newest
merged fi volume path rs = sort_newest (λ f. f.mod_time_ms) (kept fi volume path rs ++ fi ∷ [])

unfoldable pub check_source : String → Result IoError (Unit {0})
unfolding is_system_vol
check_source src_volume =
    if is_system_vol src_volume
    then ok tt
    else err (invalid_argument "rename_data: src_volume must be a system volume")

module _ (fault : Faults) where
  -- `has_data_dir`, whose test of the directory is false where it fails.
  abbrev pub has_data_dir : FileInfo → Disk → Bool
  has_data_dir fi d = not (string_eq.beq fi.data_dir "") && elim (fault stat_data) [
    | some x ↦ false
    | none ↦ elim (get fi.data_dir (opened d.staged).shards) [ none ↦ false | some b ↦ true ]
  ]

  -- `rename` of a directory onto one that is there, which is never empty, fails.
  abbrev pub graft : String → Option Bytes → Option Bytes → Io (Unit {0})
  graft name none there = lift (err (io other "not found"))
  graft name (some b) (some old) = lift (err (io other "directory not empty"))
  graft name (some b) none = attempt (fault move_data) untorn (λ d.
      on_live (λ o. record o { shards = insert name b o.shards })
        (on_staged (λ o. record o { shards = remove name o.shards }) d))

  abbrev pub graft_data : FileInfo → Io (Unit {0})
  graft_data fi = λ d.
      if has_data_dir fi d
      then and_then (attempt (fault make_data_parent) untorn (on_live λ o. o) d) (λ _ d'.
        graft fi.data_dir (get fi.data_dir (opened d'.staged).shards)
          (get fi.data_dir (opened d'.live).shards) d')
      else (ok tt, d)

  -- The copy of the file before it is replaced.
  abbrev pub back_up : Bool → Option Bytes → Io (Unit {0})
  back_up false pre = done tt
  back_up true none = done tt
  back_up true (some raw) = do
    attempt (fault make_backup_parent) untorn (on_live λ o. o)
    attempt (fault write_backup) (λ left. on_live λ o. record o { backup = some left })
        (on_live λ o. record o { backup = some raw })

  -- The rename of the staged file over that of the object.
  abbrev pub commit_meta : Option Bytes → Io (Unit {0})
  commit_meta none = lift (err (io other "not found"))
  commit_meta (some b) =
      attempt (fault commit) untorn (λ d.
        on_live (λ o. record o { meta = some b }) (on_staged (λ o. record o { meta = none }) d))

  abbrev pub stage_file : Bytes → Io (Unit {0})
  stage_file file = do
    attempt (fault make_staged) untorn (on_staged λ o. o)
    attempt (fault write_staged) (λ left. on_staged λ o. record o { meta = some left })
        (on_staged λ o. record o { meta = some file })

  abbrev pub commit_staged : Io (Unit {0})
  commit_staged = do
    attempt (fault make_parent) untorn (on_live λ o. o)
    λ d. commit_meta (opened d.staged).meta d

  abbrev pub settle : Io (Unit {0})
  settle = do
    attempt (fault sync) untorn (λ d. d)
    best_effort (fault remove_staged) (λ d. record d { staged = remove_if_empty d.staged })

  -- What `rename_data` does once it knows the file to write.
  abbrev pub install :
      FileInfo → (pre : Option Bytes) → (prior : Bool) → (file : Bytes) → Io (Unit {0})
  install fi pre prior file = do
    stage_file file
    graft_data fi
    back_up prior pre
    commit_staged
    settle

module _ (from_slice : Bytes → Option OnDiskMeta) (xxh64 : Bytes → ℕ) where
  -- The versions of the file at the destination; a file that is not there has none.
  abbrev pub existing : (volume path : String) → Option Bytes → Result IoError (List DecodedRecord)
  existing volume path none = ok []
  existing volume path (some raw) = map_err (named volume path) (decode_all from_slice xxh64 raw)

module _ (to_vec_named : OnDiskMeta → Option Bytes) (from_slice : Bytes → Option OnDiskMeta)
    (xxh64 : Bytes → ℕ) (fault : Faults) where
  -- What follows once the file at the destination is read.
  unfoldable pub replace_file :
      FileInfo → (dst_volume dst_path : String) → (pre : Option Bytes) → Io String
  unfolding decode_all has_version old_data_dir merged encode_versions to_vec
  replace_file fi dst_volume dst_path pre = do
    rs ← lift (existing from_slice xxh64 dst_volume dst_path pre)
    e ← lift (encode_versions xxh64 to_vec_named (merged fi dst_volume dst_path rs))
    install fault fi pre (has_version fi.version_id rs) (to_vec e)
    done (old_data_dir fi rs)

  -- Returns the data directory of the version that was replaced.
  unfoldable pub rename_data :
      (src_volume : String) → FileInfo → (dst_volume dst_path : String) → Io String
  unfolding require_vol check_source replace_file
  rename_data src_volume fi dst_volume dst_path = do
    lift (check_source src_volume)
    require_vol fault dst_volume
    attempt (fault read_meta) untorn (λ d. d)
    λ d. replace_file fi dst_volume dst_path (opened d.live).meta d
