-- ===== src/Disks/Promote.antt =====
-- crates/openlake_storage/src/engine.rs: `promote_versions`, over the drives of a set, and what it leaves
-- on each of them.
pub mod Verdict
use openlake.Prelude.{
  ℕ, ◌+◌, ◌≤◌, ◌<◌, ◌≡◌, refl, sym, subst, ap, ◌∙◌, String, Bool, true, false, not, ◌&&◌, ◌||◌,
  Option, none, some, List, [], ◌∷◌, map, count, All, arith, ltb, if◌then◌else◌, if-elim,
  Bool-cases, inl, inr, string_eq,
}
use openlake.Prelude.Maps.{get, remove}
use openlake.Erasure.Codec.{Bytes}
use openlake.Errors.{
  Result, ok, err, IoError, StorageError, volume_not_found, invalid_argument, file_not_found,
  bucket_not_found, io_error, is_ok,
}
use openlake.Records.{FileInfo}
use openlake.XlMeta.Layout.{OnDiskMeta}
use openlake.Disks.State.{
  ObjectDir, opened, Disk, Fault, Faults, Io, and_then, ◌>>=◌, ◌>>◌, done, lift, attempt, untorn,
  require_vol, is_system_vol, contains, trash_data, remove_staged,
}
use openlake.Disks.Versions.{on_live}
use openlake.Disks.Rename.{has_version, rename_data}
use openlake.Disks.Delete.{delete_version}
use openlake.Disks.Steps.{Ends, Same, and_then-Ends, require_vol-Same}
use openlake.Disks.Atomic.{meta_in, Merge}
use openlake.Disks.Undo.{quiet, undone, undo_write-verdict}

-- A drive: the record that it is to keep, which of its steps fail in the write, and which afterwards.
pub record Drive : Type 0 where
  pub fi : FileInfo
  pub disk : Disk
  pub writing : Faults
  pub afterwards : Faults

unfoldable pub map_bucket_or_io : (bucket : String) → IoError → StorageError
map_bucket_or_io bucket (volume_not_found v) = bucket_not_found bucket
map_bucket_or_io bucket e = io_error e

abbrev pub Outcome : Type 0
Outcome = Result IoError String × Disk

-- The first error, or the one that stands for none.
unfoldable pub first_error : List Outcome → IoError
first_error [] = invalid_argument "no quorum"
first_error ((ok old, d) ∷ rs) = first_error rs
first_error ((err e, d) ∷ rs) = e

-- `delete` of a data directory.
abbrev pub trash_shards : Faults → (volume path name : String) → Option Bytes → Io (Unit {0})
trash_shards fault volume path name none = lift (err (file_not_found volume path))
trash_shards fault volume path name (some b) =
    attempt (fault trash_data) untorn (on_live λ o. record o { shards = remove name o.shards })

unfoldable pub delete_data_dir : Faults → (volume path name : String) → Io (Unit {0})
unfolding require_vol
delete_data_dir fault volume path name = do
  require_vol fault volume
  λ d. trash_shards fault volume path name (get name (opened d.live).shards) d

-- `delete` of the staging directory, by `cleanup_src`.
abbrev pub sweep : Faults → (volume path : String) → Option ObjectDir → Io (Unit {0})
sweep fault volume path none = lift (err (file_not_found volume path))
sweep fault volume path (some o) =
    attempt (fault remove_staged) untorn (λ d. record d { staged = none })

unfoldable pub cleanup_src : Faults → (src_volume src_path : String) → Io (Unit {0})
unfolding require_vol
cleanup_src fault src_volume src_path = do
  require_vol fault src_volume
  λ d. sweep fault src_volume src_path d.staged d

module _ (to_vec_named : OnDiskMeta → Option Bytes) (from_slice : Bytes → Option OnDiskMeta)
    (xxh64 : Bytes → ℕ) (src_volume src_path bucket key : String) where
  unfoldable pub promoted : Drive → Outcome
  unfolding rename_data
  promoted v = rename_data to_vec_named from_slice xxh64 v.writing src_volume v.fi bucket key v.disk

  abbrev pub undo_one : Drive → Outcome → Disk
  undo_one v (ok old, d) = (delete_version from_slice xxh64 v.afterwards bucket key v.fi true d).1
  undo_one v (err e, d) = d

  -- The data directory that the write replaced is deleted.
  abbrev pub drop_stale : Drive → Outcome → Disk
  drop_stale v (ok old, d) =
      if not (string_eq.beq old "") && not (string_eq.beq old v.fi.data_dir)
      then (delete_data_dir v.afterwards bucket key old d).1
      else d
  drop_stale v (err e, d) = d

  abbrev pub swept : Drive → Disk → Disk
  swept v d = (cleanup_src v.afterwards src_volume src_path d).1

  unfoldable pub rolled_back : Drive → Disk
  unfolding promoted delete_version cleanup_src
  rolled_back v = swept v (undo_one v (promoted v))

  unfoldable pub settled : Drive → Disk
  unfolding promoted delete_data_dir cleanup_src
  settled v = swept v (drop_stale v (promoted v))

  unfoldable pub promote_versions :
      (quorum : ℕ) → List Drive → Result StorageError (Unit {0}) × List Disk
  unfolding promoted rolled_back settled first_error map_bucket_or_io
  promote_versions quorum drives =
      if ltb (count (λ r. is_ok r.0) (map promoted drives)) quorum
      then (
        err (map_bucket_or_io bucket (first_error (map promoted drives))),
        map rolled_back drives,
      )
      else (ok tt, map settled drives)

-- A step that does not touch the object's file.
Leaves : {A : Type 0} → Option Bytes → Result IoError A × Disk → Type 0
Leaves m x = Ends (λ _ d. meta_in d ≡ m) (λ d. meta_in d ≡ m) x

Leaves-meta :
    {A : Type 0} (m : Option Bytes) (x : Result IoError A × Disk) → Leaves m x → meta_in x.1 ≡ m
unfolding Leaves
Leaves-meta m (ok a, d) h = h
Leaves-meta m (err e, d) h = h

after_require_vol :
    (fault : Faults) (volume : String) (f : Io (Unit {0})) (d : Disk)
    → ((d : Disk) → Leaves (meta_in d) (f d))
    → Leaves (meta_in d) (and_then (require_vol fault volume d) (λ _. f))
unfolding Leaves
after_require_vol fault volume f d h =
    and_then-Ends (λ _ d'. d' ≡ d) (λ _ d'. meta_in d' ≡ meta_in d) (λ d'. meta_in d' ≡ meta_in d)
      (require_vol fault volume d) _
      (same (require_vol fault volume d) (require_vol-Same fault volume d))
      (λ _ d' s.
        subst (λ m. Ends (λ _ d'. meta_in d' ≡ m) (λ d'. meta_in d' ≡ m) (f d')) (ap meta_in s)
          (h d'))
  where
    same :
        (x : Result IoError (Unit {0}) × Disk)
        → Ends (Same d) (λ d'. d' ≡ d) x
        → Ends (λ _ d'. d' ≡ d) (λ d'. meta_in d' ≡ meta_in d) x
    same (ok a, d') s = s
    same (err e, d') s = ap meta_in s

pub cleanup_src-Leaves :
    (fault : Faults) (volume path : String) (d : Disk)
    → meta_in (cleanup_src fault volume path d).1 ≡ meta_in d
unfolding cleanup_src Leaves
cleanup_src-Leaves fault volume path d =
    Leaves-meta (meta_in d) _ (after_require_vol fault volume _ d (λ d. left d d.staged))
  where
    left : (d : Disk) (o : Option ObjectDir) → Leaves (meta_in d) (sweep fault volume path o d)
    left d none = refl
    left d (some o) = tried (fault remove_staged)
      where
        tried :
            (x : Option Fault)
            → Leaves (meta_in d) (attempt x untorn (λ d. record d { staged = none }) d)
        tried none = refl
        tried (some x) = refl

pub delete_data_dir-Leaves :
    (fault : Faults) (volume path name : String) (d : Disk)
    → meta_in (delete_data_dir fault volume path name d).1 ≡ meta_in d
unfolding delete_data_dir Leaves
delete_data_dir-Leaves fault volume path name d =
    Leaves-meta (meta_in d) _
      (after_require_vol fault volume _ d (λ d. left d (get name (opened d.live).shards)))
  where
    left :
        (d : Disk) (o : Option Bytes) → Leaves (meta_in d) (trash_shards fault volume path name o d)
    left d none = refl
    left d (some b) = tried (fault trash_data)
      where
        tried :
            (x : Option Fault)
            → Leaves
                (meta_in d)
                (attempt x untorn (on_live λ o. record o { shards = remove name o.shards }) d)
        tried none = refl
        tried (some x) = refl
