-- ===== src/Disks/Examples.antt =====
-- A write over the null version of an object, on a disk that does what it is asked or fails at the commit.
use openlake.Prelude.{ℕ, ◌+◌, ◌≡◌, refl, true, false, Option, none, some, List, [], ◌∷◌}
use openlake.Prelude.Int.{pos}
use openlake.Erasure.Codec.{Bytes}
use openlake.Errors.{Result, ok, err, IoError}
use openlake.Records.{FileInfo, default_file_info, ObjectPartInfo, ErasureInfo}
use openlake.XlMeta.Layout.{VersionRecord, OnDiskMeta, to_vec}
use openlake.XlMeta.Encode.{records_of, stage, head_of, tail_frames}
use openlake.Disks.State.{Disk, Faults, commit, is_system_vol, contains}
use openlake.Disks.Rename.{has_version, rename_data}
use openlake.Disks.Steps.{Ends}
use openlake.Disks.Atomic.{meta_in, backup_in, Merge, Committed, Failed, rename_data-atomic}
use openlake.Prelude.{map, count, All, ◌≤◌, ◌<◌}
use openlake.Errors.{StorageError, is_ok}
use openlake.Disks.Promote.{Drive, Outcome, promoted, settled, rolled_back, promote_versions}
use openlake.Disks.Promote.Verdict.{Kept, Restored, promote_versions-verdict}
use openlake.Disks.Undo.{quiet, undone, undo_write-verdict}

abbrev one_drive : ErasureInfo
one_drive = record {
  algorithm = "ReedSolomon";
  data_blocks = 1;
  parity_blocks = 0;
  block_size = 1048576;
  index = 1;
  distribution = 1 ∷ [];
  checksums = [];
}

abbrev part : ℕ → ObjectPartInfo
part n = record {
  etag = "";
  number = pos 1;
  size = pos n;
  actual_size = pos n;
  mod_time_ms = 5;
  index = [];
  checksums = [];
}

abbrev version : ℕ → Bytes → ℕ → FileInfo
version time frame n = record default_file_info {
  version_id = "null";
  mod_time_ms = time;
  size = pos n;
  erasure = one_drive;
  parts = part n ∷ [];
  inline_data = some (frame ∷ []);
}

abbrev before : FileInfo
before = version 10 (7 ∷ 8 ∷ 9 ∷ []) 3

abbrev after : FileInfo
after = version 20 (4 ∷ 5 ∷ []) 2

abbrev records_in : Result IoError (List VersionRecord) → List VersionRecord
records_in (ok vs) = vs
records_in (err e) = []

abbrev sum : Bytes → ℕ
sum [] = 0
sum (b ∷ bs) = b + sum bs

abbrev to_body : OnDiskMeta → Option Bytes
to_body m = some (1 ∷ 2 ∷ 3 ∷ [])

abbrev of_body : Bytes → Option OnDiskMeta
of_body b =
    some (record { versions = records_in (records_of (before ∷ []) (stage 0 (before ∷ []))) })

abbrev disk : Disk
disk = record {
  volumes = "b" ∷ [];
  live = some (record {
    meta =
        some (
          to_vec
            (record { head = head_of sum (1 ∷ 2 ∷ 3 ∷ []); tail = tail_frames (before ∷ []) }));
    backup = none;
    shards = [];
  });
  staged = none;
}

abbrev fails_at_commit : Faults
fails_at_commit commit = some (record { message = "EIO"; left = [] })
fails_at_commit s = none

rename_data-atomic_example :
    Ends
      (Committed to_body of_body sum fails_at_commit after "b" "k" (meta_in disk) (backup_in disk))
      (Failed to_body of_body sum fails_at_commit after "b" "k" (meta_in disk))
      (rename_data to_body of_body sum fails_at_commit ".openlake.staging" after "b" "k" disk)
rename_data-atomic_example =
    rename_data-atomic to_body of_body sum fails_at_commit after "b" "k" ".openlake.staging" disk

abbrev written : Disk
written = (rename_data to_body of_body sum quiet ".openlake.staging" after "b" "k" disk).1

undo_write-verdict_example :
    (g : Merge to_body of_body sum quiet after "b" "k" (meta_in disk)) × (has_version "null"
          g.versions
        ≡ true
      → meta_in (undone of_body sum after "b" "k" written) ≡ meta_in disk)
    × ((b : Bytes)
        → has_version "null" g.versions ≡ false
        → backup_in disk ≡ some b
        → meta_in (undone of_body sum after "b" "k" written) ≡ some b)
    × (has_version "null" g.versions ≡ false
        → backup_in disk ≡ none
        → (undone of_body sum after "b" "k" written).live ≡ none)
unfolding rename_data records_of stage head_of tail_frames to_vec is_system_vol contains
undo_write-verdict_example =
    undo_write-verdict to_body of_body sum quiet after ".openlake.staging" "b" "k" disk written ""
      refl refl

-- Of two drives one fails at the commit, so that a quorum of two is not reached.
abbrev drives : List Drive
drives =
    record { fi = after; disk = disk; writing = quiet; afterwards = quiet }
    ∷ record { fi = after; disk = disk; writing = fails_at_commit; afterwards = quiet }
    ∷ []

abbrev taken : ℕ
taken =
    count (λ (r : Outcome). is_ok r.0)
      (map (promoted to_body of_body sum ".openlake.staging" "s" "b" "k") drives)

abbrev promotion : Result StorageError (Unit {0}) × List Disk
promotion = promote_versions to_body of_body sum ".openlake.staging" "s" "b" "k" 2 drives

promote_versions-verdict_example :
    (2 ≤ taken
      → (promotion
          ≡ (ok tt, map (settled to_body of_body sum ".openlake.staging" "s" "b" "k") drives))
        × All (Kept to_body of_body sum ".openlake.staging" "s" "b" "k") drives)
    × (taken < 2
        → (e : StorageError) × (promotion
            ≡ (err e, map (rolled_back to_body of_body sum ".openlake.staging" "s" "b" "k") drives))
          × All (Restored to_body of_body sum ".openlake.staging" "s" "b" "k") drives)
promote_versions-verdict_example =
    promote_versions-verdict to_body of_body sum ".openlake.staging" "s" "b" "k" 2 drives
