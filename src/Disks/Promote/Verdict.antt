-- ===== src/Disks/Promote/Verdict.antt =====
-- The verdict of `promote_versions`, and the object's file on every drive after it.
use openlake.Prelude.{
  ℕ, ◌≤◌, ◌<◌, ◌≡◌, refl, subst, ap, ◌∙◌, String, true, false, not, ◌&&◌, ◌||◌, Option, some, List,
  [], ◌∷◌, map, count, All, arith, ltb, if-elim, string_eq,
}
use openlake.Erasure.Codec.{Bytes}
use openlake.Errors.{ok, err, StorageError, is_ok}
use openlake.XlMeta.Layout.{OnDiskMeta, to_vec}
use openlake.Disks.State.{Disk, is_system_vol, contains}
use openlake.Disks.Rename.{has_version}
use openlake.Disks.Delete.{delete_version}
use openlake.Disks.Steps.{Ends}
use openlake.Disks.Atomic.{meta_in, backup_in, Merge, Committed, Failed, rename_data-atomic}
use openlake.Disks.Undo.{quiet, undo_write-verdict}
use openlake.Disks.Promote.{
  Drive, Outcome, map_bucket_or_io, first_error, promoted, undo_one, drop_stale, rolled_back,
  settled, promote_versions, cleanup_src-Leaves, delete_data_dir-Leaves,
}

everywhere : {A : Type 0} (P : A → Type 0) (xs : List A) → ((x : A) → P x) → All P xs
everywhere P [] f = tt
everywhere P (x ∷ xs) f = (f x, everywhere P xs f)

module _ (to_vec_named : OnDiskMeta → Option Bytes) (from_slice : Bytes → Option OnDiskMeta)
    (xxh64 : Bytes → ℕ) (src_volume src_path bucket key : String) where
  abbrev pub MergeOn : Drive → Type 0
  MergeOn v = Merge to_vec_named from_slice xxh64 v.writing v.fi bucket key (meta_in v.disk)

  -- If the drive took the write, and the undo of it does not fail, then a drive on which the write replaced
  -- a version has its file back.
  abbrev pub Restored : Drive → Type 0
  Restored v =
      (old : String) (d : Disk)
      → promoted to_vec_named from_slice xxh64 src_volume src_path bucket key v ≡ (ok old, d)
      → v.afterwards ≡ quiet
      → (is_system_vol bucket || contains bucket d.volumes) ≡ true
      → (g : MergeOn v) × (has_version v.fi.version_id g.versions ≡ true
          → meta_in (rolled_back to_vec_named from_slice xxh64 src_volume src_path bucket key v)
            ≡ meta_in v.disk)

  -- If the drive took the write, its file is the new one.
  abbrev pub Kept : Drive → Type 0
  Kept v =
      (old : String) (d : Disk)
      → promoted to_vec_named from_slice xxh64 src_volume src_path bucket key v ≡ (ok old, d)
      → (g : MergeOn v) × (meta_in
            (settled to_vec_named from_slice xxh64 src_volume src_path bucket key v)
          ≡ some (to_vec g.encoded))

  drive-Restored : (v : Drive) → Restored v
  unfolding rolled_back promoted
  drive-Restored v old d took calm there =
      let (g, back, _, _) =
        undo_write-verdict to_vec_named from_slice xxh64 v.writing v.fi src_volume bucket key v.disk
          d old took there in
      (
        g,
        λ t.
            cleanup_src-Leaves v.afterwards src_volume src_path _
            ∙ ap
                (λ x.
                  meta_in
                    (undo_one to_vec_named from_slice xxh64 src_volume src_path bucket key v x))
                took
            ∙ ap (λ f. meta_in (delete_version from_slice xxh64 f bucket key v.fi true d).1) calm
            ∙ back t,
      )

  drive-Kept : (v : Drive) → Kept v
  unfolding settled promoted
  drive-Kept v old d took =
      let (g, new, _, _) =
        subst
          (Ends
            (Committed to_vec_named from_slice xxh64 v.writing v.fi bucket key (meta_in v.disk)
              (backup_in v.disk))
            (Failed to_vec_named from_slice xxh64 v.writing v.fi bucket key (meta_in v.disk)))
          took
          (rename_data-atomic to_vec_named from_slice xxh64 v.writing v.fi bucket key src_volume
            v.disk) in
      (
        g,
        cleanup_src-Leaves v.afterwards src_volume src_path _
            ∙ ap
                (λ x.
                  meta_in
                    (drop_stale to_vec_named from_slice xxh64 src_volume src_path bucket key v x))
                took
            ∙ if-elim {A = Disk} (λ x. meta_in x ≡ meta_in d)
                (not (string_eq.beq old "") && not (string_eq.beq old v.fi.data_dir)) _ _
                (λ _. delete_data_dir-Leaves v.afterwards bucket key old d) (λ _. refl)
            ∙ new,
      )

  -- If the write reaches the quorum the promotion succeeds, and every drive that took it has the new file.
  -- If it does not, the promotion fails, and every drive that took it by replacing a version, and whose
  -- undo does not fail, has the file that it had before.
  pub promote_versions-verdict :
      (quorum : ℕ) (drives : List Drive)
      → let took =
          count
            (λ (r : Outcome). is_ok r.0)
            (map (promoted to_vec_named from_slice xxh64 src_volume src_path bucket key) drives) in
        let result =
          promote_versions to_vec_named from_slice xxh64 src_volume src_path bucket key quorum
            drives in
        (quorum ≤ took
          → (result ≡ (
            ok tt,
            map (settled to_vec_named from_slice xxh64 src_volume src_path bucket key) drives,
          ))
            × All Kept drives)
        × (took < quorum
            → (e : StorageError) × (result ≡ (
              err e,
              map (rolled_back to_vec_named from_slice xxh64 src_volume src_path bucket key) drives,
            ))
              × All Restored drives)
  unfolding promote_versions
  promote_versions-verdict quorum drives = (
    λ enough.
        let reached : ltb took quorum ≡ false = ground (arith, enough) in
        (rw reached, everywhere Kept drives drive-Kept),
    λ few.
        let missed : ltb took quorum ≡ true = ground (arith, few) in
        (
          map_bucket_or_io bucket (
              first_error (
                map (promoted to_vec_named from_slice xxh64 src_volume src_path bucket key)
                  drives)),
          rw missed,
          everywhere Restored drives drive-Restored,
        ),
  )
    where
      took : ℕ
      took =
          count (λ (r : Outcome). is_ok r.0)
            (map (promoted to_vec_named from_slice xxh64 src_volume src_path bucket key) drives)
