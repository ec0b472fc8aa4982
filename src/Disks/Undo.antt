-- ===== src/Disks/Undo.antt =====
-- What the undo of a write leaves of the object.
use openlake.Prelude.{
  ℕ, ◌≡◌, refl, sym, subst, ap, ◌∙◌, ◌⊎◌, String, true, false, ◌||◌, Option, none, some, [],
  Option-cases, Bool-cases, inl, inr, string_eq,
}
use openlake.Erasure.Codec.{Bytes}
use openlake.Errors.{ok}
use openlake.Records.{FileInfo}
use openlake.XlMeta.Layout.{OnDiskMeta}
use openlake.Disks.State.{ObjectDir, Disk, Faults, require_vol, is_system_vol, contains}
use openlake.Disks.Rename.{has_version, existing, rename_data}
use openlake.Disks.Delete.{delete_version, delete_recursive, delete_all, restore_backup}
use openlake.Disks.Steps.{Ends}
use openlake.Disks.Atomic.{
  meta_in, backup_in, backed_up, Merge, Committed, Failed, rename_data-atomic,
}

-- No step fails.
abbrev pub quiet : Faults
quiet s = none

-- The undo of the write of `fi`, where no step of it fails.
abbrev pub undone :
    (Bytes → Option OnDiskMeta) → (Bytes → ℕ) → FileInfo → (volume path : String) → Disk → Disk
undone from_slice xxh64 fi volume path d =
    (delete_version from_slice xxh64 quiet volume path fi true d).1

module _ (from_slice : Bytes → Option OnDiskMeta) (xxh64 : Bytes → ℕ) (fi : FileInfo)
    (volume path : String) (d : Disk) where
  undone-backup :
      (b : Bytes)
      → backup_in d ≡ some b
      → meta_in (undone from_slice xxh64 fi volume path d) ≡ some b
  unfolding delete_version
  undone-backup b h =
      subst (λ o. meta_in (restore_backup quiet volume path fi o d).1 ≡ some b) (sym h)
        (elim (Bool-cases (string_eq.beq fi.data_dir "")) [ inl t ↦ rw t | inr f ↦ rw f ])

  undone-lost :
      backup_in d ≡ none
      → (is_system_vol volume || contains volume d.volumes) ≡ true
      → (undone from_slice xxh64 fi volume path d).live ≡ none
  unfolding delete_version delete_recursive require_vol
  undone-lost h there =
      subst (λ o. (restore_backup quiet volume path fi o d).1.live ≡ none) (sym h)
        (rw there (gone d.live refl))
    where
      gone : (o : Option ObjectDir) → d.live ≡ o → (delete_all quiet volume path o d).1.live ≡ none
      gone none e = e
      gone (some dir) e = refl

no_versions : (fi : FileInfo) → has_version fi.version_id [] ≡ false
unfolding has_version
no_versions fi = refl

-- After a write that succeeded, an undo none of whose steps fails gives the file back as it was if the
-- write replaced a version. If the write added one, it brings back an older backup where there is one,
-- and where there is none it removes the object, with all the versions that it had.
pub undo_write-verdict :
    (to_vec_named : OnDiskMeta → Option Bytes) (from_slice : Bytes → Option OnDiskMeta)
    (xxh64 : Bytes → ℕ) (fault : Faults) (fi : FileInfo) (src_volume volume path : String)
    (d d' : Disk) (old : String)
    → rename_data to_vec_named from_slice xxh64 fault src_volume fi volume path d ≡ (ok old, d')
    → (is_system_vol volume || contains volume d'.volumes) ≡ true
    → (g : Merge to_vec_named from_slice xxh64 fault fi volume path (meta_in d)) × (has_version
            fi.version_id g.versions
          ≡ true
        → meta_in (undone from_slice xxh64 fi volume path d') ≡ meta_in d)
      × ((b : Bytes)
          → has_version fi.version_id g.versions ≡ false
          → backup_in d ≡ some b
          → meta_in (undone from_slice xxh64 fi volume path d') ≡ some b)
      × (has_version fi.version_id g.versions ≡ false
          → backup_in d ≡ none
          → (undone from_slice xxh64 fi volume path d').live ≡ none)
undo_write-verdict to_vec_named from_slice xxh64 fault fi src_volume volume path d d' old h there =
    let (g, _, backup, _) =
      subst (Ends Q E) h
        (rename_data-atomic to_vec_named from_slice xxh64 fault fi volume path src_volume d) in
    (
      g,
      (λ t. replaced g backup t (Option-cases (meta_in d))),
      (λ b f k.
          undone-backup from_slice xxh64 fi volume path d' b
            (backup ∙ ap (λ p. backed_up p (meta_in d) (backup_in d)) f ∙ k)),
      λ f k.
          undone-lost from_slice xxh64 fi volume path d'
            (backup ∙ ap (λ p. backed_up p (meta_in d) (backup_in d)) f ∙ k) there,
    )
  where
    M : Option Bytes → Type 0
    M = Merge to_vec_named from_slice xxh64 fault fi volume path

    Q : String → Disk → Type 0
    Q = Committed to_vec_named from_slice xxh64 fault fi volume path (meta_in d) (backup_in d)

    E : Disk → Type 0
    E = Failed to_vec_named from_slice xxh64 fault fi volume path (meta_in d)

    replaced :
        (g : M (meta_in d))
        → backup_in d' ≡ backed_up (has_version fi.version_id g.versions) (meta_in d) (backup_in d)
        → has_version fi.version_id g.versions ≡ true
        → (meta_in d ≡ none) ⊎ ((b : Bytes) × (meta_in d ≡ some b))
        → meta_in (undone from_slice xxh64 fi volume path d') ≡ meta_in d
    replaced g backup t (inl n) =
        let empty : ok [] ≡ ok g.versions =
          subst (λ o. existing from_slice xxh64 volume path o ≡ ok g.versions) n g.read in
        absurd (cc (empty, no_versions fi, t))
    replaced g backup t (inr (b, s)) =
        undone-backup from_slice xxh64 fi volume path d' b (
          backup
          ∙ ap (λ p. backed_up p (meta_in d) (backup_in d)) t
          ∙ ap (λ o. backed_up true o (backup_in d)) s)
        ∙ sym s
