-- ===== src/Disks/Atomic.antt =====
-- `rename_data` leaves the object's file as it was, or as it is to be.
use openlake.Prelude.{
  ℕ, ◌≡◌, refl, sym, subst, ap, ◌⊎◌, String, Bool, true, false, Option, none, some, List, if-elim,
  inl, inr,
}
use openlake.Erasure.Codec.{Bytes}
use openlake.Errors.{Result, ok, err, IoError}
use openlake.Records.{FileInfo}
use openlake.XlMeta.Layout.{OnDiskMeta, DecodedRecord, EncodedXlMeta, to_vec}
use openlake.XlMeta.Encode.{encode_versions}
use openlake.Disks.State.{
  opened, Disk, Faults, attempt, untorn, require_vol, read_meta, make_staged, write_staged,
  make_parent, sync, remove_staged, make_data_parent, make_backup_parent, write_backup,
}
use openlake.Disks.Versions.{on_live, on_staged, remove_if_empty}
use openlake.Disks.Rename.{
  has_version, old_data_dir, merged, existing, has_data_dir, graft, graft_data, back_up,
  commit_meta, stage_file, commit_staged, settle, install, check_source, replace_file, rename_data,
}
use openlake.Disks.Steps.{
  Same, attempt-Same, require_vol-Same, lift-Ends, Ends, Runs, and_then-Ends, bind-Runs,
  attempt-Runs, best_effort-Runs,
}

abbrev pub meta_in : Disk → Option Bytes
meta_in d = (opened d.live).meta

abbrev pub backup_in : Disk → Option Bytes
backup_in d = (opened d.live).backup

abbrev pub staged_in : Disk → Option Bytes
staged_in d = (opened d.staged).meta

-- The backup after a write that replaced a version, or did not.
abbrev pub backed_up : (prior : Bool) → (pre bk : Option Bytes) → Option Bytes
backed_up false pre bk = bk
backed_up true none bk = bk
backed_up true (some raw) bk = some raw

module _ (fault : Faults) (fi : FileInfo) (pre bk : Option Bytes) (prior : Bool)
    (file : Bytes) where
  -- Before the commit: the file is as it was, and the staged one is written.
  abbrev Holds : Option Bytes → Disk → Type 0
  Holds b d = (meta_in d ≡ pre) × (backup_in d ≡ b) × (staged_in d ≡ some file)

  abbrev Untouched : Disk → Type 0
  Untouched d = (meta_in d ≡ pre) × (backup_in d ≡ bk)

  abbrev pub Installed : Disk → Type 0
  Installed d = (meta_in d ≡ some file) × (backup_in d ≡ backed_up prior pre bk)

  abbrev pub Either : Disk → Type 0
  Either d = (meta_in d ≡ pre) ⊎ (meta_in d ≡ some file)

  graft-Runs :
      (name : String) (b old : Option Bytes)
      → Runs (Holds bk) (graft fault name b old) (λ _. Holds bk) Either
  graft-Runs name none old d h = inl h.0
  graft-Runs name (some b) (some o) d h = inl h.0
  graft-Runs name (some b) none d h =
      attempt-Runs (Holds bk) (Holds bk) Either _ _ _ (λ d h. h) (λ l d h. inl h.0) d h

  graft_data-Runs : Runs (Holds bk) (graft_data fault fi) (λ _. Holds bk) Either
  graft_data-Runs d h =
      if-elim (Ends (λ _. Holds bk) Either) (has_data_dir fault fi d) _ _
        (λ _.
          and_then-Ends (λ _. Holds bk) (λ _. Holds bk) Either _ _
            (attempt-Runs (Holds bk) (Holds bk) Either (fault make_data_parent) untorn
              (on_live λ o. o) (λ d h. h) (λ l d h. inl h.0) d h)
            (λ _ d' h'. graft-Runs fi.data_dir _ _ d' h'))
        (λ _. h)

  back_up-Runs :
      (p : Bool) (o : Option Bytes)
      → Runs (Holds bk) (back_up fault p o) (λ _. Holds (backed_up p o bk)) Either
  back_up-Runs false o d h = h
  back_up-Runs true none d h = h
  back_up-Runs true (some raw) d h =
      bind-Runs (λ _. Holds bk) (λ _. Holds (some raw)) Either (Holds bk) _ _
        (attempt-Runs (Holds bk) (Holds bk) Either (fault make_backup_parent) untorn
          (on_live λ o. o) (λ d h. h) (λ l d h. inl h.0))
        (λ _.
          attempt-Runs (Holds bk) (Holds (some raw)) Either (fault write_backup) _ _
            (λ d h. (h.0, refl, h.2)) (λ l d h. inl h.0))
        d h

  Ready : Disk → Type 0
  Ready = Holds (backed_up prior pre bk)

  commit-Runs :
      (o : Option Bytes) → o ≡ some file → Runs Ready (commit_meta fault o) (λ _. Installed) Either
  unfolding Ready
  commit-Runs none e d h = absurd (cc e)
  commit-Runs (some b) e d h =
      attempt-Runs Ready Installed Either _ _ _ (λ d h. (e, h.1)) (λ l d h. inl h.0) d h

  stage_file-Runs : Runs Untouched (stage_file fault file) (λ _. Holds bk) Either
  stage_file-Runs =
      bind-Runs (λ _. Untouched) (λ _. Holds bk) Either Untouched
        (attempt (fault make_staged) untorn (on_staged λ o. o)) _
        (attempt-Runs Untouched Untouched Either (fault make_staged) untorn (on_staged λ o. o)
          (λ d h. h) (λ l d h. inl h.0))
        (λ _.
          attempt-Runs Untouched (Holds bk) Either (fault write_staged) _ _
            (λ d h. (h.0, h.1, refl)) (λ l d h. inl h.0))

  commit_staged-Runs : Runs Ready (commit_staged fault) (λ _. Installed) Either
  unfolding Ready
  commit_staged-Runs =
      bind-Runs (λ _. Ready) (λ _. Installed) Either Ready
        (attempt (fault make_parent) untorn (on_live λ o. o)) _
        (attempt-Runs Ready Ready Either (fault make_parent) untorn (on_live λ o. o) (λ d h. h)
          (λ l d h. inl h.0))
        (λ _ d h. commit-Runs (opened d.staged).meta h.2 d h)

  settle-Runs : Runs Installed (settle fault) (λ _. Installed) Either
  settle-Runs =
      bind-Runs (λ _. Installed) (λ _. Installed) Either Installed
        (attempt (fault sync) untorn (λ d. d)) _
        (attempt-Runs Installed Installed Either (fault sync) untorn (λ d. d) (λ d h. h)
          (λ l d h. inr h.0))
        (λ _.
          best_effort-Runs Installed Installed Either (fault remove_staged)
            (λ d. record d { staged = remove_if_empty d.staged }) (λ d h. h) (λ d h. h))

  pub install-Runs : Runs Untouched (install fault fi pre prior file) (λ _. Installed) Either
  unfolding Ready
  install-Runs =
      bind-Runs (λ _. Holds bk) (λ _. Installed) Either Untouched (stage_file fault file) _
        stage_file-Runs
        (λ _.
          bind-Runs (λ _. Holds bk) (λ _. Installed) Either (Holds bk) (graft_data fault fi) _
            graft_data-Runs
            (λ _.
              bind-Runs (λ _. Ready) (λ _. Installed) Either (Holds bk) (back_up fault prior pre) _
                (back_up-Runs prior pre)
                (λ _.
                  bind-Runs (λ _. Installed) (λ _. Installed) Either Ready (commit_staged fault) _
                    commit_staged-Runs (λ _. settle-Runs))))

module _ (to_vec_named : OnDiskMeta → Option Bytes) (from_slice : Bytes → Option OnDiskMeta)
    (xxh64 : Bytes → ℕ) (fault : Faults) (fi : FileInfo) (volume path : String) where
  -- The file `e` holds the versions of the file `pre`, the one of `fi` put in its place.
  pub record Merge (pre : Option Bytes) : Type 0 where
    pub versions : List DecodedRecord
    pub encoded : EncodedXlMeta
    pub read : existing from_slice xxh64 volume path pre ≡ ok versions
    pub written : encode_versions xxh64 to_vec_named (merged fi volume path versions) ≡ ok encoded

  -- The call succeeded: the file is the new one, the backup is what the file was if a version was
  -- replaced, and what it was if not, and the data directory of the replaced version is returned.
  abbrev pub Committed : (pre bk : Option Bytes) → String → Disk → Type 0
  Committed pre bk old d' =
      (g : Merge pre) × (meta_in d' ≡ some (to_vec g.encoded))
      × (backup_in d' ≡ backed_up (has_version fi.version_id g.versions) pre bk)
      × (old ≡ old_data_dir fi g.versions)

  -- The call failed: the file is as it was, or the new one.
  abbrev pub Failed : (pre : Option Bytes) → Disk → Type 0
  Failed pre d' = (meta_in d' ≡ pre) ⊎ ((g : Merge pre) × (meta_in d' ≡ some (to_vec g.encoded)))

  replace_file-Ends :
      (d : Disk)
      → Ends
          (Committed (meta_in d) (backup_in d))
          (Failed (meta_in d))
          (replace_file to_vec_named from_slice xxh64 fault fi volume path (meta_in d) d)
  unfolding replace_file
  replace_file-Ends d =
      lift-Ends Q E (existing from_slice xxh64 volume path (meta_in d)) d _
        (λ rs read.
          lift-Ends Q E (encode_versions xxh64 to_vec_named (merged fi volume path rs)) d _
            (λ e written.
              let g : Merge (meta_in d) = record {
                versions = rs;
                encoded = e;
                read = read;
                written = written;
              } in
              let prior = has_version fi.version_id rs in
              let installed =
                install-Runs fault fi (meta_in d) (backup_in d) prior (to_vec e) d (refl, refl) in
              and_then-Ends (λ _. Installed fault fi (meta_in d) (backup_in d) prior (to_vec e)) Q E
                (install fault fi (meta_in d) prior (to_vec e) d) _ (weaken g _ installed)
                (λ _ d' h. (g, h.0, h.1, refl)))
            (inl refl))
        (inl refl)
    where
      Q : String → Disk → Type 0
      Q = Committed (meta_in d) (backup_in d)

      E : Disk → Type 0
      E = Failed (meta_in d)

      weaken :
          (g : Merge (meta_in d)) (x : Result IoError (Unit {0}) × Disk)
          → let prior = has_version fi.version_id g.versions in
            Ends
              (λ _. Installed fault fi (meta_in d) (backup_in d) prior (to_vec g.encoded))
              (Either fault fi (meta_in d) (backup_in d) prior (to_vec g.encoded))
              x
            → Ends (λ _. Installed fault fi (meta_in d) (backup_in d) prior (to_vec g.encoded)) E x
      weaken g (ok a, d') h = h
      weaken g (err e, d') (inl h) = inl h
      weaken g (err e, d') (inr h) = inr (g, h)

  -- Whichever steps fail, a write leaves the object's file as it was or replaces it by the whole new one;
  -- where the call succeeds it is replaced, the backup is what the file was if a version was replaced and
  -- is left alone if not, and the data directory of the replaced version is returned.
  pub rename_data-atomic :
      (src_volume : String) (d : Disk)
      → Ends
          (Committed (meta_in d) (backup_in d))
          (Failed (meta_in d))
          (rename_data to_vec_named from_slice xxh64 fault src_volume fi volume path d)
  unfolding rename_data
  rename_data-atomic src_volume d =
      lift-Ends Q E (check_source src_volume) d _
        (λ _ _.
          and_then-Ends (Same d) Q E (require_vol fault volume d) _
            (weaken _ (require_vol-Same fault volume d))
            (λ _ d1 s1.
              and_then-Ends (Same d) Q E (attempt (fault read_meta) untorn (λ d. d) d1) _
                (weaken _ (
                  subst
                    (λ x.
                      Ends (Same d) (λ d'. d' ≡ d) (attempt (fault read_meta) untorn (λ d. d) x))
                    (sym s1) (attempt-Same (fault read_meta) d)))
                (λ _ d2 s2.
                  subst
                    (λ x. Ends Q E (
                      replace_file to_vec_named from_slice xxh64 fault fi volume path (meta_in x)
                        x))
                    (sym s2) (replace_file-Ends d))))
        (inl refl)
    where
      Q : String → Disk → Type 0
      Q = Committed (meta_in d) (backup_in d)

      E : Disk → Type 0
      E = Failed (meta_in d)

      weaken :
          (x : Result IoError (Unit {0}) × Disk)
          → Ends (Same d) (λ d'. d' ≡ d) x
          → Ends (Same d) E x
      weaken (ok a, d') s = s
      weaken (err e, d') s = inl (ap meta_in s)
