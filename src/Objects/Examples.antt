-- ===== src/Objects/Examples.antt =====
-- Reads of a part of an object of ten bytes, and a listing over three drives.
use openlake.Prelude.{ℕ, ◌≤◌, refl, List, [], ◌∷◌}
use openlake.Prelude.Maps.{get}
use openlake.Records.{FileInfo, default_file_info}
use openlake.Objects.Listing.{backers, sig_of, vote_fileinfo, vote_fileinfo-quorum}

-- Two of three drives have the same record.
abbrev record_of : ℕ → FileInfo
record_of time = record default_file_info {
  name = "k";
  mod_time_ms = time;
  metadata = ("etag", "e1") ∷ [];
}

abbrev drives : List FileInfo
drives = record_of 5 ∷ record_of 4 ∷ record_of 5 ∷ []

vote_fileinfo-quorum_example : 2 ≤ backers (sig_of (record_of 5)) drives
unfolding vote_fileinfo get
vote_fileinfo-quorum_example =
    vote_fileinfo-quorum (λ es. es) drives 2 (record_of 5) (λ P es h. h) refl
