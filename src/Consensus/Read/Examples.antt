-- ===== src/Consensus/Read/Examples.antt =====
-- Reads of a set of four drives, three of which hold the record, and of one of three drives.
use openlake.Prelude.{ℕ, ◌≡◌, refl, some, List, [], ◌∷◌, map, arith}
use openlake.Prelude.Int.{pos}
use openlake.Erasure.Codec.{Bytes}
use openlake.Errors.{Result, ok, err, StorageError, file_not_found, object_not_found}
use openlake.Records.{FileInfo, default_file_info, default_erasure}
use openlake.Consensus.Contract.{decode_contract_hash, record_etag_matches}
use openlake.Consensus.Votes.{erasure_is_valid, declared_parity}
use openlake.Prelude.Maps.{get}
use openlake.Consensus.Read.{Answer, Orders, meta_of, read_with_consensus}
use openlake.Consensus.Read.Hashes.{IsFair}
use openlake.Consensus.Read.Sound.{IsSound, read_with_consensus-IsSound}
use openlake.Consensus.Written.{
  build_file_info, single_part_info, default_erasure_info, with_per_disk_index, contract_of_set,
  with_per_disk_index-holds,
}
use openlake.Prelude.{none, All, true}
use openlake.Consensus.Read.Latest.{holds, AreFair, Reads, read_with_consensus-Reads}

abbrev held : (n index : ℕ) → (distribution : List ℕ) → FileInfo
held n index distribution = record default_file_info {
  size = pos 700;
  metadata = ("etag", "e1") ∷ [];
  erasure = record default_erasure {
    data_blocks = n;
    parity_blocks = 1;
    index = index;
    distribution = distribution;
  };
}

abbrev stale : FileInfo
stale = record (held 3 2 (1 ∷ 2 ∷ 3 ∷ 4 ∷ [])) { metadata = ("etag", "e0") ∷ [] }

abbrev four_drives : List Answer
four_drives =
    ok (held 3 1 (1 ∷ 2 ∷ 3 ∷ 4 ∷ []))
    ∷ ok stale
    ∷ ok (held 3 3 (1 ∷ 2 ∷ 3 ∷ 4 ∷ []))
    ∷ ok (held 3 4 (1 ∷ 2 ∷ 3 ∷ 4 ∷ []))
    ∷ []

abbrev as_they_are : Orders
as_they_are = record { errors = λ m. m; parities = λ m. m; etags = λ m. m; hashes = λ m. m }

same-IsFair : {A : Type 0} → IsFair (λ (m : List A). m)
same-IsFair P es = (λ a. a, λ a. a)

as_they_are-AreFair : AreFair as_they_are
as_they_are-AreFair = record {
  errors = same-IsFair;
  parities = λ m k c. (λ h. h, λ h. h);
  etags = λ m k c. (λ h. h, λ h. h);
  hashes = same-IsFair;
}

abbrev plain : Bytes → Bytes
plain b = b

read_with_consensus-IsSound_example :
    (r : Result StorageError (ℕ × FileInfo)) × (read_with_consensus plain as_they_are "b" "k"
        four_drives
      ≡ some r)
    × IsSound plain (map meta_of four_drives) as_they_are.parities 4 r
read_with_consensus-IsSound_example =
    read_with_consensus-IsSound plain as_they_are "b" "k" four_drives same-IsFair

read_with_consensus-Reads_example :
    Reads plain "b" "k"
      (map meta_of four_drives)
      "e1"
      (decode_contract_hash plain (held 3 1 (1 ∷ 2 ∷ 3 ∷ 4 ∷ [])))
      (read_with_consensus plain as_they_are "b" "k" four_drives)
unfolding decode_contract_hash record_etag_matches get erasure_is_valid declared_parity
read_with_consensus-Reads_example =
    read_with_consensus-Reads plain as_they_are "b" "k" four_drives "e1"
      (decode_contract_hash plain (held 3 1 (1 ∷ 2 ∷ 3 ∷ 4 ∷ []))) 1 as_they_are-AreFair
      (omega arith) ((λ v. refl), ((λ v. refl), ((λ v. refl), ((λ v. refl), tt)))) refl
      (omega arith) (omega arith) (omega arith)

-- One drive of three that misses the object hides it, though the two others hold it.
one_missing :
    read_with_consensus plain as_they_are "b" "k" (
      ok (held 2 1 (1 ∷ 2 ∷ 3 ∷ []))
      ∷ err (file_not_found "b" "k")
      ∷ ok (held 2 3 (1 ∷ 2 ∷ 3 ∷ []))
      ∷ [])
    ≡ some (err (object_not_found "b" "k"))
unfolding read_with_consensus
one_missing = refl

abbrev new_object : FileInfo
new_object =
    build_file_info "b" "k" (pos 700) "e2" 30 (some "text/plain") none
      (single_part_info "e2" (pos 256) (pos 700) 30)

with_per_disk_index-holds_example :
    All
      (λ fi. holds plain "e2" (contract_of_set plain "e2" new_object 3 1) 4 1 (some fi) ≡ true)
      (with_per_disk_index new_object (default_erasure_info 3 1 4) 4)
unfolding build_file_info record_etag_matches get
with_per_disk_index-holds_example =
    with_per_disk_index-holds plain "e2" new_object 3 1 refl refl refl (omega arith) (omega arith)
      (omega arith)
