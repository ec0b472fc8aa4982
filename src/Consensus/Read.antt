-- ===== src/Consensus/Read.antt =====
-- crates/openlake_storage/src/engine.rs: `read_with_consensus`, over what the backends answer.
pub mod Hashes
pub mod Failures
pub mod Sound
pub mod Latest
mod Examples
use openlake.Prelude.{
  ℕ, suc, ◌+◌, ◌/◌, max, String, Bool, true, false, ◌&&◌, Option, none, some, List, [], ◌∷◌, ◌++◌,
  length, map, get_elem?, leb, ltb, if◌then◌else◌,
}
use openlake.Erasure.Codec.{Bytes}
use openlake.Errors.{
  Result, ok, err, IoError, StorageError, volume_not_found, file_not_found, file_version_not_found,
  bucket_not_found, object_not_found, version_not_found, inconsistent_meta,
  insufficient_online_drives, io_error,
}
use openlake.Kv.Slots.{bytes_eq}
use openlake.Records.{FileInfo}
use openlake.Consensus.Votes.{common_parity, common_etag, read_quorum_of}
use openlake.Consensus.Results.{Bucket, dominant_error}
use openlake.Consensus.Contract.{decode_contract_hash, record_etag_matches}

abbrev pub Answer : Type 0
Answer = Result IoError FileInfo

abbrev pub meta_of : Answer → Option FileInfo
meta_of (ok fi) = some fi
meta_of (err e) = none

abbrev pub error_of : Answer → Option IoError
error_of (ok fi) = none
error_of (err e) = some e

unfoldable pub map_object_missing : (bucket key : String) → IoError → StorageError
map_object_missing bucket key (file_not_found v p) = object_not_found bucket key
map_object_missing bucket key (file_version_not_found v p version_id) =
    version_not_found bucket key version_id
map_object_missing bucket key (volume_not_found v) = bucket_not_found bucket
map_object_missing bucket key e = io_error e

-- An entry of `hash_counts`.
pub record HashEntry : Type 0 where
  pub hash : Bytes
  pub times : ℕ
  pub disks : List ℕ

unfoldable pub vote_hash : Bytes → ℕ → List HashEntry → List HashEntry
vote_hash h i [] = record { hash = h; times = 1; disks = i ∷ [] } ∷ []
vote_hash h i (e ∷ es) =
    let rest = vote_hash h i es in
    if bytes_eq.beq e.hash h
    then record e { times = e.times + 1; disks = e.disks ++ i ∷ [] } ∷ es
    else e ∷ rest

-- `max_by_key(|(c, _)| *c)`: of equal counts the last wins.
unfoldable pub most_hashed : Option HashEntry → List HashEntry → Option HashEntry
most_hashed best [] = best
most_hashed none (e ∷ es) = most_hashed (some e) es
most_hashed (some b) (e ∷ es) = most_hashed (if leb b.times e.times then some e else some b) es

-- The orders in which the four maps of a read are iterated.
pub record Orders : Type 0 where
  pub errors : List Bucket → List Bucket
  pub parities : List (ℕ × ℕ) → List (ℕ × ℕ)
  pub etags : List (String × ℕ) → List (String × ℕ)
  pub hashes : List HashEntry → List HashEntry

-- The dominant error, if it reaches half of the disks.
abbrev pub surfaced : ℕ → ℕ × Option IoError → Option IoError
surfaced half (count, none) = none
surfaced half (count, some e) = if leb half count then some e else none

-- The record of disk `i`; `none` is a panic.
abbrev pub found : ℕ → Option (Option FileInfo) → Option (Result StorageError (ℕ × FileInfo))
found i none = none
found i (some none) = none
found i (some (some fi)) = some (ok (i, fi))

abbrev pub pick : List (Option FileInfo) → List ℕ → Option (Result StorageError (ℕ × FileInfo))
pick metas [] = none
pick metas (i ∷ is) = found i (get_elem? metas i)

abbrev pub agreed :
    (bucket key : String)
    → List (Option FileInfo)
    → (data_blocks : ℕ) → Option HashEntry
    → Option (Result StorageError (ℕ × FileInfo))
agreed bucket key metas data_blocks none =
    some (err (inconsistent_meta bucket key "no records matched the winning etag"))
agreed bucket key metas data_blocks (some w) =
    if ltb w.times data_blocks
    then some (err (inconsistent_meta bucket key "decode-contract hash"))
    else pick metas w.disks

module _ (blake3 : Bytes → Bytes) where
  -- The loop over the records from number `i` on.
  unfoldable pub count_hashes :
      String → ℕ → List (Option FileInfo) → List HashEntry → List HashEntry
  unfolding vote_hash decode_contract_hash record_etag_matches
  count_hashes etag i [] es = es
  count_hashes etag i (none ∷ metas) es = count_hashes etag (suc i) metas es
  count_hashes etag i (some fi ∷ metas) es =
      count_hashes etag (suc i) metas (
        if record_etag_matches fi etag then vote_hash (decode_contract_hash blake3 fi) i es else es)

  module _ (orders : Orders) (bucket key : String) (n : ℕ) (metas : List (Option FileInfo)) where
    abbrev pub after_etag :
        (data_blocks : ℕ) → Option String → Option (Result StorageError (ℕ × FileInfo))
    after_etag data_blocks none = some (err (inconsistent_meta bucket key "no etag reached quorum"))
    after_etag data_blocks (some etag) =
        agreed bucket key metas data_blocks
          (most_hashed none (orders.hashes (count_hashes etag 0 metas [])))

    abbrev pub after_parity : Option ℕ → Option (Result StorageError (ℕ × FileInfo))
    after_parity none = some (
        err (
          insufficient_online_drives bucket key
            "no parity value reached its quorum across the set"))
    after_parity (some parity) =
        after_etag (read_quorum_of n parity)
          (common_etag orders.etags metas (read_quorum_of n parity))

    abbrev pub after_errors : Option IoError → Option (Result StorageError (ℕ × FileInfo))
    after_errors (some e) = some (err (map_object_missing bucket key e))
    after_errors none = after_parity (common_parity orders.parities metas n)

  unfoldable pub read_with_consensus :
      Orders → (bucket key : String) → List Answer → Option (Result StorageError (ℕ × FileInfo))
  unfolding dominant_error common_parity common_etag count_hashes most_hashed map_object_missing
  read_with_consensus orders bucket key results =
      after_errors orders bucket key (length results) (map meta_of results) (
        surfaced (max (length results / 2) 1) (dominant_error orders.errors (map error_of results)))
