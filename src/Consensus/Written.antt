-- ===== src/Consensus/Written.antt =====
-- crates/openlake_storage/src/engine.rs: the records that a write makes for the drives of a set.
use openlake.Prelude.{
  ℕ, zero, suc, ◌+◌, ◌*◌, ◌%◌, ◌^◌, ◌≤◌, ◌<◌, ◌≡◌, refl, ap, String, Bool, true, false, ◌&&◌,
  Option, none, some, List, [], ◌∷◌, length, All, arith, ◌==◌, string_eq,
}
use openlake.Prelude.Int.{ℤ, pos, is_zero}
use openlake.Erasure.Codec.{Bytes}
use openlake.Kv.Slots.{bytes_eq}
use openlake.Records.{FileInfo, ErasureInfo, ObjectPartInfo, default_file_info}
use openlake.Consensus.Votes.{erasure_is_valid, declared_parity, etag_meta_key}
use openlake.Consensus.Contract.{decode_contract_hash, record_etag_matches}
use openlake.Consensus.Read.Latest.{holds}

-- `DEFAULT_EC_PER_SHARD_BYTES`
abbrev pub default_ec_per_shard_bytes : ℕ
default_ec_per_shard_bytes = 1048576

-- `(1..=n).collect()` from `i` on.
unfoldable pub count_from : (i k : ℕ) → List ℕ
count_from i zero = []
count_from i (suc k) = i ∷ count_from (suc i) k

unfoldable pub default_erasure_info : (data_shards parity_shards n : ℕ) → ErasureInfo
unfolding count_from
default_erasure_info data_shards parity_shards n = record {
  algorithm = "ReedSolomon";
  data_blocks = data_shards;
  parity_blocks = parity_shards;
  index = 0;
  block_size = default_ec_per_shard_bytes * data_shards % 2 ^ 32;
  distribution = count_from 1 n;
  checksums = [];
}

-- The records of the slots from `i` on.
unfoldable pub stamp_from : FileInfo → ErasureInfo → (i k : ℕ) → List FileInfo
stamp_from base_fi base_erasure i zero = []
stamp_from base_fi base_erasure i (suc k) =
    record base_fi { erasure = record base_erasure { index = (i + 1) % 2 ^ 8 } }
    ∷ stamp_from base_fi base_erasure (suc i) k

unfoldable pub with_per_disk_index : FileInfo → ErasureInfo → ℕ → List FileInfo
unfolding stamp_from
with_per_disk_index base_fi base_erasure n = stamp_from base_fi base_erasure 0 n

unfoldable pub single_part_info :
    (etag : String) → (on_disk_size actual_size : ℤ) → (mod_time_ms : ℕ) → List ObjectPartInfo
single_part_info etag on_disk_size actual_size mod_time_ms =
    record {
      etag = etag;
      number = pos 1;
      size = on_disk_size;
      actual_size = actual_size;
      mod_time_ms = mod_time_ms;
      index = [];
      checksums = [];
    }
    ∷ []

-- The metadata, in key order.
abbrev pub metadata_of : (etag : String) → Option String → List (String × String)
metadata_of etag none = (etag_meta_key, etag) ∷ []
metadata_of etag (some ct) = ("content-type", ct) ∷ (etag_meta_key, etag) ∷ []

unfoldable pub build_file_info :
    (volume name : String)
    → (size : ℤ) → (etag : String) → (mod_time_ms : ℕ) → (content_type : Option String)
    → (inline : Option (List Bytes)) → List ObjectPartInfo
    → FileInfo
build_file_info volume name size etag mod_time_ms content_type inline parts =
    record default_file_info {
      volume = volume;
      name = name;
      size = size;
      mod_time_ms = mod_time_ms;
      is_latest = true;
      num_versions = pos 1;
      fresh = true;
      parts = parts;
      inline_data = inline;
      metadata = metadata_of etag content_type;
    }

length-count_from : (i k : ℕ) → length (count_from i k) ≡ k
unfolding count_from
length-count_from i zero = refl
length-count_from i (suc k) = ap suc (length-count_from (suc i) k)

all_true :
    {a b c e : Bool} → a ≡ true → b ≡ true → c ≡ true → e ≡ true → (a && b && (c && e)) ≡ true
all_true h i j k = rw (h, i, j, k)

module _ (blake3 : Bytes → Bytes) (etag : String) (base : FileInfo) (d p : ℕ) where
  -- The record of any drive agrees with that of the set.
  abbrev pub contract_of_set : Bytes
  contract_of_set =
      decode_contract_hash blake3 (record base { erasure = default_erasure_info d p (d + p) })

  stamped_is_valid :
      (i : ℕ)
      → 0 < d
      → p ≤ d
      → i < d + p
      → d + p < 256
      → erasure_is_valid (record (default_erasure_info d p (d + p)) { index = (i + 1) % 2 ^ 8 })
        ≡ true
  unfolding erasure_is_valid default_erasure_info
  stamped_is_valid i pos_d le l small = ground (arith, length-count_from 1 (d + p))

  stamped_parity :
      (i : ℕ)
      → base.deleted ≡ false
      → is_zero base.size ≡ false
      → (declared_parity (d + p) (record base {
        erasure = record (default_erasure_info d p (d + p)) { index = (i + 1) % 2 ^ 8 };
      })
          == p)
        ≡ true
  unfolding declared_parity default_erasure_info
  stamped_parity i alive full = rw (alive, full) (ground arith)

  stamped-holds :
      (i : ℕ)
      → record_etag_matches base etag ≡ true
      → base.deleted ≡ false
      → is_zero base.size ≡ false
      → 0 < d
      → p ≤ d
      → i < d + p
      → d + p < 256
      → holds blake3 etag contract_of_set (d + p) p (
          some (record base {
            erasure = record (default_erasure_info d p (d + p)) { index = (i + 1) % 2 ^ 8 };
          }))
        ≡ true
  unfolding record_etag_matches decode_contract_hash default_erasure_info
  stamped-holds i tagged alive full pos_d le l small =
      all_true tagged ((bytes_eq.beq_iff contract_of_set contract_of_set).1 refl)
        (stamped_is_valid i pos_d le l small) (stamped_parity i alive full)

  -- The records of a write of an object that is not empty, for `d` data shards and `p` parity shards, are
  -- of one write in the sense of a read: each carries the etag, has the contract hash of the set, valid
  -- erasure fields and the parity `p`.
  pub with_per_disk_index-holds :
      record_etag_matches base etag ≡ true
      → base.deleted ≡ false
      → is_zero base.size ≡ false
      → 0 < d
      → p ≤ d
      → d + p < 256
      → All
          (λ fi. holds blake3 etag contract_of_set (d + p) p (some fi) ≡ true)
          (with_per_disk_index base (default_erasure_info d p (d + p)) (d + p))
  unfolding with_per_disk_index stamp_from
  with_per_disk_index-holds tagged alive full pos_d le small = from 0 (d + p) (omega arith)
    where
      from :
          (i k : ℕ)
          → i + k ≤ d + p
          → All
              (λ fi. holds blake3 etag contract_of_set (d + p) p (some fi) ≡ true)
              (stamp_from base (default_erasure_info d p (d + p)) i k)
      from i zero h = tt
      from i (suc k) h = (
        stamped-holds i tagged alive full pos_d le (omega (arith, h)) small,
        from (suc i) k (omega (arith, h)),
      )
