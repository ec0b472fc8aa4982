-- ===== src/Consensus/Contract.antt =====
-- crates/openlake_storage/src/engine.rs: the fields of a record that a read must agree on, as the bytes
-- that are hashed. The hash, of the blake3 crate, is a parameter.
use Prim.Native.Char.{Char, code}
use openlake.Prelude.{
  ℕ, ◌+◌, ◌/◌, ◌%◌, String, Bool, true, false, not, ◌&&◌, Option, none, some, List, [], ◌∷◌, ◌++◌,
  ltb, if◌then◌else◌, string_eq,
}
use openlake.Prelude.Int.{is_zero, bits, le_bytes}
use openlake.Prelude.Maps.{get}
use openlake.Erasure.Codec.{Bytes}
use openlake.Records.{FileInfo, ObjectPartInfo}
use openlake.Consensus.Votes.{etag_meta_key}

-- The UTF-8 encoding of a character.
unfoldable pub utf8 : Char → Bytes
utf8 c =
    let n = code c in
    if ltb n 128
    then n ∷ []
    else if ltb n 2048
    then (192 + n / 64) ∷ (128 + n % 64) ∷ []
    else if ltb n 65536
    then (224 + n / 4096) ∷ (128 + n / 64 % 64) ∷ (128 + n % 64) ∷ []
    else (240 + n / 262144) ∷ (128 + n / 4096 % 64) ∷ (128 + n / 64 % 64) ∷ (128 + n % 64) ∷ []

-- `str::as_bytes`
unfoldable pub as_bytes : String → Bytes
unfolding utf8
as_bytes String.[] = []
as_bytes (String.◌∷◌ c s) = utf8 c ++ as_bytes s

abbrev pub as_byte : Bool → ℕ
as_byte true = 1
as_byte false = 0

abbrev pub etag_bytes : Option String → Bytes
etag_bytes none = []
etag_bytes (some e) = as_bytes e

unfoldable pub part_bytes : List ObjectPartInfo → Bytes
unfolding le_bytes
part_bytes [] = []
part_bytes (p ∷ ps) =
    le_bytes 4 (bits 32 p.number) ++ (le_bytes 8 (bits 64 p.size) ++ part_bytes ps)

unfoldable pub erasure_bytes : FileInfo → Bytes
unfolding le_bytes
erasure_bytes fi =
    if not fi.deleted && not (is_zero fi.size)
    then fi.erasure.data_blocks
      ∷ fi.erasure.parity_blocks
      ∷ (le_bytes 4 fi.erasure.block_size ++ fi.erasure.distribution)
    else []

-- What `decode_contract_hash` feeds to the hasher, in turn.
unfoldable pub contract_bytes : FileInfo → Bytes
unfolding as_bytes part_bytes erasure_bytes le_bytes
contract_bytes fi =
    as_bytes fi.version_id
    ++ (le_bytes 8 fi.mod_time_ms
        ++ (etag_bytes (get etag_meta_key fi.metadata)
            ++ (as_byte fi.deleted ∷ part_bytes fi.parts ++ erasure_bytes fi)))

unfoldable pub decode_contract_hash : (Bytes → Bytes) → FileInfo → Bytes
unfolding contract_bytes
decode_contract_hash blake3 fi = blake3 (contract_bytes fi)

abbrev pub is_etag : Option String → String → Bool
is_etag none etag = false
is_etag (some e) etag = string_eq.beq e etag

unfoldable pub record_etag_matches : FileInfo → String → Bool
record_etag_matches fi etag = is_etag (get etag_meta_key fi.metadata) etag
