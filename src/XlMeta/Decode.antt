-- ===== src/XlMeta/Decode.antt =====
-- crates/openlake_io/src/xl_meta.rs: `decode_all`, `decode`, `find_version` and
-- `file_info_from_record`.
use openlake.Prelude.{
  ℕ, zero, suc, ◌+◌, ◌%◌, ◌^◌, String, true, not, Option, none, some, List, [], ◌∷◌, length, map,
  take, drop, ◌==◌, ltb, if◌then◌else◌, string_eq,
}
use openlake.Prelude.Int.{ℤ, pos, negsuc}
use openlake.Erasure.Codec.{Bytes}
use openlake.Errors.{
  Result, ok, err, IoError, unsupported_metadata_version, ◌>>=◌, ◌>>◌, guard, ok_or,
}
use openlake.Kv.Slots.{bytes_eq}
use openlake.Records.{FileInfo, default_file_info}
use openlake.Records.Envelope.{from_le}
use openlake.XlMeta.Layout.{
  VersionRecord, OnDiskMeta, DecodedRecord, magic, format_major, format_minor, bin32_tag, crc_tag,
  from_be_onto, decode_erasure, decode_part, delete_marker_type,
}
use openlake.XlMeta.Uuid.{format_version_id_bytes, format_data_dir_bytes}
use openlake.XlMeta.Checks.{corrupt, is_empty, validate_decoded_version}

-- `sort_by(|a, b| b.mod_time.cmp(&a.mod_time))`, a stable sort: newest first.
module _ {A : Type 0} (time : A → ℕ) where
  unfoldable pub insert_newest : A → List A → List A
  insert_newest x [] = x ∷ []
  insert_newest x (y ∷ ys) =
      let rest = insert_newest x ys in if ltb (time x) (time y) then y ∷ rest else x ∷ y ∷ ys

  unfoldable pub sort_newest : List A → List A
  unfolding insert_newest
  sort_newest [] = []
  sort_newest (x ∷ xs) = insert_newest x (sort_newest xs)

unfoldable pub validate_versions : List VersionRecord → Result IoError (Unit {0})
unfolding validate_decoded_version
validate_versions [] = ok tt
validate_versions (v ∷ vs) = validate_decoded_version v >> validate_versions vs

-- The inline bytes of a version, out of the tail of the file.
unfoldable pub inline_of : Bytes → VersionRecord → Result IoError (Option (List Bytes))
inline_of tail v =
    if ltb 0 v.inline_length
    then (do
      guard (ltb (v.inline_offset + v.inline_length) (2 ^ 64)) (corrupt "inline range overflow")
      guard (not (ltb (length tail) (v.inline_offset + v.inline_length)))
          (corrupt "inline range exceeds tail length")
      ok (some (take v.inline_length (drop v.inline_offset tail) ∷ [])))
    else ok none

-- A file has fewer than 2 ^ 31 versions, so that their number fits an `i32`.
unfoldable pub decoded_of : ℕ → Bytes → VersionRecord → Result IoError DecodedRecord
unfolding inline_of format_version_id_bytes format_data_dir_bytes decode_erasure decode_part
decoded_of total tail v = do
  frames ← inline_of tail v
  ok (record {
    version_id = format_version_id_bytes v.version_id;
    data_dir = format_data_dir_bytes v.data_dir;
    deleted = v.ty == delete_marker_type;
    size = v.size;
    mod_time_ms = v.mod_time;
    metadata = v.metadata;
    meta_sys = v.meta_sys;
    erasure = decode_erasure v.erasure;
    parts = map decode_part v.parts;
    inline_data = frames;
    num_versions = pos total;
  })

unfoldable pub decode_records : ℕ → Bytes → List VersionRecord → Result IoError (List DecodedRecord)
unfolding decoded_of
decode_records total tail [] = ok []
decode_records total tail (v ∷ vs) = do
  r ← decoded_of total tail v
  rest ← decode_records total tail vs
  ok (r ∷ rest)

-- What follows once the body is read.
unfoldable pub decode_body : Bytes → OnDiskMeta → Result IoError (List DecodedRecord)
unfolding sort_newest validate_versions decode_records
decode_body tail on_disk = do
  guard (not (is_empty on_disk.versions)) (corrupt "empty versions list")
  let versions = sort_newest (λ v. v.mod_time) on_disk.versions
  validate_versions versions
  decode_records (length versions) tail versions

-- `into_iter().find(|r| r.version_id == version_id)`
unfoldable pub find_record : String → List DecodedRecord → Option DecodedRecord
find_record version_id [] = none
find_record version_id (r ∷ rs) =
    if string_eq.beq r.version_id version_id then some r else find_record version_id rs

module _ (xxh64 : Bytes → ℕ) where
  -- The body of a file whose head is sound, and the tail after it.
  unfoldable pub unframe : Bytes → Result IoError (Bytes × Bytes)
  unfolding from_le from_be_onto
  unframe bytes = do
    guard (not (ltb (length bytes) 18)) (corrupt "too short")
    guard (bytes_eq.beq (take 4 bytes) magic) (corrupt "bad magic")
    let major = from_le (take 2 (drop 4 bytes))
    let minor = from_le (take 2 (drop 6 bytes))
    guard (major == format_major) (unsupported_metadata_version major format_major)
    guard (minor == format_minor) (corrupt "format minor mismatch")
    guard (bytes_eq.beq (take 1 (drop 8 bytes)) (bin32_tag ∷ [])) (corrupt "missing bin32 header")
    let body_len = from_be_onto 0 (take 4 (drop 9 bytes))
    guard (not (ltb (length bytes) (13 + body_len + 5))) (corrupt "truncated body or crc")
    let body = take body_len (drop 13 bytes)
    let crc_slot = take 5 (drop (13 + body_len) bytes)
    guard (bytes_eq.beq (take 1 crc_slot) (crc_tag ∷ [])) (corrupt "missing crc marker")
    guard (xxh64 body % 2 ^ 32 == from_be_onto 0 (drop 1 crc_slot)) (corrupt "crc mismatch")
    ok (body, drop (13 + body_len + 5) bytes)

module _ (from_slice : Bytes → Option OnDiskMeta) (xxh64 : Bytes → ℕ) where
  unfoldable pub decode_all : Bytes → Result IoError (List DecodedRecord)
  unfolding unframe decode_body
  decode_all bytes = do
    (body, tail) ← unframe xxh64 bytes
    on_disk ← ok_or (from_slice body) (corrupt "decode body")
    decode_body tail on_disk

  abbrev latest : List DecodedRecord → Result IoError DecodedRecord
  latest [] = err (corrupt "empty versions list")
  latest (r ∷ rs) = ok r

  unfoldable pub decode : Bytes → Result IoError DecodedRecord
  unfolding decode_all
  decode bytes = decode_all bytes >>= latest

  unfoldable pub find_version : Bytes → String → Result IoError (Option DecodedRecord)
  unfolding decode_all find_record
  find_version bytes version_id = decode_all bytes >>= λ rs. ok (find_record version_id rs)

abbrev at_least_one : ℤ → ℤ
at_least_one (pos zero) = pos 1
at_least_one (pos (suc n)) = pos (suc n)
at_least_one (negsuc n) = pos 1

unfoldable pub file_info_from_record : DecodedRecord → (volume path : String) → FileInfo
file_info_from_record rec volume path = record default_file_info {
  volume = volume;
  name = path;
  version_id = rec.version_id;
  data_dir = rec.data_dir;
  deleted = rec.deleted;
  size = rec.size;
  mod_time_ms = rec.mod_time_ms;
  metadata = rec.metadata;
  meta_sys = rec.meta_sys;
  erasure = rec.erasure;
  parts = rec.parts;
  inline_data = rec.inline_data;
  is_latest = true;
  num_versions = at_least_one rec.num_versions;
}
