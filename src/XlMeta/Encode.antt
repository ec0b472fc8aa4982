-- ===== src/XlMeta/Encode.antt =====
-- crates/openlake_io/src/xl_meta.rs: `encode_versions`. The body, of the rmp_serde crate, and the
-- hash, of the xxhash_rust crate, are parameters. Lengths of buffers in memory do not reach 2 ^ 64.
use openlake.Prelude.{
  ℕ, ◌+◌, ◌%◌, ◌^◌, not, Option, List, [], ◌∷◌, ◌++◌, length, map, ◌==◌, if◌then◌else◌,
}
use openlake.Prelude.Int.{le_bytes}
use openlake.Erasure.Codec.{Bytes}
use openlake.Erasure.Shards.{concat}
use openlake.Errors.{Result, ok, IoError, encode_error, ◌>>=◌, ◌>>◌, guard, ok_or}
use openlake.Records.{FileInfo}
use openlake.XlMeta.Layout.{
  VersionRecord, OnDiskMeta, EncodedXlMeta, magic, format_major, format_minor, bin32_tag, crc_tag,
  be_bytes, encode_erasure, encode_part, object_type, delete_marker_type,
}
use openlake.XlMeta.Uuid.{parse_uuid_bytes}
use openlake.XlMeta.Checks.{is_empty, frames_of, validate_for_encode}

-- The frames that are not empty.
unfoldable pub full_frames : List Bytes → List Bytes
full_frames [] = []
full_frames (f ∷ fs) = let rest = full_frames fs in if is_empty f then rest else f ∷ rest

unfoldable pub inline_size : FileInfo → ℕ
unfolding concat
inline_size fi = length (concat (frames_of fi.inline_data))

-- Where each version's bytes stand in the tail, from position `pos` on, and how many they are.
unfoldable pub stage : ℕ → List FileInfo → List (ℕ × ℕ)
unfolding inline_size
stage pos [] = []
stage pos (fi ∷ fis) =
    (if inline_size fi == 0 then 0 else pos, inline_size fi) ∷ stage (pos + inline_size fi) fis

unfoldable pub tail_frames : List FileInfo → List Bytes
unfolding full_frames
tail_frames [] = []
tail_frames (fi ∷ fis) = full_frames (frames_of fi.inline_data) ++ tail_frames fis

unfoldable pub version_of :
    FileInfo → (version_id data_dir : Bytes) → (offset size : ℕ) → VersionRecord
unfolding encode_erasure encode_part
version_of fi version_id data_dir offset size = record {
  version_id = version_id;
  ty = if fi.deleted then delete_marker_type else object_type;
  mod_time = fi.mod_time_ms;
  data_dir = data_dir;
  size = fi.size;
  erasure = encode_erasure fi.erasure;
  parts = map encode_part fi.parts;
  metadata = fi.metadata;
  meta_sys = fi.meta_sys;
  inline_offset = offset;
  inline_length = size;
}

unfoldable pub record_of : FileInfo → ℕ × ℕ → Result IoError VersionRecord
unfolding parse_uuid_bytes version_of
record_of fi (offset, size) = do
  version_id ← parse_uuid_bytes fi.version_id
  data_dir ← parse_uuid_bytes fi.data_dir
  ok (version_of fi version_id data_dir offset size)

-- `zip` and `collect`: the first error ends it.
unfoldable pub records_of : List FileInfo → List (ℕ × ℕ) → Result IoError (List VersionRecord)
unfolding record_of
records_of [] metas = ok []
records_of (fi ∷ fis) [] = ok []
records_of (fi ∷ fis) (p ∷ metas) = do
  v ← record_of fi p
  rest ← records_of fis metas
  ok (v ∷ rest)

unfoldable pub validate_all : List FileInfo → Result IoError (Unit {0})
unfolding validate_for_encode
validate_all [] = ok tt
validate_all (fi ∷ fis) = validate_for_encode fi >> validate_all fis

module _ (xxh64 : Bytes → ℕ) where
  -- The head around a body.
  unfoldable pub head_of : Bytes → Bytes
  unfolding le_bytes be_bytes
  head_of body =
      magic
      ++ (le_bytes 2 format_major
          ++ (le_bytes 2 format_minor
              ++ (bin32_tag
                  ∷ (be_bytes (length body % 2 ^ 32)
                      ++ (body ++ crc_tag ∷ be_bytes (xxh64 body % 2 ^ 32))))))

  unfoldable pub encode_versions :
      (OnDiskMeta → Option Bytes) → List FileInfo → Result IoError EncodedXlMeta
  unfolding stage records_of validate_all head_of tail_frames
  encode_versions to_vec_named versions = do
    guard (not (is_empty versions)) (encode_error "encode_versions: empty versions slice")
    validate_all versions
    records ← records_of versions (stage 0 versions)
    body ← ok_or (to_vec_named (record { versions = records })) (encode_error "xl.meta encode")
    ok (record { head = head_of body; tail = tail_frames versions })

  unfoldable pub encode : (OnDiskMeta → Option Bytes) → FileInfo → Result IoError EncodedXlMeta
  unfolding encode_versions
  encode to_vec_named fi = encode_versions to_vec_named (fi ∷ [])
