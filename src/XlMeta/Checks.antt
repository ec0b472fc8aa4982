-- ===== src/XlMeta/Checks.antt =====
-- crates/openlake_io/src/xl_meta.rs: what is checked of a record before it is written and after it is
-- read. The position of a part, which the messages name, is left out.
use openlake.Prelude.{
  ℕ, ◌+◌, String, Bool, true, false, not, ◌&&◌, ◌||◌, Option, none, some, List, [], ◌∷◌, length,
  ◌==◌, ltb, if◌then◌else◌, string_eq,
}
use openlake.Prelude.Int.{ℤ, pos, negsuc, is_negative, is_zero, is_nonpositive}
use openlake.Erasure.Codec.{Bytes}
use openlake.Erasure.Shards.{concat}
use openlake.Errors.{
  Result, ok, IoError, encode_error, invalid_argument, corrupt_metadata, ◌>>◌, guard, map_err,
}
use openlake.Kv.Slots.{bytes_eq}
use openlake.Records.{ErasureInfo, FileInfo, ObjectPartInfo}
use openlake.XlMeta.Layout.{VersionRecord, PartBlock, decode_erasure, delete_marker_type}
use openlake.XlMeta.Uuid.{zero_uuid}

-- `corrupt`, whose volume and path are empty.
abbrev pub corrupt : String → IoError
corrupt msg = corrupt_metadata "" "" msg

abbrev pub is_empty {ℓ} : {A : Type ℓ} → List A → Bool
is_empty [] = true
is_empty (x ∷ xs) = false

abbrev pub is_positive : ℤ → Bool
is_positive z = not (is_nonpositive z)

-- `!frames.is_empty()` of the inline frames, if there are any.
abbrev pub has_frames : Option (List Bytes) → Bool
has_frames none = false
has_frames (some frames) = not (is_empty frames)

abbrev pub frames_of : Option (List Bytes) → List Bytes
frames_of none = []
frames_of (some frames) = frames

-- `fail` makes the error of a message: that of encoding or that of decoding.
unfoldable pub validate_erasure : ErasureInfo → (String → IoError) → Result IoError (Unit {0})
validate_erasure ei fail = do
  let n = ei.data_blocks + ei.parity_blocks
  guard (not (string_eq.beq ei.algorithm "")) (fail "algorithm must be non-empty")
  guard (not (ei.data_blocks == 0)) (fail "data_blocks must be >= 1")
  guard (not (ltb ei.data_blocks ei.parity_blocks)) (fail "parity_blocks must be <= data_blocks")
  guard (not (n == 0)) (fail "data_blocks + parity_blocks must be > 0")
  guard (length ei.distribution == n) (fail "distribution length")
  guard (not (ei.index == 0 || ltb n ei.index)) (fail "index")
  guard (not (ei.block_size == 0)) (fail "block_size must be > 0")

unfoldable pub validate_parts : List ObjectPartInfo → Result IoError (Unit {0})
validate_parts [] = ok tt
validate_parts (p ∷ ps) = do
  guard (is_positive p.number) (encode_error "number must be > 0")
  guard (not (is_negative p.size)) (encode_error "size must be >= 0")
  guard (not (is_negative p.actual_size)) (encode_error "actual_size must be >= 0")
  validate_parts ps

-- What a delete marker, and what an object, must look like.
unfoldable pub validate_shape : FileInfo → Result IoError (Unit {0})
validate_shape fi =
    if fi.deleted
    then (do
      guard (is_empty fi.parts) (encode_error "delete marker must have no parts")
      guard (is_zero fi.size) (encode_error "delete marker must have size 0")
      guard (not (has_frames fi.inline_data))
          (encode_error "delete marker must have no inline data"))
    else guard (not (is_positive fi.size && is_empty fi.parts))
        (encode_error "non-deleted object with size > 0 must have at least one part")

abbrev pub equals : ℤ → ℕ → Bool
equals (pos n) m = n == m
equals (negsuc n) m = false

unfoldable pub validate_for_encode : FileInfo → Result IoError (Unit {0})
unfolding validate_erasure validate_shape validate_parts concat
validate_for_encode fi = do
  guard (not (is_negative fi.size)) (encode_error "size must be >= 0")
  guard (not (fi.mod_time_ms == 0)) (encode_error "mod_time_ms must be set")
  validate_erasure fi.erasure encode_error
  validate_shape fi
  let has_inline = has_frames fi.inline_data
  let no_dir = string_eq.beq fi.data_dir ""
  guard (not (has_inline && not no_dir))
      (encode_error "version cannot set both inline data and data_dir")
  guard (not (not fi.deleted && (is_positive fi.size && (not has_inline && no_dir))))
      (encode_error "non-deleted EC object with size > 0 must have a non-empty data_dir")
  guard (not (has_inline && not (equals fi.size (length (concat (frames_of fi.inline_data))))))
      (encode_error "inline frame total must equal size")
  validate_parts fi.parts

unfoldable pub validate_decoded_parts : List PartBlock → Result IoError (Unit {0})
validate_decoded_parts [] = ok tt
validate_decoded_parts (p ∷ ps) = do
  guard (is_positive p.number) (corrupt "number must be > 0")
  guard (not (is_negative p.size)) (corrupt "size must be >= 0")
  validate_decoded_parts ps

unfoldable pub validate_decoded_shape : VersionRecord → Result IoError (Unit {0})
validate_decoded_shape v =
    if v.ty == delete_marker_type
    then (do
      guard (is_empty v.parts) (corrupt "delete marker must have no parts")
      guard (is_zero v.size) (corrupt "delete marker must have size 0")
      guard (v.inline_length == 0) (corrupt "delete marker must have inline_length == 0"))
    else guard (not (is_positive v.size && is_empty v.parts))
        (corrupt "non-deleted object with size > 0 must have at least one part")

unfoldable pub validate_decoded_version : VersionRecord → Result IoError (Unit {0})
unfolding validate_erasure validate_decoded_shape validate_decoded_parts decode_erasure
validate_decoded_version v = do
  guard (not (ltb delete_marker_type v.ty)) (corrupt "invalid version type")
  guard (not (is_negative v.size)) (corrupt "size must be >= 0")
  guard (not (v.mod_time == 0)) (corrupt "mod_time must be set")
  map_err (λ e. corrupt "erasure validation")
      (validate_erasure (decode_erasure v.erasure) invalid_argument)
  validate_decoded_shape v
  guard (not (ltb 0 v.inline_length && not (bytes_eq.beq v.data_dir zero_uuid)))
      (corrupt "version sets both inline_length>0 and a non-zero data_dir")
  guard (not (ltb 0 v.inline_length && not (equals v.size v.inline_length)))
      (corrupt "inline_length must equal size for inline versions")
  validate_decoded_parts v.parts
