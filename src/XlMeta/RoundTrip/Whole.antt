-- ===== src/XlMeta/RoundTrip/Whole.antt =====
-- What `encode_versions` writes is read back by `decode_all`.
use openlake.Prelude.{
  ℕ, ◌+◌, ◌≤◌, ◌<◌, ◌^◌, ◌≡◌, refl, sym, subst, ap, ◌∙◌, String, Bool, true, false, none, some,
  List, [], ◌∷◌, length, map, take, drop, arith, ◌==◌, ltb, Bool-cases, if◌then◌else◌, inl, inr,
}
use openlake.Prelude.Int.{pos}
use openlake.Erasure.Codec.{Bytes}
use openlake.Erasure.Shards.{concat}
use openlake.Errors.{Result, ok, err, IoError}
use openlake.Kv.Slots.{bytes_eq}
use openlake.Records.{FileInfo}
use openlake.XlMeta.Layout.{VersionRecord, DecodedRecord, object_type, delete_marker_type}
use openlake.XlMeta.Uuid.{parse_uuid_bytes, format_version_id_bytes, format_data_dir_bytes}
use openlake.XlMeta.Checks.{is_empty, frames_of, validate_decoded_version}
use openlake.XlMeta.Encode.{inline_size, version_of}
use openlake.XlMeta.Decode.{
  sort_newest, validate_versions, inline_of, decoded_of, decode_records, decode_body,
}
use openlake.XlMeta.RoundTrip.Validity.{
  decode-encode_erasure, map-decode_part, validate_decoded_version_ok,
}
use openlake.XlMeta.RoundTrip.Pairs.{
  AllPairs, AllPairs-length, sort_newest-AllPairs, length-sort_newest,
}
use openlake.XlMeta.RoundTrip.Tail.{Written, bytes_of}

-- The text of an id once it is parsed.
abbrev through : (Bytes → String) → Result IoError Bytes → String
through format (ok b) = format b
through format (err e) = ""

-- What is read back of a version, out of a file of `total` versions.
unfoldable pub read_back : ℕ → FileInfo → DecodedRecord
unfolding parse_uuid_bytes format_version_id_bytes format_data_dir_bytes inline_size concat
read_back total fi = record {
  version_id = through format_version_id_bytes (parse_uuid_bytes fi.version_id);
  data_dir = through format_data_dir_bytes (parse_uuid_bytes fi.data_dir);
  deleted = fi.deleted;
  size = fi.size;
  mod_time_ms = fi.mod_time_ms;
  metadata = fi.metadata;
  meta_sys = fi.meta_sys;
  erasure = fi.erasure;
  parts = fi.parts;
  inline_data =
      if ltb 0 (inline_size fi) then some (concat (frames_of fi.inline_data) ∷ []) else none;
  num_versions = pos total;
}

module _ (tail : Bytes) (small : length tail < 2 ^ 64) where
  inline_of-Written :
      (fi : FileInfo) (id dir : Bytes) (offset : ℕ)
      → offset + inline_size fi ≤ length tail
      → take (inline_size fi) (drop offset tail) ≡ bytes_of fi
      → inline_of tail (version_of fi id dir offset (inline_size fi))
        ≡ ok (if ltb 0 (inline_size fi) then some (bytes_of fi ∷ []) else none)
  unfolding inline_of version_of
  inline_of-Written fi id dir offset fits found =
      let no_overflow : ltb (offset + inline_size fi) (2 ^ 64) ≡ true =
        ground (arith, small, fits) in
      let in_tail : ltb (length tail) (offset + inline_size fi) ≡ false = ground (arith, fits) in
      elim (Bool-cases (ltb 0 (inline_size fi))) [
        | inl t ↦ rw (t, no_overflow, in_tail, found)
        | inr f ↦ rw f
      ]

  type_of : (b : Bool) → ((if b then delete_marker_type else object_type) == delete_marker_type) ≡ b
  type_of true = refl
  type_of false = refl

  decoded_of-Written :
      (total : ℕ) (fi : FileInfo) (v : VersionRecord)
      → Written tail fi v
      → decoded_of total tail v ≡ ok (read_back total fi)
  unfolding decoded_of read_back version_of
  decoded_of-Written total fi v w = rw (
    w.is_version,
    inline_of-Written fi w.id w.dir w.offset w.fits w.found,
    decode-encode_erasure fi.erasure,
    map-decode_part fi.parts,
    w.parsed_id,
    w.parsed_dir,
    type_of fi.deleted,
  )

  decode_records-Written :
      (total : ℕ) (fis : List FileInfo) (vs : List VersionRecord)
      → AllPairs (Written tail) fis vs
      → decode_records total tail vs ≡ ok (map (read_back total) fis)
  unfolding decode_records
  decode_records-Written total [] [] h = refl
  decode_records-Written total [] (v ∷ vs) h = absurd h
  decode_records-Written total (fi ∷ fis) [] h = absurd h
  decode_records-Written total (fi ∷ fis) (v ∷ vs) h =
      rw (decoded_of-Written total fi v h.0, decode_records-Written total fis vs h.1)

  validate_versions-Written :
      (fis : List FileInfo) (vs : List VersionRecord)
      → AllPairs (Written tail) fis vs
      → validate_versions vs ≡ ok tt
  unfolding validate_versions
  validate_versions-Written [] [] h = refl
  validate_versions-Written [] (v ∷ vs) h = absurd h
  validate_versions-Written (fi ∷ fis) [] h = absurd h
  validate_versions-Written (fi ∷ fis) (v ∷ vs) (w, h) =
      let fine : validate_decoded_version v ≡ ok tt =
        subst (λ r. validate_decoded_version r ≡ ok tt) (sym w.is_version)
          (validate_decoded_version_ok fi w.id w.dir w.offset w.valid w.parsed_dir) in
      rw (fine, validate_versions-Written fis vs h)

  same_time : (fi : FileInfo) (v : VersionRecord) → Written tail fi v → fi.mod_time_ms ≡ v.mod_time
  unfolding version_of
  same_time fi v w = sym (ap (λ (r : VersionRecord). r.mod_time) w.is_version)

  pub decode_body-Written :
      (fis : List FileInfo) (vs : List VersionRecord)
      → AllPairs (Written tail) fis vs
      → is_empty vs ≡ false
      → decode_body tail (record { versions = vs })
        ≡ ok (map (read_back (length fis)) (sort_newest (λ fi. fi.mod_time_ms) fis))
  unfolding decode_body
  decode_body-Written fis vs h some_left =
      let sorted : AllPairs (Written tail) (sort_newest (λ fi. fi.mod_time_ms) fis)
          (sort_newest (λ v. v.mod_time) vs) =
        sort_newest-AllPairs (Written tail) _ _ same_time fis vs h in
      let total : length (sort_newest (λ (v : VersionRecord). v.mod_time) vs) ≡ length fis =
        length-sort_newest _ vs ∙ sym (AllPairs-length (Written tail) fis vs h) in
      rw (
        some_left,
        validate_versions-Written _ _ sorted,
        total,
        decode_records-Written (length fis) _ _ sorted,
      )
