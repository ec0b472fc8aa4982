-- ===== src/XlMeta/RoundTrip/Validity.antt =====
-- A record that passes the checks of encoding is written as one that passes those of decoding.
use openlake.Prelude.{
  inl, inr, ℕ, ◌≡◌, refl, sym, subst, ap, String, Bool, true, false, not, ◌&&◌, Option, none, some,
  List, [], ◌∷◌, length, map, ◌==◌, ltb, if◌then◌else◌, string_eq, arith, Bool-cases,
}
use openlake.Prelude.Int.{is_negative}
use openlake.Erasure.Codec.{Bytes}
use openlake.Erasure.Shards.{concat}
use openlake.Errors.{
  Result, ok, err, IoError, encode_error, invalid_argument, ◌>>=◌, ◌>>◌, guard, map_err,
}
use openlake.Kv.Slots.{bytes_eq}
use openlake.Records.{ErasureInfo, FileInfo, ObjectPartInfo}
use openlake.XlMeta.Layout.{
  encode_erasure, decode_erasure, encode_part, decode_part, encode_checksum, decode_checksum,
}
use openlake.XlMeta.Uuid.{zero_uuid, parse_uuid_bytes}
use openlake.XlMeta.Checks.{
  corrupt, is_empty, is_positive, has_frames, frames_of, equals, validate_erasure, validate_parts,
  validate_shape, validate_for_encode, validate_decoded_parts, validate_decoded_shape,
  validate_decoded_version,
}
use openlake.XlMeta.Encode.{inline_size, version_of}

-- A guard that is passed.
pub guard_then {ℓ κ} :
    {E : Type ℓ} {A : Type κ} (b : Bool) (e : E) (k : Result E A) (a : A)
    → (guard b e >> k) ≡ ok a
    → (b ≡ true) × (k ≡ ok a)
guard_then true e k a h = (refl, h)
guard_then false e k a h = absurd (cc h)

pub bind_ok {ℓ κ ι} :
    {E : Type ℓ} {A : Type κ} {B : Type ι} (m : Result E A) (f : A → Result E B) (b : B)
    → (m >>= f) ≡ ok b
    → (a : A) × (m ≡ ok a) × (f a ≡ ok b)
bind_ok (ok a) f b h = (a, refl, h)
bind_ok (err e) f b h = absurd (cc h)

validate_erasure_any :
    (ei : ErasureInfo) (f g : String → IoError)
    → validate_erasure ei f ≡ ok tt
    → validate_erasure ei g ≡ ok tt
unfolding validate_erasure
validate_erasure_any ei f g h = ground arith

map-checksums : (cs : List _) → map decode_checksum (map encode_checksum cs) ≡ cs
map-checksums [] = refl
map-checksums (c ∷ cs) = ap (◌∷◌ c) (map-checksums cs)

pub decode-encode_erasure : (ei : ErasureInfo) → decode_erasure (encode_erasure ei) ≡ ei
unfolding decode_erasure encode_erasure
decode-encode_erasure ei = ap (λ cs. record ei { checksums = cs }) (map-checksums ei.checksums)

pub map-decode_part : (ps : List ObjectPartInfo) → map decode_part (map encode_part ps) ≡ ps
unfolding decode_part encode_part
map-decode_part [] = refl
map-decode_part (p ∷ ps) = ap (◌∷◌ p) (map-decode_part ps)

validate_decoded_parts_ok :
    (ps : List ObjectPartInfo)
    → validate_parts ps ≡ ok tt
    → validate_decoded_parts (map encode_part ps) ≡ ok tt
unfolding validate_parts validate_decoded_parts encode_part
validate_decoded_parts_ok [] h = refl
validate_decoded_parts_ok (p ∷ ps) h =
    let (a, h1) = guard_then (is_positive p.number) _ _ tt h in
    let (b, h2) = guard_then (not (is_negative p.size)) _ _ tt h1 in
    let (c, h3) = guard_then (not (is_negative p.actual_size)) _ _ tt h2 in
    rw (a, b) (validate_decoded_parts_ok ps h3)

no_frames : (d : Option (List Bytes)) → has_frames d ≡ false → length (concat (frames_of d)) ≡ 0
unfolding concat
no_frames none h = refl
no_frames (some []) h = refl
no_frames (some (f ∷ fs)) h = absurd (cc h)

is_empty-map : (ps : List ObjectPartInfo) → is_empty (map encode_part ps) ≡ is_empty ps
is_empty-map [] = refl
is_empty-map (p ∷ ps) = refl

validate_decoded_shape_ok :
    (fi : FileInfo) (b d : Bytes) (offset : ℕ)
    → validate_shape fi ≡ ok tt
    → validate_decoded_shape (version_of fi b d offset (inline_size fi)) ≡ ok tt
unfolding validate_shape validate_decoded_shape version_of inline_size
validate_decoded_shape_ok fi b d offset h =
    ground (arith, is_empty-map fi.parts, no_frames fi.inline_data)

-- What the written record says of its inline bytes fits its size and its directory.
inline_ok :
    (fi : FileInfo) (d : Bytes)
    → not (has_frames fi.inline_data && not (string_eq.beq fi.data_dir "")) ≡ true
    → not (has_frames fi.inline_data && not (equals fi.size (inline_size fi))) ≡ true
    → parse_uuid_bytes fi.data_dir ≡ ok d
    → (not (ltb 0 (inline_size fi) && not (bytes_eq.beq d zero_uuid)) ≡ true)
      × (not (ltb 0 (inline_size fi) && not (equals fi.size (inline_size fi))) ≡ true)
unfolding inline_size parse_uuid_bytes
inline_ok fi d dir total parsed = elim (Bool-cases (has_frames fi.inline_data)) [
  | inl t ↦
      let empty : string_eq.beq fi.data_dir "" ≡ true = ground (arith, t, dir) in
      let same : equals fi.size (inline_size fi) ≡ true = ground (arith, t, total) in
      let zeros : zero_uuid ≡ d = cc (
        subst (λ s. parse_uuid_bytes s ≡ ok d) ((string_eq.beq_iff fi.data_dir "").0 empty)
          parsed) in
      let none_set : bytes_eq.beq d zero_uuid ≡ true =
        (bytes_eq.beq_iff d zero_uuid).1 (sym zeros) in
      (ground (arith, none_set), ground (arith, same))
  | inr f ↦ (rw (no_frames fi.inline_data f), rw (no_frames fi.inline_data f))
]

pub seq_ok : (m k : Result IoError (Unit {0})) → (m >> k) ≡ ok tt → (m ≡ ok tt) × (k ≡ ok tt)
seq_ok m k h = let (u, a, b) = bind_ok m (λ _. k) tt h in (a, b)

pub guard_ok {ℓ κ} :
    {E : Type ℓ} {A : Type κ} {b : Bool} (e : E) {k : Result E A} {a : A}
    → b ≡ true
    → k ≡ ok a
    → (guard b e >> k) ≡ ok a
guard_ok e {k} {a} h q = rw h q

seq_both : {m k : Result IoError (Unit {0})} → m ≡ ok tt → k ≡ ok tt → (m >> k) ≡ ok tt
seq_both h q = rw h q

checked :
    (fi : FileInfo) (b d : Bytes) (offset : ℕ)
    → not (is_negative fi.size) ≡ true
    → not (fi.mod_time_ms == 0) ≡ true
    → validate_erasure fi.erasure encode_error ≡ ok tt
    → validate_shape fi ≡ ok tt
    → (not (ltb 0 (inline_size fi) && not (bytes_eq.beq d zero_uuid)) ≡ true)
      × (not (ltb 0 (inline_size fi) && not (equals fi.size (inline_size fi))) ≡ true)
    → validate_parts fi.parts ≡ ok tt
    → validate_decoded_version (version_of fi b d offset (inline_size fi)) ≡ ok tt
unfolding validate_decoded_version version_of
checked fi b d offset size time erasure shape (dir, total) parts =
    let decoded : validate_erasure (decode_erasure (encode_erasure fi.erasure)) invalid_argument
        ≡ ok tt =
      subst (λ ei. validate_erasure ei invalid_argument ≡ ok tt)
        (sym (decode-encode_erasure fi.erasure))
        (validate_erasure_any fi.erasure encode_error invalid_argument erasure) in
    guard_ok _ (known_type fi.deleted) (
      guard_ok _ size (
        guard_ok _ time (
          seq_both (ap (map_err (λ e. corrupt "erasure validation")) decoded) (
            seq_both (validate_decoded_shape_ok fi b d offset shape)
              (guard_ok _ dir (guard_ok _ total (validate_decoded_parts_ok fi.parts parts)))))))
  where
    known_type : (t : Bool) → not (ltb 1 (if t then 1 else 0)) ≡ true
    known_type true = refl
    known_type false = refl

-- The record written of a version that passes the checks of encoding passes those of decoding.
pub validate_decoded_version_ok :
    (fi : FileInfo) (b d : Bytes) (offset : ℕ)
    → validate_for_encode fi ≡ ok tt
    → parse_uuid_bytes fi.data_dir ≡ ok d
    → validate_decoded_version (version_of fi b d offset (inline_size fi)) ≡ ok tt
unfolding validate_for_encode inline_size
validate_decoded_version_ok fi b d offset h parsed =
    let (size, h1) = guard_then _ _ _ tt h in
    let (time, h2) = guard_then _ _ _ tt h1 in
    let (erasure, h3) = seq_ok _ _ h2 in
    let (shape, h4) = seq_ok _ _ h3 in
    let (dir, h5) = guard_then _ _ _ tt h4 in
    let (_, h6) = guard_then _ _ _ tt h5 in
    let (total, parts) = guard_then _ _ _ tt h6 in
    checked fi b d offset size time erasure shape (inline_ok fi d dir total parsed) parts
