-- ===== src/XlMeta/RoundTrip/Framing.antt =====
-- The head and the tail around a body are taken apart where `head_of` puts them together.
use mathlib.Core.List.{append_assoc}
use openlake.Prelude.{
  ℕ, ◌+◌, ◌≤◌, ◌<◌, ◌^◌, ◌%◌, ◌≡◌, refl, sym, ap, ◌∙◌, true, false, Option, some, List, [], ◌∷◌,
  ◌++◌, length, take, drop, length-append, take-append, drop-append, drop-add, arith, ◌==◌, ltb,
  map,
}
use openlake.Prelude.Int.{le_bytes}
use openlake.Erasure.Codec.{Bytes}
use openlake.Erasure.Shards.{concat}
use openlake.Errors.{ok, ◌>>=◌}
use openlake.Kv.Slots.{bytes_eq}
use openlake.Records.{FileInfo}
use openlake.Records.Envelope.{from_le}
use openlake.XlMeta.Layout.{
  VersionRecord, OnDiskMeta, be_bytes, from_be_onto, from_be-be_bytes, to_vec, magic, bin32_tag,
  crc_tag,
}
use openlake.XlMeta.Checks.{is_empty}
use openlake.XlMeta.Encode.{tail_frames, records_of, stage, validate_all, head_of, encode_versions}
use openlake.XlMeta.Decode.{sort_newest, decode_body, unframe, decode_all}
use openlake.XlMeta.RoundTrip.Tail.{Written, records_of-Written}
use openlake.XlMeta.RoundTrip.Pairs.{AllPairs-length}
use openlake.XlMeta.RoundTrip.Whole.{read_back, decode_body-Written}

module _ (from_slice : Bytes → Option OnDiskMeta) (xxh64 : Bytes → ℕ) where
  same : (a b : ℕ) → a ≡ b → (a == b) ≡ true
  same a b h = ground arith

  -- The bytes pass every check of `decode_all`.
  decode_all_ok :
      (b body tail : Bytes) (m : OnDiskMeta)
      → 18 + length body ≤ length b
      → bytes_eq.beq (take 4 b) magic ≡ true
      → from_le (take 2 (drop 4 b)) ≡ 1
      → from_le (take 2 (drop 6 b)) ≡ 3
      → bytes_eq.beq (take 1 (drop 8 b)) (bin32_tag ∷ []) ≡ true
      → from_be_onto 0 (take 4 (drop 9 b)) ≡ length body
      → take (length body) (drop 13 b) ≡ body
      → take 5 (drop (13 + length body) b) ≡ crc_tag ∷ be_bytes (xxh64 body % 2 ^ 32)
      → drop (13 + length body + 5) b ≡ tail
      → from_slice body ≡ some m
      → decode_all from_slice xxh64 b ≡ decode_body tail m
  unfolding decode_all unframe be_bytes
  decode_all_ok b body tail m long magic_ok major minor tag size body_ok crc rest read = rw (
    enough,
    magic_ok,
    same _ 1 major,
    same _ 3 minor,
    tag,
    size,
    whole,
    crc,
    body_ok,
    same _ _ (sym (from_be-be_bytes (xxh64 body % 2 ^ 32) (omega arith))),
    read,
    rest,
  )
    where
      enough : ltb (length b) 18 ≡ false
      enough = ground (arith, long)

      whole : ltb (length b) (13 + length body + 5) ≡ false
      whole = ground (arith, long)

  -- What `head_of` and a tail make, in one line.
  laid_out : (body tail : Bytes) → Bytes
  unfolding le_bytes be_bytes
  laid_out body tail =
      magic
      ++ (le_bytes 2 1
          ++ (le_bytes 2 3
              ++ (bin32_tag
                  ∷ (be_bytes (length body % 2 ^ 32)
                      ++ (body ++ ((crc_tag ∷ be_bytes (xxh64 body % 2 ^ 32)) ++ tail))))))

  head_then : (body tail : Bytes) → head_of xxh64 body ++ tail ≡ laid_out body tail
  unfolding head_of laid_out le_bytes be_bytes
  head_then body tail =
      ap
        (λ r.
          magic
          ++ (le_bytes 2 1
              ++ (le_bytes 2 3 ++ (bin32_tag ∷ (be_bytes (length body % 2 ^ 32) ++ r)))))
        (append_assoc body (crc_tag ∷ be_bytes (xxh64 body % 2 ^ 32)) tail)

  read_laid_out :
      (body tail : Bytes) (m : OnDiskMeta)
      → length body < 2 ^ 32
      → from_slice body ≡ some m
      → decode_all from_slice xxh64 (laid_out body tail) ≡ decode_body tail m
  unfolding laid_out le_bytes be_bytes from_le
  read_laid_out body tail m small read =
      decode_all_ok (laid_out body tail) body tail m
        (omega (arith, length-append body (crc ++ tail))) refl refl refl refl
        (from_be-be_bytes (length body % 2 ^ 32) (omega arith) ∙ omega (arith, small))
        (take-append body (crc ++ tail))
        (ap (take 5)
          (drop-add 13 (length body) (laid_out body tail) ∙ drop-append body (crc ++ tail)))
        (drop-add (13 + length body) 5 (laid_out body tail)
          ∙ ap (drop 5)
              (drop-add 13 (length body) (laid_out body tail) ∙ drop-append body (crc ++ tail)))
        read
    where
      crc : Bytes
      crc = crc_tag ∷ be_bytes (xxh64 body % 2 ^ 32)

-- A file that is written of versions which pass the checks of encoding and whose ids parse is read
-- back whole: the versions newest first, those of one time in their order, each with its id and its
-- data directory in normal form, its parts and shards as they were, its inline frames joined, and
-- the number of versions. The body's codec gives back what it was given; the body fits in 32 bits and
-- the inline bytes in 64.
pub decode_all-encode_versions :
    (to_vec_named : OnDiskMeta → Option Bytes) (from_slice : Bytes → Option OnDiskMeta)
    (xxh64 : Bytes → ℕ) (fis : List FileInfo) (records : List VersionRecord) (body : Bytes)
    → is_empty fis ≡ false
    → validate_all fis ≡ ok tt
    → records_of fis (stage 0 fis) ≡ ok records
    → to_vec_named (record { versions = records }) ≡ some body
    → from_slice body ≡ some (record { versions = records })
    → length body < 2 ^ 32
    → length (concat (tail_frames fis)) < 2 ^ 64
    → (encode_versions xxh64 to_vec_named fis >>= λ e. decode_all from_slice xxh64 (to_vec e))
      ≡ ok (map (read_back (length fis)) (sort_newest (λ fi. fi.mod_time_ms) fis))
unfolding encode_versions to_vec
decode_all-encode_versions to_vec_named from_slice xxh64 fis records body some_left valid made t f
      small fits =
    let written = records_of-Written [] (concat (tail_frames fis)) fis records valid made refl in
    let full : is_empty records ≡ false =
      nonempty fis records some_left
        (AllPairs-length (Written (concat (tail_frames fis))) fis records written) in
    rw (
      some_left,
      valid,
      made,
      t,
      head_then from_slice xxh64 body (concat (tail_frames fis)),
      read_laid_out from_slice xxh64 body (concat (tail_frames fis)) _ small f,
      decode_body-Written (concat (tail_frames fis)) fits fis records written full,
    )
  where
    nonempty :
        (xs : List FileInfo) (ys : List VersionRecord)
        → is_empty xs ≡ false
        → length xs ≡ length ys
        → is_empty ys ≡ false
    nonempty [] ys h l = absurd (cc h)
    nonempty (x ∷ xs) [] h l = absurd (omega (arith, l))
    nonempty (x ∷ xs) (y ∷ ys) h l = refl
