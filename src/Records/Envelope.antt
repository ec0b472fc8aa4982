-- ===== src/Records/Envelope.antt =====
-- crates/openlake_io/src/types.rs: the envelope of a bucket's metadata. The body, of the rmp_serde
-- crate, and the checksum, of the crc32c crate, are parameters.
use openlake.Prelude.{
  ℕ, ◌+◌, ◌*◌, ◌%◌, ◌^◌, ◌<◌, ◌≡◌, refl, sym, subst, ap, ◌∙◌, String, Bool, true, false, not,
  Option, some, [], ◌∷◌, ◌++◌, length, take, drop, length-append, take-append, drop-append, arith,
  ◌==◌, ltb, if◌then◌else◌,
}
use openlake.Prelude.Int.{le_bytes}
use openlake.Errors.{Result, ok, IoError, encode_error, decode_error, ◌>>=◌, ◌>>◌, guard, ok_or}
use openlake.Erasure.Codec.{Bytes}
use openlake.Records.{BucketMeta, unversioned, enabled, suspended, null_version_id}
use openlake.Kv.Slots.{bytes_eq}

unfoldable pub new : ℕ → Bool → BucketMeta
new created_ms object_lock_enabled = record {
  created_ms = created_ms;
  versioning_status = if object_lock_enabled then enabled else unversioned;
  versioning_updated_ms = created_ms;
  object_lock_enabled = object_lock_enabled;
}

-- `fresh` is what `Uuid::new_v4` gives.
unfoldable pub next_version_id : String → BucketMeta → String
next_version_id fresh m = elim m.versioning_status [
  | unversioned ↦ null_version_id
  | enabled ↦ fresh
  | suspended ↦ null_version_id
]

abbrev pub bucket_meta_magic : Bytes
bucket_meta_magic = 80 ∷ 66 ∷ 75 ∷ 77 ∷ []

-- `from_le_bytes`
unfoldable pub from_le : Bytes → ℕ
from_le [] = 0
from_le (b ∷ bs) = b + 256 * from_le bs

module _ (to_vec : BucketMeta → Option Bytes) (from_slice : Bytes → Option BucketMeta)
    (crc32c : Bytes → ℕ) where
  -- The header and the body.
  unfoldable pub framed : Bytes → Bytes
  unfolding le_bytes
  framed body =
      bucket_meta_magic
      ++ (le_bytes 2 1 ++ (le_bytes 2 1 ++ (le_bytes 4 (length body % 2 ^ 32) ++ body)))

  unfoldable pub encode : BucketMeta → Result IoError Bytes
  unfolding framed
  encode m = do
    body ← ok_or (to_vec m) (encode_error "rmp")
    ok (framed body ++ le_bytes 4 (crc32c (framed body)))

  unfoldable pub decode : Bytes → Result IoError BucketMeta
  unfolding from_le
  decode bytes = do
    guard (not (ltb (length bytes) 16)) (decode_error "bucket meta too short")
    guard (bytes_eq.beq (take 4 bytes) bucket_meta_magic) (decode_error "bucket meta bad magic")
    guard (from_le (take 2 (drop 4 bytes)) == 1) (decode_error "bucket meta unknown format_version")
    guard (from_le (take 2 (drop 6 bytes)) == 1) (decode_error "bucket meta unknown schema_version")
    let body_len = from_le (take 4 (drop 8 bytes))
    guard (length bytes == 12 + body_len + 4) (decode_error "bucket meta size mismatch")
    guard (from_le (take 4 (drop (12 + body_len) bytes)) == crc32c (take (12 + body_len) bytes))
        (decode_error "bucket meta crc mismatch")
    ok_or (from_slice (take body_len (drop 12 bytes))) (decode_error "rmp")

  from_le-le_bytes : (x : ℕ) → x < 2 ^ 32 → from_le (le_bytes 4 x) ≡ x
  unfolding from_le le_bytes
  from_le-le_bytes x h = omega arith

  length-framed : (body : Bytes) → length (framed body) ≡ 12 + length body
  unfolding framed le_bytes
  length-framed body = omega arith

  length-le_bytes : (x : ℕ) → length (le_bytes 4 x) ≡ 4
  unfolding le_bytes
  length-le_bytes x = refl

  same : (a b : ℕ) → a ≡ b → (a == b) ≡ true
  same a b h = ground arith

  -- The bytes pass every check of `decode`.
  decode_ok :
      (b body : Bytes) (m : BucketMeta)
      → length b ≡ 12 + length body + 4
      → bytes_eq.beq (take 4 b) bucket_meta_magic ≡ true
      → from_le (take 2 (drop 4 b)) ≡ 1
      → from_le (take 2 (drop 6 b)) ≡ 1
      → from_le (take 4 (drop 8 b)) ≡ length body
      → from_le (take 4 (drop (12 + length body) b)) ≡ crc32c (take (12 + length body) b)
      → from_slice (take (length body) (drop 12 b)) ≡ some m
      → decode b ≡ ok m
  unfolding decode
  decode_ok b body m len magic format schema size crc e =
      rw
        (decode, long, magic, same _ 1 format, same _ 1 schema, size, same _ _ len, same _ _ crc, e)
    where
      long : ltb (length b) 16 ≡ false
      long = ground (arith, len)

  decode-framed :
      (body : Bytes) (m : BucketMeta)
      → length body < 2 ^ 32
      → from_slice body ≡ some m
      → crc32c (framed body) < 2 ^ 32
      → decode (framed body ++ le_bytes 4 (crc32c (framed body))) ≡ ok m
  unfolding framed le_bytes from_le
  decode-framed body m small e c =
      decode_ok whole body m
        (omega (
          arith,
          length-append (framed body) tail,
          length-framed body,
          length-le_bytes (crc32c (framed body)),
        ))
        refl refl refl
        (from_le-le_bytes (length body % 2 ^ 32) (omega arith) ∙ omega (arith, small))
        (ap (λ k. from_le (take 4 k)) dropped
          ∙ from_le-le_bytes (crc32c (framed body)) c
          ∙ ap crc32c (sym taken))
        (ap from_slice (take-append body tail) ∙ e)
    where
      tail : Bytes
      tail = le_bytes 4 (crc32c (framed body))

      whole : Bytes
      whole = framed body ++ tail

      taken : take (12 + length body) whole ≡ framed body
      taken =
          subst (λ k. take k whole ≡ framed body) (length-framed body)
            (take-append (framed body) tail)

      dropped : drop (12 + length body) whole ≡ tail
      dropped =
          subst (λ k. drop k whole ≡ tail) (length-framed body) (drop-append (framed body) tail)

-- What `encode` returns is decoded to the metadata it was made of, where the body's codec gives back
-- what it was given, and the body and the checksum fit in 32 bits.
pub decode-encode :
    (to_vec : BucketMeta → Option Bytes) (from_slice : Bytes → Option BucketMeta)
    (crc32c : Bytes → ℕ) (m : BucketMeta) (body : Bytes)
    → to_vec m ≡ some body
    → from_slice body ≡ some m
    → length body < 2 ^ 32
    → ((b : Bytes) → crc32c b < 2 ^ 32)
    → (encode to_vec from_slice crc32c m >>= decode to_vec from_slice crc32c) ≡ ok m
unfolding encode
decode-encode to_vec from_slice crc32c m body t f small c =
    rw (encode, t, decode-framed to_vec from_slice crc32c body m small f (c _))
