-- ===== src/S3/Upload.antt =====
-- crates/openlake_server/src/s3/handlers/objects.rs: what an upload reads its body from, and the checks of
-- the requests on an object before the engine is called.
use openlake.Prelude.{
  ℕ, String, Bool, true, not, ◌&&◌, ◌||◌, Option, none, some, List, [], ◌∷◌, length, ◌==◌,
  if◌then◌else◌,
}
use openlake.Prelude.Int.{ℤ}
use openlake.Erasure.Codec.{Bytes}
use openlake.Errors.{Result, ok, err, ◌>>=◌, ok_or, map_err}
use openlake.Kv.Slots.{bytes_eq}
use openlake.Auth.Failures.{
  AuthError, missing_auth, malformed_auth, missing_date, bad_date, invalid_access_key_id,
  missing_content_sha, missing_decoded_content_length, unsupported_content_sha,
}
use openlake.Auth.Text.{codes, trim, filter, is_empty}
use openlake.Auth.Header.{AuthState, secret_for, parse_authorization}
use openlake.Auth.Query.{parse_amz_date, parse_u64}
use openlake.Auth.Check.{
  Request, header_text, sha_unsigned, sha_streaming, sha_streaming_trailer,
  sha_streaming_unsigned_trailer, is_hexdigit, is_hex_sha256,
}
use openlake.Auth.Verify.{Signer}
use openlake.Auth.Body.Frames
use openlake.Auth.Body.Frames.{Frame, AxumBodyStream, Fault}
use openlake.Auth.Body.Chunked
use openlake.Auth.Body.Chunked.{ChunkedBodyStream}
use openlake.Auth.Body.Hashed
use openlake.Auth.Body.Hashed.{Sha256VerifyStream}
use openlake.S3.Failures.{AppError, auth, bad_request, malformed, not_implemented}

pub data BodySource : Type 0 where
  plain : AxumBodyStream → BodySource
  hex_sha : Sha256VerifyStream → BodySource
  chunked : ChunkedBodyStream → BodySource

abbrev through :
    {A : Type 0} → (A → BodySource) → Result Fault (Bytes × A) → Result Fault (Bytes × BodySource)
through f (ok (b, a)) = ok (b, f a)
through f (err e) = err e

module _ (sign_chunk : Signer → Bytes → Bytes → Result String Bytes)
    (sha256_hex : Bytes → Bytes) where
  -- `BodySource::read`
  unfoldable pub read : BodySource → Result Fault (Bytes × BodySource)
  unfolding Frames.read Hashed.read Chunked.read
  read (plain s) = through plain (Frames.read s)
  read (hex_sha s) = through hex_sha (Hashed.read sha256_hex s)
  read (chunked s) = through chunked (Chunked.read sign_chunk s)

-- `headers.get(..).and_then(..).and_then(|s| s.parse().ok())`
abbrev number_of : Option Bytes → Option ℕ
number_of none = none
number_of (some s) = parse_u64 s

unfoldable pub number_header : Request → Bytes → Option ℕ
unfolding parse_u64
number_header req name = number_of (header_text req name)

module _ (timestamp : Bytes → Option ℤ) where
  -- The branch of `build_body_source` for `STREAMING-AWS4-HMAC-SHA256-PAYLOAD`.
  unfoldable pub chunked_source :
      AuthState → Request → List Frame → Option ℕ → Result AuthError (ℕ × BodySource)
  unfolding parse_authorization parse_amz_date secret_for Chunked.new
  chunked_source state req body decoded_len = do
    raw ← ok_or (req.headers (codes "authorization")) missing_auth
    auth_hdr ← ok_or raw (malformed_auth "Authorization not ASCII")
    parsed ← parse_authorization auth_hdr
    date ← ok_or (req.headers (codes "x-amz-date")) missing_date
    amz_date ← ok_or date (bad_date "non-ASCII")
    request_time ← parse_amz_date timestamp amz_date
    secret ← ok_or (secret_for state parsed.access_key) (invalid_access_key_id parsed.access_key)
    decoded ← ok_or decoded_len missing_decoded_content_length
    ok (
      decoded,
      chunked
          (Chunked.new body parsed.signature parsed.access_key secret state.region request_time),
    )

  unfoldable pub build_body_source :
      AuthState → Request → List Frame → ℕ → Result AppError (ℕ × BodySource)
  unfolding chunked_source number_header is_hex_sha256 Frames.new Hashed.new
  build_body_source state req body content_length = do
    content_sha ← ok_or (header_text req (codes "x-amz-content-sha256")) (auth missing_content_sha)
    if bytes_eq.beq content_sha sha_unsigned
        then ok (content_length, plain (Frames.new body))
        else if bytes_eq.beq content_sha sha_streaming
        then map_err auth (
            chunked_source state req body
              (number_header req (codes "x-amz-decoded-content-length")))
        else if bytes_eq.beq content_sha sha_streaming_trailer
        then err (not_implemented "STREAMING-AWS4-HMAC-SHA256-PAYLOAD-TRAILER")
        else if bytes_eq.beq content_sha sha_streaming_unsigned_trailer
        then err (not_implemented "STREAMING-UNSIGNED-PAYLOAD-TRAILER")
        else if is_hex_sha256 content_sha
        then (map_err (λ e. bad_request "PUT body initialization failed")
              (Hashed.new (Frames.new body) content_sha)
            >>= λ s. ok (content_length, hex_sha s))
        else err (auth (unsupported_content_sha content_sha))

-- `parse_version_id`; the text is ASCII where it is accepted.
abbrev hex_or_dash : Bytes → Bool
hex_or_dash [] = true
hex_or_dash (c ∷ s) = (c == b'-' || is_hexdigit c) && hex_or_dash s

unfoldable pub parse_version : Bytes → Result AppError (Option Bytes)
unfolding filter
parse_version s =
    if is_empty s
    then ok none
    else if bytes_eq.beq s (codes "null")
    then ok (some s)
    else if length (filter (λ c. not (c == b'-')) s) == 32 && hex_or_dash s
    then ok (some s)
    else err
        (bad_request "invalid versionId: must be empty, the literal \"null\", or a canonical UUID")

unfoldable pub parse_version_id : Option Bytes → Result AppError (Option Bytes)
unfolding trim parse_version
parse_version_id none = ok none
parse_version_id (some raw) = parse_version (trim raw)

-- What `put_object` goes on with.
pub data PutRoute : Type 0 where
  copies : (source : Option Bytes) → PutRoute
  uploads_part : (part_number : ℕ) (upload_id : Bytes) → PutRoute
  puts : (content_length : ℕ) → PutRoute

unfoldable pub put_route : Request → Option ℕ → Option Bytes → Result AppError PutRoute
unfolding number_header
put_route req part_number upload_id = elim (req.headers (codes "x-amz-copy-source")) [
  | some source ↦ ok (copies source)
  | none ↦ by_part part_number upload_id
]
  where
    by_part : Option ℕ → Option Bytes → Result AppError PutRoute
    by_part (some n) (some uid) = ok (uploads_part n uid)
    by_part none none =
        ok_or (number_header req (codes "content-length"))
          (malformed "missing or invalid Content-Length")
        >>= λ n. ok (puts n)
    by_part _ _ = err (malformed "partNumber and uploadId must both be present or both absent")

-- What `post_object` goes on with.
pub data PostRoute : Type 0 where
  creates_upload : PostRoute
  completes_upload : Bytes → PostRoute

unfoldable pub post_route : Option Bytes → Option Bytes → Result AppError PostRoute
post_route (some u) none = ok creates_upload
post_route none (some uid) = ok (completes_upload uid)
post_route (some u) (some uid) = err (malformed "?uploads and ?uploadId are mutually exclusive")
post_route none none = err (malformed "object POST requires ?uploads or ?uploadId")
