-- ===== src/Auth/Check.antt =====
-- crates/openlake_server/src/s3/middleware/sigv4.rs: the check that every signed request passes before
-- a handler sees it.
use openlake.Prelude.{
  ℕ, String, Bool, true, not, ◌&&◌, ◌||◌, Option, none, some, [], ◌∷◌, length, take, ◌==◌, ltb, leb,
  if◌then◌else◌,
}
use openlake.Prelude.Int.{ℤ}
use openlake.Erasure.Codec.{Bytes}
use openlake.Errors.{Result, ok, err, ◌>>=◌, ◌>>◌, guard, ok_or}
use openlake.Kv.Slots.{bytes_eq}
use openlake.Auth.Failures.{
  AuthError, missing_auth, malformed_auth, missing_date, bad_date, invalid_access_key_id,
  unsupported_content_sha,
}
use openlake.Auth.Text.{codes, is_some}
use openlake.Auth.Header.{AuthState, secret_for, parse_authorization}
use openlake.Auth.Query.{Uri, has_presigned_query_params, parse_presigned_query, parse_amz_date}
use openlake.Auth.Verify.{
  SigningSettings, SignableBody, unsigned_payload, precomputed, Signer, Signable, check_skew,
  verify_seed, verify_presigned,
}

-- The value of a header: `none` if `to_str` refuses it.
pub record Request : Type 0 where
  pub method : Bytes
  pub uri : Uri
  pub path_and_query : Bytes
  pub headers : Bytes → Option (Option Bytes)

abbrev readable : Option (Option Bytes) → Option Bytes
readable none = none
readable (some v) = v

-- `headers.get(name)?.to_str().ok()`
abbrev pub header_text : Request → Bytes → Option Bytes
header_text req name = readable (req.headers name)

abbrev pub sha_unsigned : Bytes
sha_unsigned = codes "UNSIGNED-PAYLOAD"

abbrev pub sha_streaming : Bytes
sha_streaming = codes "STREAMING-AWS4-HMAC-SHA256-PAYLOAD"

abbrev pub sha_streaming_trailer : Bytes
sha_streaming_trailer = codes "STREAMING-AWS4-HMAC-SHA256-PAYLOAD-TRAILER"

abbrev pub sha_streaming_unsigned_trailer : Bytes
sha_streaming_unsigned_trailer = codes "STREAMING-UNSIGNED-PAYLOAD-TRAILER"

abbrev pub is_hexdigit : ℕ → Bool
is_hexdigit b =
    (leb b'0' b && leb b b'9') || ((leb b'a' b && leb b b'f') || (leb b'A' b && leb b b'F'))

abbrev all_hex : Bytes → Bool
all_hex [] = true
all_hex (b ∷ s) = is_hexdigit b && all_hex s

unfoldable pub is_hex_sha256 : Bytes → Bool
is_hex_sha256 s = length s == 64 && all_hex s

unfoldable pub body_of_marker : Bytes → Result AuthError SignableBody
unfolding is_hex_sha256
body_of_marker raw =
    if bytes_eq.beq raw sha_unsigned
    then ok unsigned_payload
    else if bytes_eq.beq raw sha_streaming
    then ok (precomputed sha_streaming)
    else if bytes_eq.beq raw sha_streaming_trailer
    then ok (precomputed sha_streaming_trailer)
    else if bytes_eq.beq raw sha_streaming_unsigned_trailer
    then ok (precomputed sha_streaming_unsigned_trailer)
    else if is_hex_sha256 raw
    then ok (precomputed raw)
    else err (unsupported_content_sha raw)

unfoldable pub signable_body_from_headers : Request → Result AuthError SignableBody
unfolding body_of_marker
signable_body_from_headers req = elim (req.headers (codes "x-amz-content-sha256")) [
  | none ↦ ok unsigned_payload
  | some v ↦ ok_or v (unsupported_content_sha (codes "non-ASCII")) >>= body_of_marker
]

module _ (timestamp : Bytes → Option ℤ) (default : SigningSettings)
    (sign : Signer → SigningSettings → Signable → Result String Bytes) where
  unfoldable pub run_presigned : ℕ → AuthState → Request → Result AuthError (Unit {0})
  unfolding parse_presigned_query verify_presigned secret_for
  run_presigned now auth_state req = do
    parsed ← parse_presigned_query timestamp req.uri
    secret ←
        ok_or (secret_for auth_state parsed.access_key) (invalid_access_key_id parsed.access_key)
    verify_presigned default sign now req.method req.uri (header_text req) parsed secret
        auth_state.region

  unfoldable pub run_header : ℕ → AuthState → Request → Result AuthError (Unit {0})
  unfolding parse_authorization verify_seed secret_for signable_body_from_headers parse_amz_date
      check_skew
  run_header now auth_state req = do
    raw ← ok_or (req.headers (codes "authorization")) missing_auth
    auth_value ← ok_or raw (malformed_auth "Authorization not ASCII")
    parsed ← parse_authorization auth_value
    date ← ok_or (req.headers (codes "x-amz-date")) missing_date
    amz_date ← ok_or date (bad_date "non-ASCII")
    request_time ← parse_amz_date timestamp amz_date
    check_skew now request_time
    guard (not (ltb (length amz_date) 8) && bytes_eq.beq parsed.scope_date (take 8 amz_date))
        (malformed_auth "scope date does not match x-amz-date")
    secret ←
        ok_or (secret_for auth_state parsed.access_key) (invalid_access_key_id parsed.access_key)
    body ← signable_body_from_headers req
    verify_seed default sign req.method req.path_and_query (header_text req) parsed secret
        auth_state.region request_time body

  unfoldable pub run_check : ℕ → AuthState → Request → Result AuthError (Unit {0})
  unfolding run_presigned run_header has_presigned_query_params
  run_check now auth_state req =
      if not (is_some (req.headers (codes "authorization"))) && has_presigned_query_params req.uri
      then run_presigned now auth_state req
      else run_header now auth_state req
