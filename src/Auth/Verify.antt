-- ===== src/Auth/Verify.antt =====
-- crates/openlake_server/src/auth.rs: the checks of a signature. The aws_sigv4 crate is a parameter:
-- `sign` is what the parameter builder, `SignableRequest::new` and `sign` return together, and
-- `sign_chunk` the same for one chunk.
use Prim.Native.Nat.{bit_or, bit_xor}
use openlake.Prelude.{
  ℕ, ◌+◌, ◌-◌, String, Bool, false, not, ◌&&◌, ◌||◌, Option, none, some, List, [], ◌∷◌, length,
  ◌==◌, ltb, leb, if◌then◌else◌,
}
use openlake.Erasure.Codec.{Bytes}
use openlake.Errors.{Result, ok, err, ◌>>=◌, ◌>>◌, guard, map_err}
use openlake.Kv.Slots.{bytes_eq}
use openlake.Auth.Failures.{
  AuthError, request_time_skewed, region_mismatch, bad_service, malformed_presigned,
  presigned_expired, signature_mismatch, chunk_signature_mismatch, signer,
}
use openlake.Auth.Text.{codes}
use openlake.Auth.Header.{ParsedAuth}
use openlake.Auth.Query.{Uri, PresignedQuery, seconds, strip_amz_query_params}

-- `SERVICE`
abbrev pub service : Bytes
service = codes "s3"

-- `MAX_CLOCK_SKEW`
abbrev pub max_clock_skew : ℕ
max_clock_skew = seconds 900

-- `|now - request_time|`
unfoldable pub check_skew : ℕ → ℕ → Result AuthError (Unit {0})
check_skew now request_time =
    let skew = if leb request_time now then now - request_time else request_time - now in
    if ltb max_clock_skew skew then err request_time_skewed else ok tt

-- The loop of `constant_time_eq`, with `diff`.
unfoldable pub fold_diff : ℕ → Bytes → Bytes → ℕ
fold_diff diff [] b = diff
fold_diff diff (x ∷ a) [] = diff
fold_diff diff (x ∷ a) (y ∷ b) = fold_diff (bit_or diff (bit_xor x y)) a b

unfoldable pub constant_time_eq : Bytes → Bytes → Bool
unfolding fold_diff
constant_time_eq a b = if not (length a == length b) then false else fold_diff 0 a b == 0

pub data PercentEncodingMode : Type 0 where
  single double : PercentEncodingMode

pub data PayloadChecksumKind : Type 0 where
  x_amz_sha256 no_header : PayloadChecksumKind

pub data UriPathNormalizationMode : Type 0 where
  enabled disabled : UriPathNormalizationMode

pub data SessionTokenMode : Type 0 where
  include exclude : SessionTokenMode

pub data SignatureLocation : Type 0 where
  in_headers in_query_params : SignatureLocation

pub record SigningSettings : Type 0 where
  pub percent_encoding_mode : PercentEncodingMode
  pub payload_checksum_kind : PayloadChecksumKind
  pub uri_path_normalization_mode : UriPathNormalizationMode
  pub session_token_mode : SessionTokenMode
  pub excluded_headers : Option (List Bytes)
  pub signature_location : SignatureLocation
  pub expires_in : Option ℕ

-- Over `SigningSettings::default()`.
unfoldable pub s3_signing_settings : SigningSettings → SigningSettings
s3_signing_settings default = record default {
  percent_encoding_mode = single;
  payload_checksum_kind = x_amz_sha256;
  uri_path_normalization_mode = disabled;
  session_token_mode = include;
  excluded_headers = some [];
}

pub data SignableBody : Type 0 where
  unsigned_payload : SignableBody
  precomputed : Bytes → SignableBody

-- Who signs, and when: the fields of the credentials and of `v4::SigningParams`.
pub record Signer : Type 0 where
  pub access_key : Bytes
  pub secret : Bytes
  pub region : Bytes
  pub name : Bytes
  pub time : ℕ

-- The fields of `SignableRequest`.
pub record Signable : Type 0 where
  pub method : Bytes
  pub path_and_query : Bytes
  pub headers : List (Bytes × Bytes)
  pub body : SignableBody

abbrev pair_up : Bytes → Option Bytes → List (Bytes × Bytes) → List (Bytes × Bytes)
pair_up name none rest = rest
pair_up name (some value) rest = (name, value) ∷ rest

-- The signed headers that the request has, with their values: `headers` is `get` and `to_str`.
unfoldable pub filter_headers : (Bytes → Option Bytes) → List Bytes → List (Bytes × Bytes)
filter_headers headers [] = []
filter_headers headers (n ∷ ns) = pair_up n (headers n) (filter_headers headers ns)

module _ (default : SigningSettings)
    (sign : Signer → SigningSettings → Signable → Result String Bytes) where
  unfoldable pub verify_seed :
      Bytes
      → Bytes
      → (Bytes → Option Bytes)
      → ParsedAuth
      → Bytes
      → Bytes
      → ℕ
      → SignableBody
      → Result AuthError (Unit {0})
  unfolding constant_time_eq filter_headers s3_signing_settings
  verify_seed method path_and_query headers parsed secret server_region request_time body = do
    guard (bytes_eq.beq parsed.scope_region server_region)
        (region_mismatch parsed.scope_region server_region)
    guard (bytes_eq.beq parsed.scope_service service) (bad_service parsed.scope_service)
    output ← map_err signer (
        sign
          (record {
            access_key = parsed.access_key;
            secret = secret;
            region = server_region;
            name = service;
            time = request_time;
          })
          (s3_signing_settings default)
          (record {
            method = method;
            path_and_query = path_and_query;
            headers = filter_headers headers parsed.signed_headers;
            body = body;
          }))
    if constant_time_eq output parsed.signature then ok tt else err signature_mismatch

  unfoldable pub verify_presigned :
      ℕ
      → Bytes
      → Uri
      → (Bytes → Option Bytes)
      → PresignedQuery
      → Bytes
      → Bytes
      → Result AuthError (Unit {0})
  unfolding constant_time_eq filter_headers s3_signing_settings strip_amz_query_params
  verify_presigned now method uri headers parsed secret server_region = do
    guard (bytes_eq.beq parsed.scope_region server_region)
        (region_mismatch parsed.scope_region server_region)
    guard (bytes_eq.beq parsed.scope_service service) (bad_service parsed.scope_service)
    guard (not (ltb (length parsed.scope_date) 8 || ltb 8 (length parsed.scope_date)))
        (malformed_presigned "X-Amz-Credential date must be YYYYMMDD")
    guard (not (leb now parsed.request_time && ltb max_clock_skew (parsed.request_time - now)))
        request_time_skewed
    guard (not (ltb (parsed.request_time + seconds parsed.expires) now)) presigned_expired
    output ← map_err signer (
        sign
          (record {
            access_key = parsed.access_key;
            secret = secret;
            region = server_region;
            name = service;
            time = parsed.request_time;
          })
          (record (s3_signing_settings default) {
            signature_location = in_query_params;
            expires_in = some (seconds parsed.expires);
          })
          (record {
            method = method;
            path_and_query = strip_amz_query_params uri;
            headers = filter_headers headers parsed.signed_headers;
            body = unsigned_payload;
          }))
    if constant_time_eq output parsed.signature then ok tt else err signature_mismatch

module _ (sign_chunk : Signer → Bytes → Bytes → Result String Bytes) where
  unfoldable pub verify_chunk :
      Bytes → Bytes → Bytes → Bytes → Bytes → Bytes → ℕ → Result AuthError Bytes
  unfolding constant_time_eq
  verify_chunk chunk prev_signature given_signature access_key secret region request_time = do
    output ← map_err signer (
        sign_chunk
          (record {
            access_key = access_key;
            secret = secret;
            region = region;
            name = service;
            time = request_time;
          })
          chunk prev_signature)
    if constant_time_eq output given_signature then ok output else err chunk_signature_mismatch
