-- ===== src/Auth/Failures.antt =====
-- crates/openlake_server/src/auth.rs: the errors, and what a client sees of them. A text that the
-- source builds with `format!` stands for its format string.
use openlake.Prelude.{ℕ, String}
use openlake.Erasure.Codec.{Bytes}

pub data AuthError : Type 0 where
  missing_auth missing_date request_time_skewed missing_content_sha signature_mismatch : AuthError
  missing_decoded_content_length chunk_signature_mismatch presigned_expired : AuthError
  malformed_auth malformed_presigned bad_date signer : String → AuthError
  unsupported_content_sha invalid_access_key_id bad_service bad_algorithm : Bytes → AuthError
  region_mismatch : (req server : Bytes) → AuthError
  bad_expires : ℕ → AuthError

unfoldable pub status_and_code : AuthError → ℕ × String
status_and_code missing_auth = (403, "AccessDenied")
status_and_code (malformed_auth e) = (400, "AuthorizationHeaderMalformed")
status_and_code missing_date = (400, "AuthorizationHeaderMalformed")
status_and_code (bad_date e) = (400, "AuthorizationHeaderMalformed")
status_and_code request_time_skewed = (403, "RequestTimeTooSkewed")
status_and_code missing_content_sha = (400, "MissingContentSHA256")
status_and_code (unsupported_content_sha v) = (400, "InvalidRequest")
status_and_code (invalid_access_key_id k) = (403, "InvalidAccessKeyId")
status_and_code signature_mismatch = (403, "SignatureDoesNotMatch")
status_and_code (region_mismatch r s) = (400, "AuthorizationHeaderMalformed")
status_and_code (bad_service s) = (400, "AuthorizationHeaderMalformed")
status_and_code missing_decoded_content_length = (400, "InvalidRequest")
status_and_code chunk_signature_mismatch = (403, "SignatureDoesNotMatch")
status_and_code (signer e) = (500, "InternalError")
status_and_code (bad_algorithm a) = (400, "InvalidRequest")
status_and_code (malformed_presigned e) = (400, "AuthorizationQueryParametersError")
status_and_code (bad_expires n) = (400, "AuthorizationQueryParametersError")
status_and_code presigned_expired = (403, "AccessDenied")
