-- ===== src/Auth/Body/Hashed.antt =====
-- crates/openlake_server/src/auth.rs: `Sha256VerifyStream`, a body whose hash the request has declared.
-- The hash, of the sha2 crate, and its text in hexadecimal digits are the parameter `sha256_hex`.
use openlake.Prelude.{Bool, true, false, not, [], ◌++◌, length, ◌==◌, if◌then◌else◌}
use openlake.Erasure.Codec.{Bytes}
use openlake.Errors.{Result, ok, err, decode_error, ◌>>=◌}
use openlake.Auth.Failures.{AuthError, unsupported_content_sha}
use openlake.Auth.Text.{to_ascii_lowercase, is_empty}
use openlake.Auth.Verify.{constant_time_eq}
use openlake.Auth.Body.Frames
use openlake.Auth.Body.Frames.{AxumBodyStream, Fault, failed}

-- `hasher` is what has been fed to the hasher.
pub record Sha256VerifyStream : Type 0 where
  pub inner : AxumBodyStream
  pub expected : Bytes
  pub hasher : Bytes
  pub eof : Bool

unfoldable pub new : AxumBodyStream → Bytes → Result AuthError Sha256VerifyStream
unfolding to_ascii_lowercase
new inner expected_hex =
    if not (length expected_hex == 64)
    then err (unsupported_content_sha expected_hex)
    else ok (record {
      inner = inner;
      expected = to_ascii_lowercase expected_hex;
      hasher = [];
      eof = false;
    })

module _ (sha256_hex : Bytes → Bytes) where
  -- What follows the read of a chunk.
  unfoldable pub after_read :
      Sha256VerifyStream → Bytes × AxumBodyStream → Result Fault (Bytes × Sha256VerifyStream)
  unfolding constant_time_eq
  after_read s (chunk, inner) =
      if not (is_empty chunk)
      then ok (chunk, record s { inner = inner; hasher = s.hasher ++ chunk })
      else if constant_time_eq (sha256_hex s.hasher) s.expected
      then ok ([], record s { inner = inner; eof = true; hasher = [] })
      else err (failed (decode_error "sha256 mismatch"))

  unfoldable pub read : Sha256VerifyStream → Result Fault (Bytes × Sha256VerifyStream)
  unfolding after_read Frames.read
  read s = if s.eof then ok ([], s) else Frames.read s.inner >>= after_read s
