-- ===== src/S3/UploadFacts.antt =====
-- crates/openlake_server/src/s3: the body of an upload in signed chunks continues the signature of its
-- request.
use openlake.Prelude.{◌≡◌, String, false, Option, some, List, [], ◌∷◌, ◌++◌}
use openlake.Prelude.Int.{ℤ}
use openlake.Erasure.Codec.{Bytes}
use openlake.Errors.{Result, ok}
use openlake.Auth.Text.{codes}
use openlake.Auth.Header.{AuthState, ParsedAuth, secret_for, parse_authorization}
use openlake.Auth.Check.{Request}
use openlake.Auth.Verify.{Signer}
use openlake.Auth.Body.Frames
use openlake.Auth.Body.Hashed
use openlake.Auth.Body.Chunked
use openlake.Auth.Body.Chunked.{ChunkedBodyStream}
use openlake.Auth.Body.Sound.{IsChain}
use openlake.S3.Upload.{BodySource, plain, hex_sha, chunked}

-- The stream starts from the signature and the key of the request's header.
pub record Continues (state : AuthState) (req : Request) (c : ChunkedBodyStream) : Type 0 where
  pub value : Bytes
  pub parsed : ParsedAuth
  pub present : req.headers (codes "authorization") ≡ some (some value)
  pub reads : parse_authorization value ≡ ok parsed
  pub seed : c.running_sig ≡ parsed.signature
  pub key : c.access_key ≡ parsed.access_key
  pub known : secret_for state c.access_key ≡ some c.secret
  pub region : c.region ≡ state.region
  pub unfinished : c.finished ≡ false
  pub unstarted : c.chunk_buf ≡ []

abbrev SourceContinues : AuthState → Request → BodySource → Type 0
SourceContinues state req (plain s) = Unit
SourceContinues state req (hex_sha s) = Unit
SourceContinues state req (chunked c) = Continues state req c

module _ (timestamp : Bytes → Option ℤ) where
  -- What an upload in signed chunks that is read to its end has shown: its pieces are signed one after the
  -- other, from the signature in the header of the request on, under the secret of the header's key.
  pub record IsSignedUpload (sign_chunk : Signer → Bytes → Bytes → Result String Bytes)
      (state : AuthState) (req : Request) (ps : List Bytes) : Type 0 where
    pub value : Bytes
    pub parsed : ParsedAuth
    pub present : req.headers (codes "authorization") ≡ some (some value)
    pub reads : parse_authorization value ≡ ok parsed
    pub by : Signer
    pub known : secret_for state parsed.access_key ≡ some by.secret
    pub last : Bytes
    pub chain : IsChain sign_chunk by parsed.signature (ps ++ [] ∷ []) last
