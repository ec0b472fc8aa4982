-- ===== src/S3/Examples.antt =====
-- A ranged read of an object of ten bytes in two frames, and an upload of one chunk.
use openlake.Prelude.{
  ℕ, ◌*◌, ◌^◌, ◌≡◌, refl, String, Bool, false, Option, none, some, List, [], ◌∷◌, length, take,
  drop, arith,
}
use openlake.Prelude.Int.{ℤ, pos}
use openlake.Prelude.Maps.{get}
use openlake.Erasure.Codec.{Bytes}
use openlake.Erasure.Shards.{concat}
use openlake.Errors.{Result, ok}
use openlake.Kv.Slots.{bytes_eq}
use openlake.Objects.Range.{bounded, resolve}
use openlake.Streams.{read_rope}
use openlake.Streams.Facts.{Gives}
use openlake.Streams.Skip
use openlake.Auth.Text.{codes}
use openlake.Auth.Header.{AuthState}
use openlake.Auth.Verify.{Signer}
use openlake.Auth.Check.{Request}
use openlake.Auth.Body.Frames.{Frame, content}
use openlake.Auth.Body.Chunked
use openlake.Auth.Body.Chunked.{ChunkedBodyStream}
use openlake.S3.Range.{parse_range_header}
use openlake.S3.Serve.{frames, reads_of, sent_bytes, response_head}
use openlake.S3.Ranged.{ranged_read}

abbrev object : List Bytes
object = codes "01234" ∷ codes "56789" ∷ []

parsed : parse_range_header (some (some (codes "bytes=3-6"))) ≡ ok (some (bounded 3 6))
unfolding parse_range_header
parsed = refl

resolved : resolve (bounded 3 6) (length (concat object)) ≡ some (3, 4)
unfolding resolve concat
resolved = refl

ranged_read_example :
    (ds : List Bytes) × Gives (Skip.read read_rope) ds (Skip.new object 3 4)
    × (sent_bytes (frames 4 0 (reads_of ds)) ≡ take 4 (drop 3 (concat object)))
    × (length (sent_bytes (frames 4 0 (reads_of ds)))
        ≡ (response_head (length (concat object)) (some (3, 4))).content_length)
unfolding concat
ranged_read_example =
    ranged_read (some (some (codes "bytes=3-6"))) (bounded 3 6) object 3 4 parsed (omega arith)
      (refl, (refl, tt)) resolved

abbrev sign_chunk : Signer → Bytes → Bytes → Result String Bytes
sign_chunk by chunk prev = ok (codes "ab")

abbrev timestamp : Bytes → Option ℤ
timestamp s = some (pos 1000)

abbrev state : AuthState
state = record { region = codes "us"; keys = (codes "AK", codes "secret") ∷ [] }

abbrev headers_of : Bytes → Option (Option Bytes)
headers_of name = get name (
    (
      codes "authorization",
      some (
          codes
            "AWS4-HMAC-SHA256 Credential=AK/20260101/us/s3/aws4_request, SignedHeaders=host, Signature=ab"),
    )
    ∷ (codes "x-amz-date", some (codes "20260101T000000Z"))
    ∷ (codes "x-amz-content-sha256", some (codes "STREAMING-AWS4-HMAC-SHA256-PAYLOAD"))
    ∷ (codes "x-amz-decoded-content-length", some (codes "2"))
    ∷ [])

abbrev request : Request
request = record {
  method = codes "PUT";
  uri = record { path = codes "/b/k"; query = none };
  path_and_query = codes "/b/k";
  headers = headers_of;
}

abbrev body : List Frame
body =
    content (codes "2;chunk-signature=ab\r\nhi\r\n")
    ∷ content (codes "0;chunk-signature=ab\r\n\r\n")
    ∷ []

-- The stream with the frames that are left and the chunk that is staged.
abbrev at : List Frame → Bytes → ℕ → Bool → ChunkedBodyStream
at left chunk served over = record {
  inner = record { body = left; leftover = []; eof = false };
  carry = [];
  chunk_buf = chunk;
  chunk_pos = served;
  running_sig = codes "ab";
  access_key = codes "AK";
  secret = codes "secret";
  region = codes "us";
  request_time = 1000 * 10 ^ 9;
  finished = over;
}
