-- ===== src/Auth/Body/Examples.antt =====
-- Bodies in frames that cut them at odd places; the signer gives the same signature for every chunk.
use openlake.Prelude.{◌≡◌, refl, String, Bool, true, false, List, [], ◌∷◌, arith}
use openlake.Erasure.Codec.{Bytes}
use openlake.Erasure.Shards.{concat}
use openlake.Errors.{Result, ok}
use openlake.Auth.Text.{codes, to_ascii_lowercase}
use openlake.Auth.Verify.{Signer}
use openlake.Auth.Body.Frames
use openlake.Auth.Body.Frames.{Frame, content, trailers}
use openlake.Auth.Body.Chunked
use openlake.Auth.Body.Chunked.{ChunkedBodyStream, parse_header}
use openlake.Auth.Body.Hashed
use openlake.Auth.Body.Hashed.{Sha256VerifyStream}
use openlake.Auth.Body.Hash
use openlake.Auth.Body.Hash.{Drains-declared}
use openlake.Auth.Body.Sound.{Drains}
use openlake.Auth.Body.Whole.{Chunk}
use openlake.Auth.Body.Reading.{Drains-new}

abbrev sign_chunk : Signer → Bytes → Bytes → Result String Bytes
sign_chunk by chunk prev = ok (codes "ab")

abbrev greeting : Chunk
greeting = record { line = codes "2;chunk-signature=ab"; sig = codes "ab"; payload = codes "hi" }

abbrev last : Chunk
last = record { line = codes "0;chunk-signature=ab"; sig = codes "ab"; payload = [] }

abbrev frames : List Frame
frames =
    content (codes "2;chunk-sig")
    ∷ content []
    ∷ content (codes "nature=ab\r")
    ∷ content (codes "\nhi\r\n0;chunk-signature=ab\r\n\r\n")
    ∷ trailers
    ∷ []

abbrev stream : ChunkedBodyStream
stream = Chunked.new frames (codes "ab") (codes "AK") (codes "secret") (codes "us") 0

Drains-new_example : (d : ChunkedBodyStream) × Drains sign_chunk (codes "hi" ∷ []) stream d
unfolding parse_header
Drains-new_example =
    Drains-new sign_chunk frames (greeting ∷ []) last (codes "ab") (codes "AK") (codes "secret")
      (codes "us") 0 tt refl
      (
        record { one_line = omega arith; header = refl; signed = refl; bounded = omega arith },
        refl,
        (
          record { one_line = omega arith; header = refl; signed = refl; bounded = omega arith },
          refl,
        ),
      )

abbrev digest : Bytes
digest = codes "0123456789abcdef0123456789abcdef0123456789abcdef0123456789abcdef"

abbrev sha256_hex : Bytes → Bytes
sha256_hex body = digest

-- The stream with the frames that are left, and what has been hashed.
abbrev hashing : List Frame → Bytes → Bool → Bool → Sha256VerifyStream
hashing left fed over done = record {
  inner = record { body = left; leftover = []; eof = over };
  expected = digest;
  hasher = fed;
  eof = done;
}

hashing-Drains :
    Hash.Drains sha256_hex
      (codes "hi" ∷ [])
      (hashing (content (codes "hi") ∷ trailers ∷ []) [] false false)
      (hashing [] [] true true)
unfolding Hashed.read
hashing-Drains = (hashing (trailers ∷ []) (codes "hi") false false, refl, refl, refl)

opened :
    Hashed.new (Frames.new (content (codes "hi") ∷ trailers ∷ [])) digest
    ≡ ok (hashing (content (codes "hi") ∷ trailers ∷ []) [] false false)
unfolding Hashed.new Frames.new
opened = refl

Drains-declared_example : sha256_hex (concat (codes "hi" ∷ [])) ≡ to_ascii_lowercase digest
Drains-declared_example =
    Drains-declared sha256_hex (Frames.new (content (codes "hi") ∷ trailers ∷ [])) digest
      (codes "hi" ∷ []) (hashing (content (codes "hi") ∷ trailers ∷ []) [] false false)
      (hashing [] [] true true) opened hashing-Drains
