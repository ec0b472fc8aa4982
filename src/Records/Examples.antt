-- ===== src/Records/Examples.antt =====
-- A bucket with versioning, through an envelope whose body is one byte for each field.
use openlake.Prelude.{ℕ, ◌≡◌, ◌+◌, ◌%◌, ◌^◌, ◌<◌, refl, true, Option, none, some, [], ◌∷◌, arith}
use openlake.Errors.{ok, ◌>>=◌}
use openlake.Erasure.Codec.{Bytes}
use openlake.Records.{BucketMeta}
use openlake.Records.Envelope.{new, encode, decode, decode-encode}

abbrev locked : BucketMeta
locked = new 7 true

abbrev to_vec : BucketMeta → Option Bytes
to_vec m = some (m.created_ms ∷ [])

abbrev from_slice : Bytes → Option BucketMeta
from_slice [] = none
from_slice (b ∷ bs) = some (new b true)

abbrev sum : Bytes → ℕ
sum [] = 0
sum (b ∷ bs) = (b + sum bs) % 2 ^ 32

sum_small : (b : Bytes) → sum b < 2 ^ 32
sum_small [] = omega arith
sum_small (b ∷ bs) = omega arith

decode-encode_example :
    (encode to_vec from_slice sum locked >>= decode to_vec from_slice sum) ≡ ok locked
unfolding new
decode-encode_example =
    decode-encode to_vec from_slice sum locked (7 ∷ []) refl refl (omega arith) sum_small
