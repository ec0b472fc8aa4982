-- ===== src/Erasure/Stripe.antt =====
-- crates/openlake_storage/src/ec.rs: `Erasure`, `encode_stripe` and `decode_stripe`.
pub mod Loss
use openlake.Prelude.{
  ℕ, zero, suc, ◌+◌, ◌*◌, ◌/◌, ◌%◌, ◌≡◌, Bool, true, false, not, ◌&&◌, ◌||◌, Option, none, some,
  List, [], ◌∷◌, ◌++◌, length, take, drop, count, get_elem?, ◌==◌, leb, if◌then◌else◌,
}
use openlake.Errors.{Result, ok, err, IoError, io, IoKind, other, ◌>>=◌, ◌>>◌, guard, ok_or}
use openlake.Erasure.Codec.{Codec, Bytes, is_some}
use openlake.Erasure.Shards.{cut}

pub record Erasure : Type 0 where
  pub data_shards : ℕ
  pub parity_shards : ℕ

unfoldable pub new : ℕ → ℕ → Result IoError Erasure
new data_shards parity_shards =
    if data_shards == 0 || parity_shards == 0
    then err (io other "EC requires data_shards>=1 and parity_shards>=1")
    else ok (record { data_shards = data_shards; parity_shards = parity_shards })

-- The recovery shards `i`, …, `i + m - 1`.
collect : (ℕ → Option Bytes) → ℕ → ℕ → Result IoError (List Bytes)
collect recovery i zero = ok []
collect recovery i (suc m) = do
  parity ← ok_or (recovery i) (io other "encode: recovery shard missing")
  rest ← collect recovery (suc i) m
  ok (parity ∷ rest)

unfoldable pub encode_stripe : Codec → Erasure → Bytes → Result IoError (List Bytes)
unfolding collect cut
encode_stripe c ec stripe = do
  let n = ec.data_shards
  let m = ec.parity_shards
  let unit = length stripe / n
  guard (not (length stripe == 0 || not (length stripe % n == 0)))
      (io other "encode_stripe: stripe len not divisible by data shards")
  guard (unit % 2 == 0) (io other "encode_stripe: shard unit must be even")
  guard (c.supports n m unit) (io other "RS encoder new")
  let shards = cut n unit stripe
  recovery ← ok_or (c.encode n m unit shards) (io other "RS encode")
  parities ← collect recovery 0 m
  ok (shards ++ parities)

-- Every shard that is there has the length `unit`.
lengths_ok : ℕ → List (Option Bytes) → Bool
lengths_ok unit [] = true
lengths_ok unit (none ∷ slots) = lengths_ok unit slots
lengths_ok unit (some b ∷ slots) = length b == unit && lengths_ok unit slots

-- The data shards from slot `i` on: those that were read, and the others restored.
fill_in : (ℕ → Option Bytes) → ℕ → List (Option Bytes) → Result IoError (List Bytes)
fill_in restored i [] = ok []
fill_in restored i (some b ∷ slots) = do rest ← fill_in restored (suc i) slots; ok (b ∷ rest)
fill_in restored i (none ∷ slots) = do
  b ← ok_or (restored i) (io other "decode: shard not restored")
  rest ← fill_in restored (suc i) slots
  ok (b ∷ rest)

-- The shards of slots that are all present.
present : List (Option Bytes) → List Bytes
present [] = []
present (none ∷ slots) = present slots
present (some b ∷ slots) = b ∷ present slots

-- The decoder is fed, and asked for what is missing.
reconstruct : Codec → Erasure → List (Option Bytes) → ℕ → Result IoError (List Bytes)
unfolding lengths_ok fill_in
reconstruct c ec slots unit = do
  let n = ec.data_shards
  let m = ec.parity_shards
  let originals = take n slots
  let parities = drop n slots
  guard (c.supports n m unit) (io other "RS decoder new")
  guard (lengths_ok unit originals) (io other "decode_stripe: original shard len != unit")
  guard (lengths_ok unit parities) (io other "decode_stripe: recovery shard len != unit")
  restored ← ok_or (c.decode n m unit originals parities) (io other "RS decode")
  fill_in restored 0 originals

unfoldable pub decode_stripe :
    Codec → Erasure → List (Option Bytes) → ℕ → Result IoError (List Bytes)
unfolding present reconstruct
decode_stripe c ec slots unit = do
  let n = ec.data_shards
  let m = ec.parity_shards
  guard (length slots == n + m) (io other "decode_stripe: wrong number of shard slots")
  guard (not (unit == 0 || not (unit % 2 == 0)))
      (io other "decode_stripe: shard unit must be non-zero and even")
  if count is_some (take n slots) == n
      then ok (present (take n slots))
      else reconstruct c ec slots unit
