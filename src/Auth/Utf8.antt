-- ===== src/Auth/Utf8.antt =====
-- `String::from_utf8_lossy` and `str::from_utf8`, which crates/openlake_server/src/auth.rs and
-- crates/openlake_server/src/s3/body_source.rs call, on lists of bytes.
use openlake.Prelude.{
  ℕ, zero, suc, Bool, true, false, ◌&&◌, [], ◌∷◌, ◌++◌, length, take, drop, ◌==◌, ltb, leb,
  if◌then◌else◌,
}
use openlake.Erasure.Codec.{Bytes}

abbrev within : ℕ → ℕ → ℕ → Bool
within lo hi b = leb lo b && leb b hi

-- The length of a character, or of the longest part of one that has to be given up.
pub data Part : Type 0 where
  good bad : ℕ → Part

abbrev last_byte : ℕ → Bytes → Part
last_byte n [] = bad n
last_byte n (d ∷ s) = if within 128 191 d then good (suc n) else bad n

abbrev two_bytes : ℕ → ℕ → Bytes → Part
two_bytes lo hi [] = bad 1
two_bytes lo hi (b ∷ s) = if within lo hi b then last_byte 2 s else bad 1

abbrev third_byte : Bytes → Part
third_byte [] = bad 2
third_byte (c ∷ s) = if within 128 191 c then last_byte 3 s else bad 2

abbrev three_bytes : ℕ → ℕ → Bytes → Part
three_bytes lo hi [] = bad 1
three_bytes lo hi (b ∷ s) = if within lo hi b then third_byte s else bad 1

-- The first character of `a ∷ s`, by the table of well-formed sequences.
unfoldable pub first_part : ℕ → Bytes → Part
first_part a s =
    if ltb a 128
    then good 1
    else if within 194 223 a
    then last_byte 1 s
    else if a == 224
    then two_bytes 160 191 s
    else if a == 237
    then two_bytes 128 159 s
    else if within 225 239 a
    then two_bytes 128 191 s
    else if a == 240
    then three_bytes 144 191 s
    else if within 241 243 a
    then three_bytes 128 191 s
    else if a == 244
    then three_bytes 128 143 s
    else bad 1

-- U+FFFD
abbrev replacement : Bytes
replacement = 239 ∷ 191 ∷ 189 ∷ []

abbrev pub emit : Part → Bytes → (ℕ → Bytes) → Bytes
emit (good n) s rest = take n s ++ rest n
emit (bad n) s rest = replacement ++ rest n

-- On fuel: every round drops a byte at least.
unfoldable pub mend : ℕ → Bytes → Bytes
mend zero s = []
mend (suc fuel) [] = []
mend (suc fuel) (a ∷ s) = emit (first_part a s) (a ∷ s) (λ n. mend fuel (drop n (a ∷ s)))

unfoldable pub from_utf8_lossy : Bytes → Bytes
unfolding mend first_part
from_utf8_lossy s = mend (length s) s

abbrev pub passes : Part → (ℕ → Bool) → Bool
passes (good n) rest = rest n
passes (bad n) rest = false

unfoldable pub is_valid : ℕ → Bytes → Bool
is_valid zero s = true
is_valid (suc fuel) [] = true
is_valid (suc fuel) (a ∷ s) = passes (first_part a s) (λ n. is_valid fuel (drop n (a ∷ s)))

unfoldable pub is_utf8 : Bytes → Bool
unfolding is_valid first_part
is_utf8 s = is_valid (length s) s
