-- ===== src/XlMeta/Uuid.antt =====
-- crates/openlake_io/src/xl_meta.rs: the texts of a version id and of a data directory, and their 16
-- bytes. The texts are ASCII here, so that a character is a byte.
use Prim.Native.Char.{Char, code}
use openlake.Prelude.{
  ℕ, suc, ◌+◌, ◌-◌, ◌*◌, ◌/◌, ◌%◌, String, Bool, not, ◌&&◌, ◌||◌, Option, none, some, List, [], ◌∷◌,
  length, get_elem?, replicate, ◌==◌, leb, if◌then◌else◌, string_eq,
}
use openlake.Erasure.Codec.{Bytes}
use openlake.Errors.{Result, ok, err, IoError, encode_error, ◌>>=◌, ok_or}
use openlake.Kv.Slots.{bytes_eq}
use openlake.Records.{null_version_id}

abbrev pub zero_uuid : Bytes
zero_uuid = replicate 16 0

-- The characters of a text but the dashes.
unfoldable pub hex_codes : String → List ℕ
hex_codes String.[] = []
hex_codes (String.◌∷◌ c s) = let rest = hex_codes s in if code c == 45 then rest else code c ∷ rest

-- A digit of base 16, in either case.
unfoldable pub hex_value : ℕ → Option ℕ
hex_value c =
    if leb 48 c && leb c 57
    then some (c - 48)
    else if leb 97 c && leb c 102
    then some (c - 87)
    else if leb 65 c && leb c 70
    then some (c - 55)
    else none

abbrev both : Option ℕ → Option ℕ → Option ℕ
both none o = none
both (some a) none = none
both (some a) (some b) = some (a * 16 + b)

-- `u8::from_str_radix` of two characters, the first of which may be a plus sign.
unfoldable pub from_hex : ℕ → ℕ → Option ℕ
unfolding hex_value
from_hex a b = if a == 43 then hex_value b else both (hex_value a) (hex_value b)

unfoldable pub parse_pairs : List ℕ → Result IoError Bytes
unfolding from_hex
parse_pairs [] = ok []
parse_pairs (a ∷ []) = ok []
parse_pairs (a ∷ b ∷ cs) = do
  x ← ok_or (from_hex a b) (encode_error "invalid hex")
  rest ← parse_pairs cs
  ok (x ∷ rest)

unfoldable pub parse_uuid_bytes : String → Result IoError Bytes
unfolding hex_codes parse_pairs
parse_uuid_bytes s =
    if string_eq.beq s "" || string_eq.beq s null_version_id
    then ok zero_uuid
    else if not (length (hex_codes s) == 32)
    then err (encode_error "expected 32 hex chars after stripping dashes")
    else parse_pairs (hex_codes s)

abbrev hex_chars : List Char
hex_chars =
    "0" ∷ "1" ∷ "2" ∷ "3" ∷ "4" ∷ "5" ∷ "6" ∷ "7" ∷ "8" ∷ "9" ∷ "a" ∷ "b" ∷ "c" ∷ "d" ∷ "e" ∷ "f"
    ∷ []

abbrev or_zero : Option Char → Char
or_zero none = "0"
or_zero (some c) = c

-- A digit of `{:02x}`.
unfoldable pub hex_digit : ℕ → Char
hex_digit d = or_zero (get_elem? hex_chars d)

abbrev has_dash : ℕ → Bool
has_dash i = i == 4 || (i == 6 || (i == 8 || i == 10))

-- The text of the bytes from number `i` on, with a dash before the bytes 4, 6, 8 and 10.
unfoldable pub uuid_text : ℕ → Bytes → String
unfolding hex_digit
uuid_text i [] = ""
uuid_text i (b ∷ bs) =
    let rest =
      String.◌∷◌ (hex_digit (b / 16)) (String.◌∷◌ (hex_digit (b % 16)) (uuid_text (suc i) bs)) in
    if has_dash i then String.◌∷◌ "-" rest else rest

unfoldable pub format_uuid_hex : Bytes → String
unfolding uuid_text
format_uuid_hex b = uuid_text 0 b

unfoldable pub format_version_id_bytes : Bytes → String
unfolding format_uuid_hex
format_version_id_bytes b = if bytes_eq.beq b zero_uuid then null_version_id else format_uuid_hex b

unfoldable pub format_data_dir_bytes : Bytes → String
unfolding format_uuid_hex
format_data_dir_bytes b = if bytes_eq.beq b zero_uuid then "" else format_uuid_hex b
