-- ===== src/XlMeta/RoundTrip/Ids.antt =====
-- The text of a version id and that of a data directory are parsed to the bytes they are made of.
use Prim.Native.Char.{code}
use openlake.Prelude.{
  ℕ, zero, suc, ◌+◌, ◌*◌, ◌/◌, ◌%◌, ◌<◌, ◌≡◌, refl, sym, subst, ap, ◌∙◌, String, Bool, true, false,
  not, ◌&&◌, ◌||◌, List, [], ◌∷◌, length, All, arith, ◌==◌, Bool-cases, if-elim, ltb, string_eq,
  inl, inr, Option, none, some,
}
use openlake.Erasure.Codec.{Bytes}
use openlake.Errors.{ok}
use openlake.Kv.Slots.{bytes_eq}
use openlake.Records.{null_version_id}
use openlake.XlMeta.Uuid.{
  zero_uuid, hex_codes, hex_value, from_hex, parse_pairs, parse_uuid_bytes, hex_digit, uuid_text,
  format_uuid_hex, format_version_id_bytes, format_data_dir_bytes,
}

all_below : (ℕ → Bool) → ℕ → Bool
all_below p zero = true
all_below p (suc n) = p n && all_below p n

below : (p : ℕ → Bool) (n d : ℕ) → all_below p n ≡ true → d < n → p d ≡ true
unfolding all_below
below p zero d h l = absurd (omega (arith, l))
below p (suc n) d h l = elim (Bool-cases (d == n)) [
  | inl t ↦
      let same : d ≡ n = ground (arith, t) in subst (λ k. p k ≡ true) (sym same) (ground (arith, h))
  | inr f ↦ below p n d (ground (arith, h)) (ground (arith, f, l))
]

reads : ℕ → Option ℕ → Bool
reads d none = false
reads d (some v) = v == d

reads-some : (d : ℕ) (o : Option ℕ) → reads d o ≡ true → o ≡ some d
unfolding reads
reads-some d none h = absurd (cc h)
reads-some d (some v) h = ap some (ground (arith, h))

is_digit : ℕ → Bool
unfolding hex_digit hex_value reads
is_digit d =
    not (code (hex_digit d) == 45)
    && (not (code (hex_digit d) == 43) && reads d (hex_value (code (hex_digit d))))

digit :
    (d : ℕ)
    → d < 16
    → ((code (hex_digit d) == 45) ≡ false)
      × ((code (hex_digit d) == 43) ≡ false)
      × (hex_value (code (hex_digit d)) ≡ some d)
unfolding is_digit all_below
digit d l =
    let h : is_digit d ≡ true = below is_digit 16 d refl l in
    (ground (arith, h), ground (arith, h), reads-some d _ (ground (arith, h)))

-- The two digits of every byte.
codes : Bytes → List ℕ
codes [] = []
codes (b ∷ bs) = code (hex_digit (b / 16)) ∷ code (hex_digit (b % 16)) ∷ codes bs

hex_codes-digits :
    (b : ℕ) (s : String)
    → b < 256
    → hex_codes (String.◌∷◌ (hex_digit (b / 16)) (String.◌∷◌ (hex_digit (b % 16)) s))
      ≡ code (hex_digit (b / 16)) ∷ code (hex_digit (b % 16)) ∷ hex_codes s
unfolding hex_codes
hex_codes-digits b s l =
    rw ((digit (b / 16) (omega (arith, l))).0, (digit (b % 16) (omega arith)).0)

hex_codes-dash : (s : String) → hex_codes (String.◌∷◌ "-" s) ≡ hex_codes s
unfolding hex_codes
hex_codes-dash s = refl

hex_codes-uuid_text :
    (i : ℕ) (bs : Bytes) → All (λ b. b < 256) bs → hex_codes (uuid_text i bs) ≡ codes bs
unfolding uuid_text codes hex_codes
hex_codes-uuid_text i [] h = refl
hex_codes-uuid_text i (b ∷ bs) (l, h) =
    let digits =
      hex_codes-digits b (uuid_text (suc i) bs) l
      ∙ ap (λ cs. code (hex_digit (b / 16)) ∷ code (hex_digit (b % 16)) ∷ cs)
          (hex_codes-uuid_text (suc i) bs h) in
    if-elim {A = String} (λ s. hex_codes s ≡ codes (b ∷ bs))
      (i == 4 || (i == 6 || (i == 8 || i == 10))) _ _
      (λ _.
        hex_codes-dash
          (String.◌∷◌ (hex_digit (b / 16)) (String.◌∷◌ (hex_digit (b % 16)) (uuid_text (suc i) bs)))
        ∙ digits)
      (λ _. digits)

parse_pairs-codes : (bs : Bytes) → All (λ b. b < 256) bs → parse_pairs (codes bs) ≡ ok bs
unfolding parse_pairs codes from_hex
parse_pairs-codes [] h = refl
parse_pairs-codes (b ∷ bs) (l, h) =
    let (_, plus, high) = digit (b / 16) (omega (arith, l)) in
    let (_, _, low) = digit (b % 16) (omega arith) in
    let joined : b / 16 * 16 + b % 16 ≡ b = omega arith in
    rw (plus, high, low, joined, parse_pairs-codes bs h)

length-codes : (bs : Bytes) → length (codes bs) ≡ 2 * length bs
unfolding codes
length-codes [] = refl
length-codes (b ∷ bs) = omega (arith, length-codes bs)

-- A text of 32 digits is none of those that stand for no id.
not_reserved :
    (s t : String)
    → length (hex_codes s) ≡ 32
    → ltb (length (hex_codes t)) 32 ≡ true
    → string_eq.beq s t ≡ false
not_reserved s t h l = elim (Bool-cases (string_eq.beq s t)) [
  | inl e ↦
      let same : length (hex_codes t) ≡ 32 =
        subst (λ u. length (hex_codes u) ≡ 32) ((string_eq.beq_iff s t).0 e) h in
      absurd (ground (arith, same, l))
  | inr f ↦ f
]

parse-format :
    (b : Bytes) → length b ≡ 16 → All (λ x. x < 256) b → parse_uuid_bytes (format_uuid_hex b) ≡ ok b
unfolding parse_uuid_bytes format_uuid_hex
parse-format b l h =
    let text = hex_codes-uuid_text 0 b h in
    let long : length (hex_codes (uuid_text 0 b)) ≡ 32 =
      ap length text ∙ omega (arith, length-codes b) in
    rw (
      not_reserved (uuid_text 0 b) "" long refl,
      not_reserved (uuid_text 0 b) null_version_id long refl,
      long,
      text,
      parse_pairs-codes b h,
    )

-- The text that is made of 16 bytes, as a version id or as a data directory, is parsed to those bytes.
pub parse_uuid_bytes-format :
    (b : Bytes)
    → length b ≡ 16
    → All (λ x. x < 256) b
    → (parse_uuid_bytes (format_version_id_bytes b) ≡ ok b)
      × (parse_uuid_bytes (format_data_dir_bytes b) ≡ ok b)
unfolding format_version_id_bytes format_data_dir_bytes parse_uuid_bytes
parse_uuid_bytes-format b l h = elim (Bool-cases (bytes_eq.beq b zero_uuid)) [
  | inl t ↦ rw t (
    ap ok (sym ((bytes_eq.beq_iff b zero_uuid).0 t)),
    ap ok (sym ((bytes_eq.beq_iff b zero_uuid).0 t)),
  )
  | inr f ↦ rw f (parse-format b l h, parse-format b l h)
]
