-- ===== src/Auth/QueryFacts.antt =====
-- crates/openlake_server/src/auth.rs: what presigning adds to a query is read back and taken off again.
use openlake.Prelude.{
  ℕ, zero, suc, ◌+◌, ◌/◌, ◌%◌, ◌≤◌, ◌<◌, ◌≡◌, ◌≢◌, refl, ap, ◌∙◌, Bool, true, false, ◌&&◌, ◌||◌,
  ◌↔◌, ◌⊎◌, inl, inr, Option-cases, Bool-cases, ==_iff, some, List, [], ◌∷◌, ◌++◌, length, drop,
  ◌==◌, take, ltb, leb, if◌then◌else◌, All, All-imp, All-append, arith, take-append-drop,
  length-drop,
}
use openlake.Erasure.Codec.{Bytes}
use openlake.XlMeta.Uuid.{hex_value}
use openlake.Auth.Text.{codes, split_once, starts_with, join, filter}
use openlake.Auth.TextFacts.{Lacks, split-join}
use openlake.Auth.Utf8.{
  Part, good, bad, first_part, mend, from_utf8_lossy, is_valid, is_utf8, emit, passes,
}
use openlake.Auth.Query.{
  hex_nibble, escape, decode_bytes, percent_decode, key_of, is_kept, with_query,
  strip_amz_query_params,
}

-- A part of a query that presigning adds: its first six bytes are those of the names of the signature,
-- in one of two spellings. Every other part is the client's.
pub record IsClient (p : Bytes) : Type 0 where
  pub whole : Lacks b'&' p
  pub other : take 6 p ≢ codes "X-Amz-"
  pub other_lower : take 6 p ≢ codes "x-amz-"

pub record IsSigning (p : Bytes) : Type 0 where
  pub whole : Lacks b'&' p
  pub named : (take 6 p ≡ codes "X-Amz-") ⊎ (take 6 p ≡ codes "x-amz-")

key_of-cons : (c : ℕ) (s : Bytes) → key_of (c ∷ s) ≡ (if c == b'=' then [] else c ∷ key_of s)
unfolding key_of split_once
key_of-cons c s = elim (Option-cases (split_once b'=' s)) [
  | inl e ↦ ground (arith, e)
  | inr ((k, v), e) ↦ ground (arith, e)
]

-- A name without `=` is where the key of a part starts exactly where the part starts.
starts_with-key_of :
    (name s : Bytes)
    → Lacks b'=' name
    → (starts_with name (key_of s) ≡ true) ↔ (take (length name) s ≡ name)
unfolding starts_with
starts_with-key_of [] s h = (λ _. ground arith, λ _. refl)
starts_with-key_of (p ∷ ps) [] h =
    unfold key_of split_once in (λ e. absurd (cc e), λ e. absurd (cc e))
starts_with-key_of (p ∷ ps) (c ∷ s) h =
    let (to, fro) = starts_with-key_of ps s h.1 in
    elim (Bool-cases (c == b'=')) [
      | inl t ↦
          let apart : p ≢ c = omega (arith, h.0, (==_iff c b'=').0 t) in
          rw (key_of-cons c s, t) (λ e. absurd (cc e), λ e. absurd (apart (cc e)))
      | inr f ↦ elim (Bool-cases (p == c)) [
        | inl same ↦
            let here : p ≡ c = (==_iff p c).0 same in
            rw (key_of-cons c s, f, same) (λ e. ground (arith, to e, here), λ e. fro (cc e))
        | inr differ ↦
            rw (key_of-cons c s, f, differ) (λ e. absurd (cc e), λ e. ground (arith, differ, e))
      ]
    ]

client-is_kept : (p : Bytes) → IsClient p → is_kept p ≡ true
unfolding is_kept
client-is_kept p c = ground (
  arith,
  c.other,
  c.other_lower,
  starts_with-key_of (codes "X-Amz-") p (omega arith),
  starts_with-key_of (codes "x-amz-") p (omega arith),
)

signing-is_kept : (p : Bytes) → IsSigning p → is_kept p ≡ false
unfolding is_kept
signing-is_kept p c = ground (
  arith,
  c.named,
  starts_with-key_of (codes "X-Amz-") p (omega arith),
  starts_with-key_of (codes "x-amz-") p (omega arith),
)

filter-signing :
    (ps qs : List Bytes) → All IsClient ps → All IsSigning qs → filter is_kept (ps ++ qs) ≡ ps
unfolding filter
filter-signing [] [] h k = refl
filter-signing [] (q ∷ qs) h k = ground (arith, signing-is_kept q k.0, filter-signing [] qs tt k.1)
filter-signing (p ∷ ps) qs h k = ground (arith, client-is_kept p h.0, filter-signing ps qs h.1 k)

-- Stripping takes off a query just the parameters whose names start with `X-Amz-` or `x-amz-`, where the
-- client's stand before them and there is one of the client's: what is left is the path and the query of
-- the client's parameters in their order.
pub strip_amz_query_params-join :
    (path : Bytes) (p : Bytes) (ps qs : List Bytes)
    → All IsClient (p ∷ ps)
    → All IsSigning qs
    → strip_amz_query_params (record { path = path; query = some (join b'&' ((p ∷ ps) ++ qs)) })
      ≡ path ++ b'?' ∷ join b'&' (p ∷ ps)
unfolding strip_amz_query_params
strip_amz_query_params-join path p ps qs h k =
    let clients : All (Lacks b'&') (p ∷ ps) = All-imp (λ q (c : IsClient q). c.whole) (p ∷ ps) h in
    let signing : All (Lacks b'&') qs = All-imp (λ q (c : IsSigning q). c.whole) qs k in
    let parts = split-join b'&' ((p ∷ ps) ++ qs) (cc) (All-append _ (p ∷ ps) qs clients signing) in
    ap (λ l. with_query path (filter is_kept l)) parts
    ∙ ap (with_query path) (filter-signing (p ∷ ps) qs h k)

-- Without any other parameter the path is left.
pub strip_amz_query_params-none :
    (path : Bytes) (q : Bytes) (qs : List Bytes)
    → All IsSigning (q ∷ qs)
    → strip_amz_query_params (record { path = path; query = some (join b'&' (q ∷ qs)) }) ≡ path
unfolding strip_amz_query_params
strip_amz_query_params-none path q qs k =
    let signing : All (Lacks b'&') (q ∷ qs) = All-imp (λ r (c : IsSigning r). c.whole) (q ∷ qs) k in
    ap (λ l. with_query path (filter is_kept l)) (split-join b'&' (q ∷ qs) (cc) signing)
    ∙ ap (with_query path) (filter-signing [] (q ∷ qs) tt k)

abbrev hex_upper : ℕ → ℕ
hex_upper n = if ltb n 10 then n + 48 else n + 55

abbrev is_unreserved : ℕ → Bool
is_unreserved c =
    (leb b'0' c && leb c b'9')
    || ((leb b'A' c && leb c b'Z')
        || ((leb b'a' c && leb c b'z') || (c == b'-' || (c == b'.' || (c == b'_' || c == b'~')))))

-- The percent-encoding of RFC 3986: the unreserved bytes stand for themselves.
abbrev pub percent_encode : Bytes → Bytes
percent_encode [] = []
percent_encode (c ∷ s) =
    let rest = percent_encode s in
    if is_unreserved c then c ∷ rest else b'%' ∷ hex_upper (c / 16) ∷ hex_upper (c % 16) ∷ rest

decode_plain : (c : ℕ) (s : Bytes) → c ≢ b'%' → decode_bytes (c ∷ s) ≡ c ∷ decode_bytes s
unfolding decode_bytes escape
decode_plain c [] h = refl
decode_plain c (a ∷ []) h = refl
decode_plain c (a ∷ b ∷ s) h = ground arith

escape_byte : (c : ℕ) → c < 256 → escape b'%' (hex_upper (c / 16)) (hex_upper (c % 16)) ≡ some c
unfolding escape hex_nibble hex_value
escape_byte c h = ground arith

decode_escaped :
    (c : ℕ) (s : Bytes)
    → c < 256
    → decode_bytes (b'%' ∷ hex_upper (c / 16) ∷ hex_upper (c % 16) ∷ s) ≡ c ∷ decode_bytes s
unfolding decode_bytes
decode_escaped c s h = rw (escape_byte c h, decode_bytes) refl

decode_bytes-encode : (s : Bytes) → All (λ c. c < 256) s → decode_bytes (percent_encode s) ≡ s
decode_bytes-encode [] h = unfold decode_bytes in refl
decode_bytes-encode (c ∷ s) h = ground (
  arith,
  decode_plain c (percent_encode s),
  decode_escaped c (percent_encode s),
  decode_bytes-encode s h.1,
)

first_part_size : (a : ℕ) (s : Bytes) (n : ℕ) → first_part a s ≡ good n → 1 ≤ n
unfolding first_part
first_part_size a [] n h = ground arith
first_part_size a (b ∷ []) n h = ground arith
first_part_size a (b ∷ c ∷ []) n h = ground arith
first_part_size a (b ∷ c ∷ d ∷ s) n h = ground arith

mend_valid : (fuel : ℕ) (s : Bytes) → length s ≤ fuel → is_valid fuel s ≡ true → mend fuel s ≡ s
unfolding mend is_valid
mend_valid zero [] h v = refl
mend_valid zero (a ∷ s) h v = absurd (omega arith)
mend_valid (suc fuel) [] h v = refl
mend_valid (suc fuel) (a ∷ s) h v = by_part (mend_valid fuel) (first_part a s) refl v
  where
    by_part :
        ((r : Bytes) → length r ≤ fuel → is_valid fuel r ≡ true → mend fuel r ≡ r)
        → (p : Part) → first_part a s ≡ p
        → passes p (λ n. is_valid fuel (drop n (a ∷ s))) ≡ true
        → emit p (a ∷ s) (λ n. mend fuel (drop n (a ∷ s))) ≡ a ∷ s
    by_part ih (good n) e w =
        let shorter : length (drop n (a ∷ s)) ≤ fuel =
          omega (arith, length-drop n (a ∷ s), first_part_size a s n e) in
        rw (ih (drop n (a ∷ s)) shorter w) (take-append-drop n (a ∷ s))
    by_part ih (bad n) e w = absurd (cc w)

-- A value of bytes that is UTF-8 is the same after percent-encoding, as RFC 3986 has it, and
-- `percent_decode`.
pub percent_decode-encode :
    (s : Bytes) → All (λ c. c < 256) s → is_utf8 s ≡ true → percent_decode (percent_encode s) ≡ s
unfolding percent_decode is_utf8 from_utf8_lossy
percent_decode-encode s h v = rw (decode_bytes-encode s h) (mend_valid (length s) s (omega arith) v)
