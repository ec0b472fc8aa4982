-- ===== src/Auth/Query.antt =====
-- crates/openlake_server/src/auth.rs: presigned requests, whose signature stands in the query. A `Uri`
-- of the http crate is what its `path` and `query` return; a time is in nanoseconds of the epoch.
use openlake.Prelude.{
  ℕ, ◌+◌, ◌-◌, ◌*◌, ◌^◌, Bool, false, not, ◌&&◌, ◌||◌, Option, none, some, List, [], ◌∷◌, ◌++◌,
  ◌==◌, ltb, leb, if◌then◌else◌,
}
use openlake.Prelude.Int.{ℤ, pos, negsuc}
use openlake.Erasure.Codec.{Bytes}
use openlake.Errors.{Result, ok, err, ◌>>=◌, ◌>>◌, guard, ok_or}
use openlake.Kv.Slots.{bytes_eq}
use openlake.XlMeta.Uuid.{hex_value}
use openlake.Auth.Failures.{AuthError, malformed_presigned, bad_date, bad_algorithm, bad_expires}
use openlake.Auth.Text.{
  codes, split, join, split_once, starts_with, to_ascii_lowercase, filter, is_empty,
}
use openlake.Auth.Utf8.{from_utf8_lossy}
use openlake.Auth.Header.{algorithm, scope_of, header_names}

pub record Uri : Type 0 where
  pub path : Bytes
  pub query : Option Bytes

pub record PresignedQuery : Type 0 where
  pub access_key : Bytes
  pub scope_date : Bytes
  pub scope_region : Bytes
  pub scope_service : Bytes
  pub signed_headers : List Bytes
  pub signature : Bytes
  pub request_time : ℕ
  pub expires : ℕ

abbrev pub seconds : ℕ → ℕ
seconds n = n * 10 ^ 9

abbrev to_time : ℤ → Result AuthError ℕ
to_time (pos n) = ok (seconds n)
to_time (negsuc n) = err (bad_date "{s:?}: pre-epoch")

-- `key` of a pair: what stands before the `=`, or all of it.
unfoldable pub key_of : Bytes → Bytes
unfolding split_once
key_of pair = elim (split_once b'=' pair) [ some (k, v) ↦ k | none ↦ pair ]

unfoldable pub any {ℓ} : {A : Type ℓ} → (A → Bool) → List A → Bool
any p [] = false
any p (x ∷ xs) = p x || any p xs

unfoldable pub is_algorithm_pair : Bytes → Bool
unfolding key_of to_ascii_lowercase
is_algorithm_pair pair =
    bytes_eq.beq (to_ascii_lowercase (key_of pair)) (to_ascii_lowercase (codes "X-Amz-Algorithm"))

unfoldable pub has_presigned_query_params : Uri → Bool
unfolding any is_algorithm_pair split
has_presigned_query_params uri = elim uri.query [
  | none ↦ false
  | some q ↦ any is_algorithm_pair (split b'&' q)
]

unfoldable pub hex_nibble : ℕ → Option ℕ
unfolding hex_value
hex_nibble b = hex_value b

abbrev both : Option ℕ → Option ℕ → Option ℕ
both none o = none
both (some hi) none = none
both (some hi) (some lo) = some (hi * 16 + lo)

-- The byte that `%ab` stands for.
unfoldable pub escape : ℕ → ℕ → ℕ → Option ℕ
unfolding hex_nibble
escape c a b = if c == b'%' then both (hex_nibble a) (hex_nibble b) else none

-- The loop of `percent_decode`: `i + 2 < bytes.len()` holds where two more bytes follow.
unfoldable pub decode_bytes : Bytes → Bytes
unfolding escape
decode_bytes [] = []
decode_bytes (c ∷ []) = c ∷ []
decode_bytes (c ∷ a ∷ []) = c ∷ a ∷ []
decode_bytes (c ∷ a ∷ b ∷ s) = elim (escape c a b) [
  | some v ↦ v ∷ decode_bytes s
  | none ↦ c ∷ decode_bytes (a ∷ b ∷ s)
]

unfoldable pub percent_decode : Bytes → Bytes
unfolding decode_bytes from_utf8_lossy
percent_decode s = from_utf8_lossy (decode_bytes s)

-- The variables of the loop over the pairs.
pub record Found : Type 0 where
  pub algorithm : Option Bytes
  pub credential : Option Bytes
  pub date : Option Bytes
  pub expires : Option Bytes
  pub signed_hdrs : Option Bytes
  pub signature : Option Bytes

abbrev pub nothing_found : Found
nothing_found = record {
  algorithm = none;
  credential = none;
  date = none;
  expires = none;
  signed_hdrs = none;
  signature = none;
}

unfoldable pub note : Bytes → Bytes → Found → Found
note k v f =
    if bytes_eq.beq k (codes "X-Amz-Algorithm")
    then record f { algorithm = some v }
    else if bytes_eq.beq k (codes "X-Amz-Credential")
    then record f { credential = some v }
    else if bytes_eq.beq k (codes "X-Amz-Date")
    then record f { date = some v }
    else if bytes_eq.beq k (codes "X-Amz-Expires")
    then record f { expires = some v }
    else if bytes_eq.beq k (codes "X-Amz-SignedHeaders")
    then record f { signed_hdrs = some v }
    else if bytes_eq.beq k (codes "X-Amz-Signature")
    then record f { signature = some v }
    else f

unfoldable pub note_pair : Bytes → Found → Found
unfolding split_once note percent_decode
note_pair pair f = elim (split_once b'=' pair) [
  | some (k, v) ↦ note k (percent_decode v) f
  | none ↦ f
]

unfoldable pub note_pairs : List Bytes → Found → Found
unfolding note_pair
note_pairs [] f = f
note_pairs (p ∷ ps) f = note_pairs ps (note_pair p f)

abbrev digits : Bytes → ℕ → Option ℕ
digits [] n = some n
digits (c ∷ s) n =
    let next = n * 10 + (c - b'0') in
    if not (leb b'0' c && leb c b'9') || leb (2 ^ 64) next then none else digits s next

-- `str::parse::<u64>`, which takes a plus sign before the digits.
unfoldable pub parse_u64 : Bytes → Option ℕ
parse_u64 [] = none
parse_u64 (c ∷ []) = digits (c ∷ []) 0
parse_u64 (c ∷ d ∷ s) = if c == b'+' then digits (d ∷ s) 0 else digits (c ∷ d ∷ s) 0

-- `timestamp` is what the time crate reads off `YYYYMMDDTHHMMSSZ`, in seconds.
module _ (timestamp : Bytes → Option ℤ) where
  unfoldable pub parse_amz_date : Bytes → Result AuthError ℕ
  parse_amz_date s = ok_or (timestamp s) (bad_date "{s:?}: {e}") >>= to_time

  unfoldable pub parse_found : Found → Result AuthError PresignedQuery
  unfolding parse_amz_date scope_of header_names parse_u64
  parse_found f = do
    alg ← ok_or f.algorithm (malformed_presigned "X-Amz-Algorithm missing")
    credential ← ok_or f.credential (malformed_presigned "X-Amz-Credential missing")
    date ← ok_or f.date (malformed_presigned "X-Amz-Date missing")
    expires_raw ← ok_or f.expires (malformed_presigned "X-Amz-Expires missing")
    signed ← ok_or f.signed_hdrs (malformed_presigned "X-Amz-SignedHeaders missing")
    signature ← ok_or f.signature (malformed_presigned "X-Amz-Signature missing")
    guard (bytes_eq.beq alg algorithm) (bad_algorithm alg)
    expires ← ok_or (parse_u64 expires_raw) (malformed_presigned "X-Amz-Expires not an integer")
    guard (not (expires == 0 || ltb 604800 expires)) (bad_expires expires)
    scope ←
        ok_or (scope_of (split b'/' credential))
          (malformed_presigned "X-Amz-Credential scope has wrong shape")
    guard (not (is_empty (header_names signed)))
        (malformed_presigned "X-Amz-SignedHeaders must list >=1 header")
    request_time ← parse_amz_date date
    ok (record {
      access_key = scope.access_key;
      scope_date = scope.scope_date;
      scope_region = scope.scope_region;
      scope_service = scope.scope_service;
      signed_headers = header_names signed;
      signature = signature;
      request_time = request_time;
      expires = expires;
    })

  unfoldable pub parse_presigned_query : Uri → Result AuthError PresignedQuery
  unfolding parse_found note_pairs
  parse_presigned_query uri = do
    raw_query ← ok_or uri.query (malformed_presigned "missing query string")
    parse_found (note_pairs (split b'&' raw_query) nothing_found)

-- The test of the filter: the pair is not one of the signature's.
unfoldable pub is_kept : Bytes → Bool
unfolding key_of starts_with
is_kept pair =
    not (starts_with (codes "X-Amz-") (key_of pair))
    && not (starts_with (codes "x-amz-") (key_of pair))

abbrev pub with_query : Bytes → List Bytes → Bytes
with_query path [] = path
with_query path (p ∷ ps) = path ++ b'?' ∷ join b'&' (p ∷ ps)

unfoldable pub strip_amz_query_params : Uri → Bytes
unfolding is_kept split filter join
strip_amz_query_params uri = elim uri.query [
  | none ↦ uri.path
  | some q ↦ with_query uri.path (filter is_kept (split b'&' q))
]
