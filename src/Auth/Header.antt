-- ===== src/Auth/Header.antt =====
-- crates/openlake_server/src/auth.rs: `parse_authorization`, and the keys of the server.
use openlake.Prelude.{not, Option, none, some, List, [], ◌∷◌, map, if◌then◌else◌}
use openlake.Prelude.Maps.{get, insert}
use openlake.Erasure.Codec.{Bytes}
use openlake.Errors.{Result, ok, ◌>>=◌, ◌>>◌, guard, ok_or}
use openlake.Kv.Slots.{bytes_eq}
use openlake.Auth.Failures.{AuthError, malformed_auth}
use openlake.Auth.Text.{
  codes, split, strip_prefix, trim_start, trim, to_ascii_lowercase, filter, is_empty,
}

pub record Credential : Type 0 where
  pub access_key : Bytes
  pub secret_key : Bytes

pub record AuthState : Type 0 where
  pub region : Bytes
  pub keys : List (Bytes × Bytes)

unfoldable pub insert_all : List Credential → List (Bytes × Bytes) → List (Bytes × Bytes)
insert_all [] keys = keys
insert_all (c ∷ cs) keys = insert_all cs (insert c.access_key c.secret_key keys)

-- `AuthState::new`
unfoldable pub new : Bytes → List Credential → AuthState
unfolding insert_all
new region creds = record { region = region; keys = insert_all creds [] }

unfoldable pub secret_for : AuthState → Bytes → Option Bytes
secret_for state access_key = get access_key state.keys

-- `ALGORITHM`
abbrev pub algorithm : Bytes
algorithm = codes "AWS4-HMAC-SHA256"

abbrev pub aws4_request : Bytes
aws4_request = codes "aws4_request"

pub record ParsedAuth : Type 0 where
  pub access_key : Bytes
  pub scope_date : Bytes
  pub scope_region : Bytes
  pub scope_service : Bytes
  pub signed_headers : List Bytes
  pub signature : Bytes

-- The variables of the loop over the pieces.
pub record Fields : Type 0 where
  pub credential : Option Bytes
  pub signed_headers : Option Bytes
  pub signature : Option Bytes

abbrev pub no_fields : Fields
no_fields = record { credential = none; signed_headers = none; signature = none }

-- `if let Some(v) = o { f(v) } else { e }`
abbrev pub if_let {ℓ κ} : {A : Type ℓ} {B : Type κ} → Option A → (A → B) → B → B
if_let none f e = e
if_let (some v) f e = f v

-- One round of the loop, on a trimmed piece.
unfoldable pub take_piece : Bytes → Fields → Fields
take_piece piece f =
    if_let (strip_prefix (codes "Credential=") piece) (λ v. record f { credential = some v })
      (if_let (strip_prefix (codes "SignedHeaders=") piece)
        (λ v. record f { signed_headers = some v })
        (if_let (strip_prefix (codes "Signature=") piece) (λ v. record f { signature = some v }) f))

unfoldable pub take_pieces : List Bytes → Fields → Fields
unfolding take_piece
take_pieces [] f = f
take_pieces (p ∷ ps) f = take_pieces ps (take_piece (trim p) f)

pub record Scope : Type 0 where
  pub access_key : Bytes
  pub scope_date : Bytes
  pub scope_region : Bytes
  pub scope_service : Bytes

-- The five parts of a credential, the last of them `aws4_request`.
unfoldable pub scope_of : List Bytes → Option Scope
scope_of (key ∷ date ∷ region ∷ service ∷ last ∷ []) =
    if bytes_eq.beq last aws4_request
    then some (record {
      access_key = key;
      scope_date = date;
      scope_region = region;
      scope_service = service;
    })
    else none
scope_of _ = none

-- `split(';')`, without the empty names, in lower case
unfoldable pub header_names : Bytes → List Bytes
header_names s = map to_ascii_lowercase (filter (λ h. not (is_empty h)) (split b';' s))

unfoldable pub parse_fields : Fields → Result AuthError ParsedAuth
unfolding scope_of header_names
parse_fields f = do
  credential ← ok_or f.credential (malformed_auth "Credential field missing")
  signed ← ok_or f.signed_headers (malformed_auth "SignedHeaders field missing")
  signature ← ok_or f.signature (malformed_auth "Signature field missing")
  scope ←
      ok_or (scope_of (split b'/' credential)) (malformed_auth "Credential scope has wrong shape")
  guard (not (is_empty (header_names signed))) (malformed_auth "SignedHeaders must list >=1 header")
  ok (record {
    access_key = scope.access_key;
    scope_date = scope.scope_date;
    scope_region = scope.scope_region;
    scope_service = scope.scope_service;
    signed_headers = header_names signed;
    signature = signature;
  })

unfoldable pub parse_authorization : Bytes → Result AuthError ParsedAuth
unfolding take_pieces parse_fields
parse_authorization value = do
  rest ← ok_or (strip_prefix algorithm value) (malformed_auth "expected AWS4-HMAC-SHA256 algorithm")
  parse_fields (take_pieces (split b',' (trim_start rest)) no_fields)
