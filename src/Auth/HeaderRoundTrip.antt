-- ===== src/Auth/HeaderRoundTrip.antt =====
-- crates/openlake_server/src/auth.rs: an `Authorization` header as a client writes it is read back.
use openlake.Prelude.{
  ◌≡◌, ◌≢◌, refl, ap, ◌∙◌, false, not, some, List, [], ◌∷◌, ◌++◌, map, All, All-imp, All-append,
  arith,
}
use openlake.Erasure.Codec.{Bytes}
use openlake.Errors.{ok}
use openlake.Auth.Text.{
  codes, split, join, strip_prefix, is_space, trim_start, trim_end, trim, to_ascii_lowercase,
  is_empty,
}
use openlake.Auth.TextFacts.{
  Lacks, IsSolid, split-join, trim_end-append, trim_end-IsSolid, All-join, filter_id,
}
use openlake.Auth.Header.{
  algorithm, aws4_request, ParsedAuth, Fields, no_fields, take_piece, take_pieces, scope_of,
  header_names, parse_fields, parse_authorization,
}

abbrev pub credential_text : ParsedAuth → Bytes
credential_text a =
    join b'/' (a.access_key ∷ a.scope_date ∷ a.scope_region ∷ a.scope_service ∷ aws4_request ∷ [])

-- The header in the form that `aws_sigv4` and the other clients give it.
abbrev pub authorization_text : ParsedAuth → Bytes
authorization_text a =
    algorithm
    ++ b' '
      ∷ join b',' (
          (codes "Credential=" ++ credential_text a)
          ∷ (codes " SignedHeaders=" ++ join b';' a.signed_headers)
          ∷ (codes " Signature=" ++ a.signature)
          ∷ [])

-- A part of the credential: no slash, no comma, no white space.
pub record IsPart (p : Bytes) : Type 0 where
  pub no_slash : Lacks b'/' p
  pub no_comma : Lacks b',' p
  pub solid : IsSolid p

-- The name of a header, in lower case.
pub record IsName (h : Bytes) : Type 0 where
  pub named : is_empty h ≡ false
  pub no_semicolon : Lacks b';' h
  pub no_comma : Lacks b',' h
  pub solid : IsSolid h
  pub lowered : to_ascii_lowercase h ≡ h

pub record IsWritable (a : ParsedAuth) : Type 0 where
  pub key : IsPart a.access_key
  pub date : IsPart a.scope_date
  pub region : IsPart a.scope_region
  pub service : IsPart a.scope_service
  pub some_name : is_empty a.signed_headers ≡ false
  pub names : All IsName a.signed_headers
  pub no_comma : Lacks b',' a.signature
  pub trimmed : trim_end a.signature ≡ a.signature

map-lower : (hs : List Bytes) → All IsName hs → map to_ascii_lowercase hs ≡ hs
map-lower [] h = refl
map-lower (p ∷ hs) (n, h) = cc (n.lowered, map-lower hs h)

header_names-join :
    (hs : List Bytes) → is_empty hs ≡ false → All IsName hs → header_names (join b';' hs) ≡ hs
unfolding header_names
header_names-join hs n h =
    rw (split-join b';' hs (ground arith) (All-imp (λ p q. q.no_semicolon) hs h)) (
      rw (filter_id (λ p. not (is_empty p)) hs (All-imp (λ p q. ap not q.named) hs h))
        (map-lower hs h))

scope_of-credential :
    (a : ParsedAuth)
    → IsWritable a
    → scope_of (split b'/' (credential_text a))
      ≡ some (record {
        access_key = a.access_key;
        scope_date = a.scope_date;
        scope_region = a.scope_region;
        scope_service = a.scope_service;
      })
unfolding scope_of
scope_of-credential a w =
    rw
      (split-join b'/'
        (a.access_key ∷ a.scope_date ∷ a.scope_region ∷ a.scope_service ∷ aws4_request ∷ []) (cc)
        (
          w.key.no_slash,
          (w.date.no_slash, (w.region.no_slash, (w.service.no_slash, (omega arith, tt)))),
        ))
      refl

IsSolid-credential : (a : ParsedAuth) → IsWritable a → IsSolid (credential_text a)
IsSolid-credential a w =
    All-join (λ c. is_space c ≡ false) b'/' _ refl
      (w.key.solid, (w.date.solid, (w.region.solid, (w.service.solid, (ground arith, tt)))))

take_credential :
    (v : Bytes) (f : Fields)
    → trim_end v ≡ v
    → take_piece (trim (codes "Credential=" ++ v)) f ≡ record f { credential = some v }
unfolding take_piece trim trim_start strip_prefix
take_credential v f h = rw (trim_end-append (codes "Credential=") v (ground arith) h) refl

take_signed_headers :
    (v : Bytes) (f : Fields)
    → trim_end v ≡ v
    → take_piece (trim (codes " SignedHeaders=" ++ v)) f ≡ record f { signed_headers = some v }
unfolding take_piece trim trim_start strip_prefix
take_signed_headers v f h = rw (trim_end-append (codes "SignedHeaders=") v (ground arith) h) refl

take_signature :
    (v : Bytes) (f : Fields)
    → trim_end v ≡ v
    → take_piece (trim (codes " Signature=" ++ v)) f ≡ record f { signature = some v }
unfolding take_piece trim trim_start strip_prefix
take_signature v f h = rw (trim_end-append (codes "Signature=") v (ground arith) h) refl

-- The pieces of the header, before they are trimmed.
abbrev pieces_of : ParsedAuth → List Bytes
pieces_of a =
    (codes "Credential=" ++ credential_text a)
    ∷ (codes " SignedHeaders=" ++ join b';' a.signed_headers)
    ∷ (codes " Signature=" ++ a.signature)
    ∷ []

abbrev fields_of : ParsedAuth → Fields
fields_of a = record {
  credential = some (credential_text a);
  signed_headers = some (join b';' a.signed_headers);
  signature = some a.signature;
}

take_pieces-pieces_of :
    (a : ParsedAuth) → IsWritable a → take_pieces (pieces_of a) no_fields ≡ fields_of a
unfolding take_pieces
take_pieces-pieces_of a w =
    let names : IsSolid (join b';' a.signed_headers) =
      All-join (λ c. is_space c ≡ false) b';' a.signed_headers refl
        (All-imp (λ p q. q.solid) _ w.names) in
    rw
      (
        take_credential _ _ (trim_end-IsSolid _ (IsSolid-credential a w)),
        take_signed_headers _ _ (trim_end-IsSolid _ names),
        take_signature _ _ w.trimmed,
      )
      refl

Lacks-credential : (a : ParsedAuth) → IsWritable a → Lacks b',' (credential_text a)
Lacks-credential a w =
    All-join (λ c. c ≢ b',') b'/' _ (omega arith)
      (
        w.key.no_comma,
        (w.date.no_comma, (w.region.no_comma, (w.service.no_comma, (omega arith, tt)))),
      )

split-pieces_of :
    (a : ParsedAuth) → IsWritable a → split b',' (join b',' (pieces_of a)) ≡ pieces_of a
split-pieces_of a w = split-join b',' (pieces_of a) (cc) (
  All-append _ (codes "Credential=") _ (omega arith) (Lacks-credential a w),
  (
    All-append _ (codes " SignedHeaders=") _ (omega arith) (
        All-join (λ c. c ≢ b',') b';' a.signed_headers (omega arith)
          (All-imp (λ p q. q.no_comma) _ w.names)),
    (All-append _ (codes " Signature=") _ (omega arith) w.no_comma, tt),
  ),
)

parse_fields-fields_of : (a : ParsedAuth) → IsWritable a → parse_fields (fields_of a) ≡ ok a
unfolding parse_fields
parse_fields-fields_of a w =
    rw (scope_of-credential a w, header_names-join a.signed_headers w.some_name w.names)
      (rw w.some_name refl)

parse_authorization-opened :
    (a : ParsedAuth)
    → parse_authorization (authorization_text a)
      ≡ parse_fields (take_pieces (split b',' (join b',' (pieces_of a))) no_fields)
unfolding parse_authorization strip_prefix trim_start join
parse_authorization-opened a = refl

-- An `Authorization` header written from fields is parsed to the same fields, if the parts of the
-- credential have no slash, comma or white space, the header names are in lower case, at least one,
-- not empty and without semicolon, comma or white space, and the signature has no comma and does not
-- end in white space.
pub parse_authorization-authorization_text :
    (a : ParsedAuth) → IsWritable a → parse_authorization (authorization_text a) ≡ ok a
parse_authorization-authorization_text a w =
    parse_authorization-opened a
    ∙ rw (split-pieces_of a w, take_pieces-pieces_of a w) (parse_fields-fields_of a w)
