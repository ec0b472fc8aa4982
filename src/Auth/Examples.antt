-- ===== src/Auth/Examples.antt =====
-- Requests signed by a stand-in for the signer, which gives the same signature whatever it signs.
use openlake.Prelude.{inl, ◌≡◌, ◌↔◌, refl, String, true, Option, none, some, [], ◌∷◌, arith}
use openlake.Prelude.Int.{ℤ, pos}
use openlake.Prelude.Maps.{get}
use openlake.Erasure.Codec.{Bytes}
use openlake.Errors.{Result, ok}
use openlake.Kv.Slots.{bytes_eq}
use openlake.Auth.Text.{codes, join, trim_start, trim_end, trim, to_ascii_lowercase}
use openlake.Auth.Utf8.{is_utf8}
use openlake.Auth.Header.{ParsedAuth, AuthState, parse_authorization}
use openlake.Auth.HeaderRoundTrip.{
  IsWritable, IsPart, IsName, parse_authorization-authorization_text,
}
use openlake.Auth.Query.{
  Uri, PresignedQuery, seconds, percent_decode, is_kept, strip_amz_query_params,
}
use openlake.Auth.QueryFacts.{strip_amz_query_params-join, percent_decode-encode}
use openlake.Auth.Verify.{
  Signer, SigningSettings, Signable, single, no_header, enabled, exclude, in_headers,
  verify_presigned, constant_time_eq,
}
use openlake.Auth.Compare.{constant_time_eq_lem}
use openlake.Auth.Check.{Request, run_check}
use openlake.Auth.Sound.{IsValid, IsSigned, verify_presigned_lem, run_check-IsSigned}

abbrev parsed : ParsedAuth
parsed = record {
  access_key = codes "AK";
  scope_date = codes "20260101";
  scope_region = codes "us";
  scope_service = codes "s3";
  signed_headers = codes "host" ∷ codes "x-amz-date" ∷ [];
  signature = codes "ab";
}

IsPart_key : IsPart (codes "AK")
IsPart_key = record { no_slash = omega arith; no_comma = omega arith; solid = ground arith }

IsPart_date : IsPart (codes "20260101")
IsPart_date = record { no_slash = omega arith; no_comma = omega arith; solid = ground arith }

IsPart_region : IsPart (codes "us")
IsPart_region = record { no_slash = omega arith; no_comma = omega arith; solid = ground arith }

IsPart_service : IsPart (codes "s3")
IsPart_service = record { no_slash = omega arith; no_comma = omega arith; solid = ground arith }

IsName-host : IsName (codes "host")
unfolding to_ascii_lowercase
IsName-host = record {
  named = refl;
  no_semicolon = omega arith;
  no_comma = omega arith;
  solid = ground arith;
  lowered = refl;
}

IsName-date : IsName (codes "x-amz-date")
unfolding to_ascii_lowercase
IsName-date = record {
  named = refl;
  no_semicolon = omega arith;
  no_comma = omega arith;
  solid = ground arith;
  lowered = refl;
}

parsed-IsWritable : IsWritable parsed
unfolding trim_end
parsed-IsWritable = record {
  key = IsPart_key;
  date = IsPart_date;
  region = IsPart_region;
  service = IsPart_service;
  some_name = refl;
  names = (IsName-host, (IsName-date, tt));
  no_comma = omega arith;
  trimmed = refl;
}

parse_authorization-authorization_text_example :
    parse_authorization (
      codes
        "AWS4-HMAC-SHA256 Credential=AK/20260101/us/s3/aws4_request, SignedHeaders=host;x-amz-date, Signature=ab")
    ≡ ok parsed
unfolding join
parse_authorization-authorization_text_example =
    parse_authorization-authorization_text parsed parsed-IsWritable

strip_amz_query_params-join_example :
    strip_amz_query_params (record {
      path = codes "/b/k";
      query = some (codes "versionId=7&X-Amz-Date=20260101T000000Z&X-Amz-Signature=ab");
    })
    ≡ codes "/b/k?versionId=7"
unfolding join is_kept
strip_amz_query_params-join_example =
    strip_amz_query_params-join (codes "/b/k") (codes "versionId=7") []
      (codes "X-Amz-Date=20260101T000000Z" ∷ codes "X-Amz-Signature=ab" ∷ [])
      (
        record { whole = omega arith; other = λ e. ground arith; other_lower = λ e. ground arith },
        tt,
      )
      (
        record { whole = omega arith; named = inl refl },
        (record { whole = omega arith; named = inl refl }, tt),
      )

percent_decode-encode_example : percent_decode (codes "AK%2F%C3%A9") ≡ 65 ∷ 75 ∷ 47 ∷ 195 ∷ 169 ∷ []
unfolding is_utf8
percent_decode-encode_example =
    percent_decode-encode (65 ∷ 75 ∷ 47 ∷ 195 ∷ 169 ∷ []) (omega arith) refl

constant_time_eq_lem_example :
    (constant_time_eq (codes "ab") (codes "aB") ≡ true) ↔ (codes "ab" ≡ codes "aB")
constant_time_eq_lem_example = constant_time_eq_lem (codes "ab") (codes "aB")

abbrev default : SigningSettings
default = record {
  percent_encoding_mode = single;
  payload_checksum_kind = no_header;
  uri_path_normalization_mode = enabled;
  session_token_mode = exclude;
  excluded_headers = none;
  signature_location = in_headers;
  expires_in = none;
}

abbrev sign : Signer → SigningSettings → Signable → Result String Bytes
sign by settings request = ok (codes "ab")

abbrev query : PresignedQuery
query = record {
  access_key = codes "AK";
  scope_date = codes "20260101";
  scope_region = codes "us";
  scope_service = codes "s3";
  signed_headers = codes "host" ∷ [];
  signature = codes "ab";
  request_time = seconds 1000;
  expires = 60;
}

abbrev no_headers : Bytes → Option Bytes
no_headers name = none

abbrev uri : Uri
uri = record { path = codes "/b/k"; query = none }

verify_presigned_lem_example :
    (verify_presigned default sign
        (seconds 1030)
        (codes "GET")
        uri
        no_headers
        query
        (codes "secret")
        (codes "us")
      ≡ ok tt)
    ↔ IsValid sign default
        (seconds 1030)
        (codes "GET")
        uri
        no_headers
        query
        (codes "secret")
        (codes "us")
verify_presigned_lem_example =
    verify_presigned_lem default sign (seconds 1030) (codes "GET") uri no_headers query
      (codes "secret") (codes "us")

abbrev timestamp : Bytes → Option ℤ
timestamp s = some (pos 1000)

abbrev state : AuthState
state = record { region = codes "us"; keys = (codes "AK", codes "secret") ∷ [] }

abbrev header_of : Bytes → Option (Option Bytes)
header_of name = get name (
    (
      codes "authorization",
      some (
          codes
            "AWS4-HMAC-SHA256 Credential=AK/20260101/us/s3/aws4_request, SignedHeaders=host, Signature=ab"),
    )
    ∷ (codes "x-amz-date", some (codes "20260101T000000Z"))
    ∷ [])

abbrev request : Request
request = record {
  method = codes "GET";
  uri = uri;
  path_and_query = codes "/b/k";
  headers = header_of;
}

passes : run_check timestamp default sign (seconds 1030) state request ≡ ok tt
unfolding run_check get trim_start trim
passes = refl

run_check-IsSigned_example : IsSigned timestamp sign (seconds 1030) state request
run_check-IsSigned_example =
    run_check-IsSigned timestamp default sign (seconds 1030) state request passes
