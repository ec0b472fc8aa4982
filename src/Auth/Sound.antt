-- ===== src/Auth/Sound.antt =====
-- crates/openlake_server/src/auth.rs and crates/openlake_server/src/s3/middleware/sigv4.rs: what a
-- request that passes has shown.
use openlake.Prelude.{
  ℕ, ◌+◌, ◌-◌, ◌≤◌, ◌≡◌, ◌↔◌, inl, inr, refl, ap, ◌∙◌, String, Bool, not, ◌&&◌, ◌||◌, Option, none,
  some, length, take, ◌==◌, ltb, leb, if◌then◌else◌, arith, Bool-cases, if-elim,
}
use openlake.Prelude.Int.{ℤ}
use openlake.Erasure.Codec.{Bytes}
use openlake.Errors.{Result, ok, err, ◌>>=◌, ok_or, map_err}
use openlake.Kv.Slots.{bytes_eq}
use openlake.XlMeta.RoundTrip.Validity.{guard_then, guard_ok, bind_ok}
use openlake.Auth.Failures.{AuthError, signer, signature_mismatch}
use openlake.Auth.Text.{codes, split, is_empty}
use openlake.Auth.Header.{
  scope_of, header_names, algorithm, ParsedAuth, AuthState, secret_for, parse_authorization,
}
use openlake.Auth.Query.{
  Uri, PresignedQuery, seconds, strip_amz_query_params, parse_presigned_query, parse_amz_date,
  Found, nothing_found, note_pairs, parse_found, parse_u64,
}
use openlake.Auth.Verify.{
  SigningSettings, SignableBody, unsigned_payload, in_query_params, Signer, Signable, service,
  max_clock_skew, check_skew, constant_time_eq, filter_headers, s3_signing_settings, verify_seed,
  verify_presigned,
}
use openlake.Auth.Check.{
  Request, header_text, signable_body_from_headers, run_presigned, run_header, run_check,
}
use openlake.Auth.Compare.{constant_time_eq_lem}

abbrev outcome : Result String Bytes → Bytes → Result AuthError (Unit {0})
outcome o given = map_err signer o >>= λ output.
    if constant_time_eq output given then ok tt else err signature_mismatch

-- The last step of both checks passes exactly if the signer gives the signature of the request.
outcome_iff : (o : Result String Bytes) (given : Bytes) → (outcome o given ≡ ok tt) ↔ (o ≡ ok given)
outcome_iff (err e) given = (λ h. absurd (cc h), λ h. absurd (cc h))
outcome_iff (ok output) given =
    let (to, fro) = constant_time_eq_lem output given in
    (
      λ h. elim (Bool-cases (constant_time_eq output given)) [
        | inl t ↦ ap ok (to t)
        | inr f ↦ absurd (ground arith)
      ],
      λ h. let same : output ≡ given = cc h in rw (fro same) refl,
    )

abbrev header_signer : ParsedAuth → Bytes → Bytes → ℕ → Signer
header_signer p secret region time = record {
  access_key = p.access_key;
  secret = secret;
  region = region;
  name = service;
  time = time;
}

-- What a request with a header that passes has signed.
verify_seed_ok :
    (default : SigningSettings) (sign : Signer → SigningSettings → Signable → Result String Bytes)
    (method path_and_query : Bytes) (headers : Bytes → Option Bytes) (p : ParsedAuth)
    (secret region : Bytes) (time : ℕ) (body : SignableBody)
    → verify_seed default sign method path_and_query headers p secret region time body ≡ ok tt
    → sign (header_signer p secret region time) (s3_signing_settings default) (record {
      method = method;
      path_and_query = path_and_query;
      headers = filter_headers headers p.signed_headers;
      body = body;
    })
      ≡ ok p.signature
unfolding verify_seed
verify_seed_ok default sign method path_and_query headers p secret region time body h =
    let (_, h1) = guard_then (bytes_eq.beq p.scope_region region) _ _ tt h in
    let (_, h2) = guard_then (bytes_eq.beq p.scope_service service) _ _ tt h1 in
    (outcome_iff _ p.signature).0 h2

-- What `verify_presigned` asks.
pub record IsValid (sign : Signer → SigningSettings → Signable → Result String Bytes)
    (default : SigningSettings) (now : ℕ) (method : Bytes) (uri : Uri)
    (headers : Bytes → Option Bytes) (parsed : PresignedQuery) (secret server_region : Bytes)
    : Type 0 where
  pub region : parsed.scope_region ≡ server_region
  pub for_s3 : parsed.scope_service ≡ service
  pub dated : length parsed.scope_date ≡ 8
  pub begun : parsed.request_time ≤ now + max_clock_skew
  pub unexpired : now ≤ parsed.request_time + seconds parsed.expires
  pub signed :
      sign
        (record {
          access_key = parsed.access_key;
          secret = secret;
          region = server_region;
          name = service;
          time = parsed.request_time;
        })
        (record (s3_signing_settings default) {
          signature_location = in_query_params;
          expires_in = some (seconds parsed.expires);
        })
        (record {
          method = method;
          path_and_query = strip_amz_query_params uri;
          headers = filter_headers headers parsed.signed_headers;
          body = unsigned_payload;
        })
      ≡ ok parsed.signature

abbrev is_dated : PresignedQuery → Bool
is_dated p = not (ltb (length p.scope_date) 8 || ltb 8 (length p.scope_date))

abbrev has_begun : ℕ → PresignedQuery → Bool
has_begun now p = not (leb now p.request_time && ltb max_clock_skew (p.request_time - now))

abbrev not_over : ℕ → PresignedQuery → Bool
not_over now p = not (ltb (p.request_time + seconds p.expires) now)

-- `verify_presigned` passes exactly the requests whose scope names the region of the server, the service
-- and a date of eight bytes, whose time is at most the allowed skew ahead of the clock, whose lifetime is
-- not over, and whose signature is the one that the signer gives under the stored secret for the query
-- without its `X-Amz-` parameters.
pub verify_presigned_lem :
    (default : SigningSettings) (sign : Signer → SigningSettings → Signable → Result String Bytes)
    (now : ℕ) (method : Bytes) (uri : Uri) (headers : Bytes → Option Bytes)
    (parsed : PresignedQuery) (secret server_region : Bytes)
    → (verify_presigned default sign now method uri headers parsed secret server_region ≡ ok tt)
      ↔ IsValid sign default now method uri headers parsed secret server_region
unfolding verify_presigned
verify_presigned_lem default sign now method uri headers parsed secret server_region = (to, from)
  where
    to :
        verify_presigned default sign now method uri headers parsed secret server_region ≡ ok tt
        → IsValid sign default now method uri headers parsed secret server_region
    to h =
        let (a, h1) = guard_then (bytes_eq.beq parsed.scope_region server_region) _ _ tt h in
        let (b, h2) = guard_then (bytes_eq.beq parsed.scope_service service) _ _ tt h1 in
        let (c, h3) = guard_then (is_dated parsed) _ _ tt h2 in
        let (d, h4) = guard_then (has_begun now parsed) _ _ tt h3 in
        let (e, h5) = guard_then (not_over now parsed) _ _ tt h4 in
        record {
          region = (bytes_eq.beq_iff _ _).0 a;
          for_s3 = (bytes_eq.beq_iff _ _).0 b;
          dated = ground arith;
          begun = ground arith;
          unexpired = ground arith;
          signed = (outcome_iff _ parsed.signature).0 h5;
        }

    from :
        IsValid sign default now method uri headers parsed secret server_region
        → verify_presigned default sign now method uri headers parsed secret server_region ≡ ok tt
    from v = guard_ok _ ((bytes_eq.beq_iff _ _).1 v.region) (
        guard_ok _ ((bytes_eq.beq_iff _ _).1 v.for_s3) (
          guard_ok {b = is_dated parsed} _ (ground (arith, v.dated)) (
            guard_ok {b = has_begun now parsed} _ (ground (arith, v.begun)) (
              guard_ok {b = not_over now parsed} _ (ground (arith, v.unexpired))
                ((outcome_iff _ parsed.signature).1 v.signed)))))

check_skew_ok :
    (now t : ℕ) → check_skew now t ≡ ok tt → (t ≤ now + max_clock_skew) × (now ≤ t + max_clock_skew)
unfolding check_skew
check_skew_ok now t h = ground arith

pub ok_or_ok : {A : Type 0} (o : Option A) (e : AuthError) (a : A) → ok_or o e ≡ ok a → o ≡ some a
ok_or_ok none e a h = absurd (cc h)
ok_or_ok (some b) e a h = let same : b ≡ a = cc h in ap some same

-- `expires` of a query that was parsed, and the number where it was not.
abbrev lifetime : ℕ → Result AuthError PresignedQuery → ℕ
lifetime n (ok p) = p.expires
lifetime n (err e) = n

found_bound :
    (timestamp : Bytes → Option ℤ) (f : Found) (p : PresignedQuery)
    → parse_found timestamp f ≡ ok p
    → p.expires ≤ 604800
unfolding parse_found
found_bound timestamp f p h =
    let (alg, _, h1) = bind_ok (ok_or f.algorithm _) _ p h in
    let (credential, _, h2) = bind_ok (ok_or f.credential _) _ p h1 in
    let (date, _, h3) = bind_ok (ok_or f.date _) _ p h2 in
    let (raw, _, h4) = bind_ok (ok_or f.expires _) _ p h3 in
    let (signed, _, h5) = bind_ok (ok_or f.signed_hdrs _) _ p h4 in
    let (signature, _, h6) = bind_ok (ok_or f.signature _) _ p h5 in
    let (_, h7) = guard_then (bytes_eq.beq alg algorithm) _ _ p h6 in
    let (expires, _, h8) = bind_ok (ok_or (parse_u64 raw) _) _ p h7 in
    let (bounded, h9) = guard_then (not (expires == 0 || ltb 604800 expires)) _ _ p h8 in
    let (scope, _, h10) = bind_ok (ok_or (scope_of (split b'/' credential)) _) _ p h9 in
    let (_, h11) = guard_then (not (is_empty (header_names signed))) _ _ p h10 in
    let (time, _, h12) = bind_ok (parse_amz_date timestamp date) _ p h11 in
    let same : expires ≡ p.expires = ap (lifetime expires) h12 in rw (← same) (ground arith)

-- A lifetime that a query can ask for is at most seven days.
expires_bound :
    (timestamp : Bytes → Option ℤ) (uri : Uri) (p : PresignedQuery)
    → parse_presigned_query timestamp uri ≡ ok p
    → p.expires ≤ 604800
unfolding parse_presigned_query
expires_bound timestamp uri p h =
    let (raw, _, h1) = bind_ok (ok_or uri.query _) _ p h in
    found_bound timestamp (note_pairs (split b'&' raw) nothing_found) p h1

-- The request carries the signature, in its query or in its header.
pub data Carries (timestamp : Bytes → Option ℤ) (req : Request) (signature : Bytes) : Type 0 where
  presigned :
      (p : PresignedQuery)
      → parse_presigned_query timestamp req.uri ≡ ok p
      → p.signature ≡ signature
      → Carries timestamp req signature
  header :
      (value : Bytes) (p : ParsedAuth)
      → req.headers (codes "authorization") ≡ some (some value)
      → parse_authorization value ≡ ok p
      → p.signature ≡ signature
      → Carries timestamp req signature

-- The request carries a signature that the signer gives, for its method, under a key that the server
-- knows and for the server's region, of a time that is at most the allowed skew ahead of the clock and at
-- most seven days and the skew behind it.
pub record IsSigned (timestamp : Bytes → Option ℤ)
    (sign : Signer → SigningSettings → Signable → Result String Bytes) (now : ℕ) (state : AuthState)
    (req : Request) : Type 0 where
  pub signature : Bytes
  pub carried : Carries timestamp req signature
  pub by : Signer
  pub settings : SigningSettings
  pub request : Signable
  pub known : secret_for state by.access_key ≡ some by.secret
  pub region : by.region ≡ state.region
  pub for_s3 : by.name ≡ service
  pub method : request.method ≡ req.method
  pub signed : sign by settings request ≡ ok signature
  pub begun : by.time ≤ now + max_clock_skew
  pub fresh : now ≤ by.time + seconds 604800

module _ (timestamp : Bytes → Option ℤ) (default : SigningSettings)
    (sign : Signer → SigningSettings → Signable → Result String Bytes) (now : ℕ) (state : AuthState)
    (req : Request) where
  run_presigned-IsSigned :
      run_presigned timestamp default sign now state req ≡ ok tt
      → IsSigned timestamp sign now state req
  unfolding run_presigned
  run_presigned-IsSigned h =
      let (p, parsed, h1) = bind_ok (parse_presigned_query timestamp req.uri) _ tt h in
      let (secret, known, h2) = bind_ok (ok_or (secret_for state p.access_key) _) _ tt h1 in
      let v =
        (verify_presigned_lem default sign now req.method req.uri (header_text req) p secret
            state.region).0
          h2 in
      record {
        signature = p.signature;
        carried = presigned p parsed refl;
        by = _;
        settings = _;
        request = _;
        known = ok_or_ok _ _ _ known;
        region = refl;
        for_s3 = refl;
        method = refl;
        signed = v.signed;
        begun = v.begun;
        fresh = omega (arith, v.unexpired, expires_bound timestamp req.uri p parsed);
      }

  abbrev same_date : ParsedAuth → Bytes → Bool
  same_date p amz_date =
      not (ltb (length amz_date) 8) && bytes_eq.beq p.scope_date (take 8 amz_date)

  run_header-IsSigned :
      run_header timestamp default sign now state req ≡ ok tt
      → IsSigned timestamp sign now state req
  unfolding run_header
  run_header-IsSigned h =
      let (raw, present, h1) = bind_ok (ok_or (req.headers (codes "authorization")) _) _ tt h in
      let (value, ascii, h2) = bind_ok (ok_or raw _) _ tt h1 in
      let (p, parsed, h3) = bind_ok (parse_authorization value) _ tt h2 in
      let (date, _, h4) = bind_ok (ok_or (req.headers (codes "x-amz-date")) _) _ tt h3 in
      let (amz_date, _, h5) = bind_ok (ok_or date _) _ tt h4 in
      let (time, _, h6) = bind_ok (parse_amz_date timestamp amz_date) _ tt h5 in
      let (_, skew, h7) = bind_ok (check_skew now time) _ tt h6 in
      let (_, h8) = guard_then (same_date p amz_date) _ _ tt h7 in
      let (secret, known, h9) = bind_ok (ok_or (secret_for state p.access_key) _) _ tt h8 in
      let (body, _, h10) = bind_ok (signable_body_from_headers req) _ tt h9 in
      let (begun, fresh) = check_skew_ok now time skew in
      record {
        signature = p.signature;
        carried =
            header value p (ok_or_ok _ _ _ present ∙ ap some (ok_or_ok _ _ _ ascii)) parsed refl;
        by = header_signer p secret state.region time;
        settings = s3_signing_settings default;
        request = _;
        known = ok_or_ok _ _ _ known;
        region = refl;
        for_s3 = refl;
        method = refl;
        signed =
            verify_seed_ok default sign req.method req.path_and_query (header_text req) p secret
              state.region time body h10;
        begun = begun;
        fresh = omega arith;
      }

  -- A request passes the check only if it carries a signature that the signer gives, for its method, under
  -- the secret of a key that the server knows and for the server's region, at a time that is at most 15
  -- minutes ahead of the server's clock and at most seven days behind it.
  pub run_check-IsSigned :
      run_check timestamp default sign now state req ≡ ok tt → IsSigned timestamp sign now state req
  unfolding run_check
  run_check-IsSigned =
      if-elim (λ r. r ≡ ok tt → IsSigned timestamp sign now state req) _ _ _
        (λ _. run_presigned-IsSigned) (λ _. run_header-IsSigned)
