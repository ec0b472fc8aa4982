-- ===== src/Auth/Body/Sound.antt =====
-- crates/openlake_server/src/s3/body_source.rs and crates/openlake_server/src/auth.rs: a body that is
-- read to its end is the one that was signed.
use openlake.Prelude.{
  ℕ, zero, suc, ◌+◌, ◌-◌, ◌%◌, ◌^◌, ◌≤◌, ◌≡◌, refl, ap, sym, subst, ◌∙◌, String, Bool, true, false,
  not, Option, none, some, List, [], ◌∷◌, ◌++◌, length, take, drop, ◌==◌, ltb, leb, if◌then◌else◌,
  arith, if-elim, leb→le, length-take, nil_of_length, take_short,
}
use openlake.Erasure.Codec.{Bytes}
use openlake.Errors.{
  Result, ok, err, ◌>>=◌, map_err, Yields, Yields-bind, Yields-after, Yields-imp, Yields-guard,
  Yields_ok,
}
use openlake.Auth.Failures.{AuthError, signer, chunk_signature_mismatch}
use openlake.Auth.Text.{is_empty}
use openlake.Auth.Verify.{Signer, service, verify_chunk, constant_time_eq}
use openlake.Auth.Body.Frames.{AxumBodyStream, Fault}
use openlake.Auth.Body.Frames
use openlake.Auth.Body.Chunked
use openlake.Auth.Body.Chunked.{
  ChunkedBodyStream, extend_carry, ensure_in_carry, find_header, parse_header, stage_chunk,
  fetch_chunk, rounds, staged, fetch_payload, fetch_at, serve, serve_fetched, find_crlf, found_or,
  decode_fault,
}

abbrev pub signer_of : ChunkedBodyStream → Signer
signer_of c = record {
  access_key = c.access_key;
  secret = c.secret;
  region = c.region;
  name = service;
  time = c.request_time;
}

-- Nothing changes but the bytes that are waiting.
record Keeps (c d : ChunkedBodyStream) : Type 0 where
  by : signer_of d ≡ signer_of c
  running : d.running_sig ≡ c.running_sig
  open' : d.finished ≡ c.finished

Keeps-refl : (c : ChunkedBodyStream) → Keeps c c
Keeps-refl c = record { by = refl; running = refl; open' = refl }

Keeps-trans : {c d e : ChunkedBodyStream} → Keeps c d → Keeps d e → Keeps c e
Keeps-trans k l = record {
  by = l.by ∙ k.by;
  running = l.running ∙ k.running;
  open' = l.open' ∙ k.open';
}

extend_carry-Keeps : (msg : String) (c : ChunkedBodyStream) → Yields (Keeps c) (extend_carry msg c)
unfolding extend_carry
extend_carry-Keeps msg c = Yields-after (Keeps c) (Frames.read c.inner) _ λ (chunk, inner) _.
    if-elim (Yields (Keeps c)) (is_empty chunk) _ _ (λ _. tt)
      (λ _. record { by = refl; running = refl; open' = refl })

ensure_in_carry-Keeps :
    (fuel need : ℕ) (c : ChunkedBodyStream) → Yields (Keeps c) (ensure_in_carry fuel need c)
unfolding ensure_in_carry
ensure_in_carry-Keeps zero need c =
    if-elim (Yields (Keeps c)) (ltb (length c.carry) need) _ _ (λ _. tt) (λ _. Keeps-refl c)
ensure_in_carry-Keeps (suc fuel) need c =
    if-elim (Yields (Keeps c)) (ltb (length c.carry) need) _ _
      (λ _.
        Yields-bind (Keeps c) (extend_carry "aws-chunked: body ended mid-chunk" c)
          (ensure_in_carry fuel need) (extend_carry-Keeps _ c)
          λ d k.
            Yields-imp (ensure_in_carry fuel need d) (λ e. Keeps-trans k)
              (ensure_in_carry-Keeps fuel need d))
      (λ _. Keeps-refl c)

found_or-Keeps :
    (o : Option ℕ) (c : ChunkedBodyStream) (more : Result Fault (ℕ × ChunkedBodyStream))
    → Yields (λ f. Keeps c f.1) more
    → Yields (λ f. Keeps c f.1) (found_or o c more)
found_or-Keeps (some p) c more h = Keeps-refl c
found_or-Keeps none c more h = h

find_header-Keeps :
    (fuel : ℕ) (c : ChunkedBodyStream) → Yields (λ f. Keeps c f.1) (find_header fuel c)
unfolding find_header
find_header-Keeps zero c = found_or-Keeps (find_crlf c.carry) c _ tt
find_header-Keeps (suc fuel) c = found_or-Keeps (find_crlf c.carry) c _ (
    Yields-bind (λ f. Keeps c f.1) (extend_carry "aws-chunked: body ended before chunk header" c) _
      (extend_carry-Keeps _ c)
      λ d k.
        Yields-guard (λ f. Keeps c f.1) _ _ (find_header fuel d)
          λ _. Yields-imp (find_header fuel d) (λ f. Keeps-trans k) (find_header-Keeps fuel d))

not-not : (b : Bool) → not (not b) ≡ b
not-not true = refl
not-not false = refl

pub is_empty_lem : (xs : Bytes) → (length xs == 0) ≡ is_empty xs
is_empty_lem [] = refl
is_empty_lem (x ∷ xs) = ground arith

-- From the start of a chunk all of it is served.
pub serve_all : (n : ℕ) (xs : Bytes) → n ≡ 0 → take (length xs - n) (drop n xs) ≡ xs
serve_all zero xs h = take_short (length xs - 0) xs (omega arith)
serve_all (suc n) xs h = absurd (omega arith)

-- The staged chunk has been signed after the signature that was current, and its own is current now.
record Staged (c : ChunkedBodyStream) (sign_chunk : Signer → Bytes → Bytes → Result String Bytes)
    (r : Bool × ChunkedBodyStream) : Type 0 where
  by : signer_of r.1 ≡ signer_of c
  signed : sign_chunk (signer_of c) r.1.chunk_buf c.running_sig ≡ ok r.1.running_sig
  start : r.1.chunk_pos ≡ 0
  open' : r.1.finished ≡ c.finished
  more : r.0 ≡ not (length r.1.chunk_buf == 0)

Staged-after :
    {c d : ChunkedBodyStream} {sign_chunk : Signer → Bytes → Bytes → Result String Bytes}
    {r : Bool × ChunkedBodyStream}
    → Keeps c d
    → Staged d sign_chunk r
    → Staged c sign_chunk r
Staged-after k s = record {
  by = s.by ∙ k.by;
  signed = cc (s.signed, k.by, k.running);
  start = s.start;
  open' = s.open' ∙ k.open';
  more = s.more;
}

abbrev judged : Result String Bytes → Bytes → Result AuthError Bytes
judged o given = map_err signer o >>= λ output.
    if constant_time_eq output given then ok output else err chunk_signature_mismatch

judged_ok :
    (o : Result String Bytes) (given : Bytes) (f : AuthError → Fault)
    → Yields (λ s. o ≡ ok s) (map_err f (judged o given))
judged_ok (err e) given f = tt
judged_ok (ok output) given f =
    if-elim (λ r. Yields (λ s. ◌≡◌ {A = Result String Bytes} (ok output) (ok s)) (map_err f r))
      (constant_time_eq output given) _ _ (λ _. refl) (λ _. tt)

module _ (sign_chunk : Signer → Bytes → Bytes → Result String Bytes) where
  staged-Staged :
      (size : ℕ) (c : ChunkedBodyStream) (new : Bytes)
      → leb size (length c.carry) ≡ true
      → sign_chunk (signer_of c) (take size c.carry) c.running_sig ≡ ok new
      → Staged c sign_chunk (staged sign_chunk size c new)
  staged-Staged size c new fits signed = record {
    by = refl;
    signed = signed;
    start = refl;
    open' = refl;
    more = ap (λ n. not (n == 0)) (omega (arith, length-take size c.carry, leb→le _ _ fits));
  }

  stage_chunk-Staged :
      (size : ℕ) (sig : Bytes) (c : ChunkedBodyStream)
      → Yields (Staged c sign_chunk) (stage_chunk sign_chunk size sig c)
  unfolding stage_chunk verify_chunk
  stage_chunk-Staged size sig c =
      Yields-guard (Staged c sign_chunk) (leb size (length c.carry)) _ _ λ fits.
        Yields-bind (Staged c sign_chunk) _ _
          (judged_ok (sign_chunk (signer_of c) (take size c.carry) c.running_sig) sig
            (λ e. decode_fault "aws-chunked: {e}"))
          λ s signed.
            Yields-guard (Staged c sign_chunk) _ _ (ok (staged sign_chunk size c s))
              λ _. staged-Staged size c s fits signed

  fetch_payload-Staged :
      (c : ChunkedBodyStream) (head : ℕ × Bytes)
      → Yields (Staged c sign_chunk) (fetch_payload sign_chunk c head)
  unfolding fetch_payload
  fetch_payload-Staged c (size, sig) =
      Yields-bind (Staged c sign_chunk) (ensure_in_carry (rounds c) ((size + 2) % 2 ^ 64) c)
        (stage_chunk sign_chunk size sig) (ensure_in_carry-Keeps _ _ c)
        λ d k.
          Yields-imp (stage_chunk sign_chunk size sig d) (λ r. Staged-after k)
            (stage_chunk-Staged size sig d)

  fetch_at-Staged :
      (c : ChunkedBodyStream) (f : ℕ × ChunkedBodyStream)
      → Keeps c f.1
      → Yields (Staged c sign_chunk) (fetch_at sign_chunk f)
  unfolding fetch_at
  fetch_at-Staged c (p, d) k =
      Yields-after (Staged c sign_chunk) (parse_header (take p d.carry)) _ λ head _.
        Yields-imp (fetch_payload sign_chunk (record d { carry = drop (p + 2) d.carry }) head)
          (λ r. Staged-after (record { by = k.by; running = k.running; open' = k.open' }))
          (fetch_payload-Staged _ head)

  fetch_chunk-Staged :
      (c : ChunkedBodyStream) → Yields (Staged c sign_chunk) (fetch_chunk sign_chunk c)
  unfolding fetch_chunk
  fetch_chunk-Staged c =
      Yields-bind (Staged c sign_chunk) (find_header (rounds c) c) (fetch_at sign_chunk)
        (find_header-Keeps (rounds c) c) (fetch_at-Staged c)

  -- Nothing of the chunk that is staged is left to serve.
  abbrev pub IsServed : ChunkedBodyStream → Type 0
  IsServed c = length c.chunk_buf ≤ c.chunk_pos

  -- One read: either a chunk that is signed, or the signed empty chunk, which ends the body.
  pub record IsRead (c : ChunkedBodyStream) (r : Bytes × ChunkedBodyStream) : Type 0 where
    pub by : signer_of r.1 ≡ signer_of c
    pub signed : sign_chunk (signer_of c) r.0 c.running_sig ≡ ok r.1.running_sig
    pub served : r.1.finished ≡ false → IsServed r.1
    pub ended : r.1.finished ≡ is_empty r.0

  serve_fetched-IsRead :
      (c d : ChunkedBodyStream) (more : Bool)
      → c.finished ≡ false
      → Staged c sign_chunk (more, d)
      → Yields (IsRead c) (serve_fetched sign_chunk (more, d))
  serve_fetched-IsRead c d true o s =
      let whole = serve_all d.chunk_pos d.chunk_buf s.start in
      record {
        by = s.by;
        signed = ap (λ p. sign_chunk (signer_of c) p c.running_sig) whole ∙ s.signed;
        served = λ _. omega arith;
        ended =
            s.open'
            ∙ o
            ∙ ap not s.more
            ∙ not-not (length d.chunk_buf == 0)
            ∙ is_empty_lem d.chunk_buf
            ∙ ap is_empty (sym whole);
      }
  serve_fetched-IsRead c d false o s =
      let empty = nil_of_length d.chunk_buf (let m = s.more in ground arith) in
      record {
        by = s.by;
        signed = ap (λ p. sign_chunk (signer_of c) p c.running_sig) (sym empty) ∙ s.signed;
        served = λ e. absurd (cc e);
        ended = refl;
      }

  read-IsRead :
      (c : ChunkedBodyStream)
      → c.finished ≡ false
      → IsServed c
      → Yields (IsRead c) (Chunked.read sign_chunk c)
  unfolding Chunked.read
  read-IsRead c o served =
      if-elim (Yields (IsRead c)) c.finished _ _ (λ e. absurd (cc (e, o)))
        λ _.
          if-elim (Yields (IsRead c)) (not (ltb c.chunk_pos (length c.chunk_buf))) _ _
            (λ _.
              Yields-bind (IsRead c) (fetch_chunk sign_chunk c) (serve_fetched sign_chunk)
                (fetch_chunk-Staged c) λ (more, d). serve_fetched-IsRead c d more o)
            (λ b. absurd (ground (arith, served)))

  -- The reads of a body: chunks that are not empty, and then the empty one.
  abbrev pub Drains : List Bytes → ChunkedBodyStream → ChunkedBodyStream → Type 0
  Drains [] c d = Chunked.read sign_chunk c ≡ ok ([], d)
  Drains (p ∷ ps) c d =
      (m : ChunkedBodyStream) × (Chunked.read sign_chunk c ≡ ok (p, m))
      × (is_empty p ≡ false)
      × Drains ps m d

  -- Each payload is signed by the signer after the signature before it, from the first one on.
  abbrev pub IsChain : Signer → Bytes → List Bytes → Bytes → Type 0
  IsChain by prev [] last = prev ≡ last
  IsChain by prev (p ∷ ps) last = (s : Bytes) × (sign_chunk by p prev ≡ ok s) × IsChain by s ps last

  -- A body in signed chunks that is read to its end is a chain of signatures from the one of the request:
  -- each piece that was read is signed after the one before it, and so is the empty chunk that ends it.
  pub Drains-IsChain :
      (ps : List Bytes) (c d : ChunkedBodyStream)
      → c.finished ≡ false
      → IsServed c
      → Drains ps c d
      → IsChain (signer_of c) c.running_sig (ps ++ [] ∷ []) d.running_sig × (d.finished ≡ true)
  Drains-IsChain [] c d o served h =
      let r = Yields_ok (IsRead c) (Chunked.read sign_chunk c) ([], d) (read-IsRead c o served) h in
      ((d.running_sig, r.signed, refl), r.ended)
  Drains-IsChain (p ∷ ps) c d o served (m, h, nonempty, rest) =
      let r = Yields_ok (IsRead c) (Chunked.read sign_chunk c) (p, m) (read-IsRead c o served) h in
      let (chain, ended) =
        Drains-IsChain ps m d (r.ended ∙ nonempty) (r.served (r.ended ∙ nonempty)) rest in
      (
        (
          m.running_sig,
          r.signed,
          subst (λ by. IsChain by m.running_sig (ps ++ [] ∷ []) d.running_sig) r.by chain,
        ),
        ended,
      )
