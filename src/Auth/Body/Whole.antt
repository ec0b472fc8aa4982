-- ===== src/Auth/Body/Whole.antt =====
-- crates/openlake_server/src/s3/body_source.rs: a body that a client has cut into signed chunks is read
-- back, however the connection frames it.
use openlake.Prelude.{
  ℕ, zero, suc, ◌+◌, ◌%◌, ◌^◌, ◌≤◌, ◌<◌, ◌≡◌, ◌≢◌, refl, ap, sym, subst, ◌∙◌, String, Bool, true,
  false, not, ◌&&◌, Option, none, some, [], ◌∷◌, ◌++◌, length, take, drop, ◌==◌, leb, if◌then◌else◌,
  arith, length-append, take-append, drop-append, drop-add, length-drop,
}
use openlake.Erasure.Codec.{Bytes}
use openlake.Errors.{Result, ok, ◌>>=◌}
use openlake.Kv.Slots.{bytes_eq}
use openlake.Auth.TextFacts.{Lacks}
use openlake.Auth.Verify.{Signer, service, verify_chunk}
use openlake.Auth.Compare.{constant_time_eq_lem}
use openlake.Auth.Body.Chunked.{
  ChunkedBodyStream, find_crlf, parse_header, staged, stage_chunk, fetch_payload, fetch_at,
  fetch_chunk, rounds, ensure_in_carry, later,
}
use openlake.Auth.Body.Framing.{
  content_of, Has, ensure_in_carry-Grown, find_header-Grown, guard_passed,
}
use openlake.Auth.Body.Sound.{signer_of}

take-prefix : (n : ℕ) (xs ys : Bytes) → n ≤ length xs → take n (xs ++ ys) ≡ take n xs
take-prefix zero xs ys h = refl
take-prefix (suc n) [] ys h = absurd (omega arith)
take-prefix (suc n) (x ∷ xs) ys h = ap (◌∷◌ x) (take-prefix n xs ys (omega arith))

drop-prefix : (n : ℕ) (xs ys : Bytes) → n ≤ length xs → drop n (xs ++ ys) ≡ drop n xs ++ ys
drop-prefix zero xs ys h = refl
drop-prefix (suc n) [] ys h = absurd (omega arith)
drop-prefix (suc n) (x ∷ xs) ys h = drop-prefix n xs ys (omega arith)

find_crlf-line :
    (line s : Bytes) → Lacks 13 line → find_crlf (line ++ 13 ∷ 10 ∷ s) ≡ some (length line)
unfolding find_crlf
find_crlf-line [] s h = refl
find_crlf-line (a ∷ []) s h = ground (arith, h.0)
find_crlf-line (a ∷ b ∷ line) s h =
    let rest = find_crlf-line (b ∷ line) s h.1 in let c : a ≢ 13 = h.0 in ground arith

fits_if :
    (t : Bool) (o : Option ℕ) (p n : ℕ)
    → 1 ≤ n
    → ((q : ℕ) → o ≡ some q → q + 2 ≤ n)
    → (if t then some 0 else later o) ≡ some p
    → p + 2 ≤ suc n
fits_if true o p n one ih h = let e : 0 ≡ p = cc h in omega arith
fits_if false none p n one ih h = absurd (cc h)
fits_if false (some q) p n one ih h = let e : suc q ≡ p = cc h in omega (arith, ih q refl)

find_crlf-fits : (xs : Bytes) (p : ℕ) → find_crlf xs ≡ some p → p + 2 ≤ length xs
unfolding find_crlf
find_crlf-fits [] p h = absurd (cc h)
find_crlf-fits (a ∷ []) p h = absurd (cc h)
find_crlf-fits (a ∷ b ∷ s) p h =
    fits_if (a == 13 && b == 10) (find_crlf (b ∷ s)) p (suc (length s)) (omega arith)
      (find_crlf-fits (b ∷ s)) h

-- What is cut off the front of all that lies ahead is cut off `carry`.
taken :
    (n : ℕ) (xs ys front back : Bytes)
    → xs ++ ys ≡ front ++ back
    → length front ≡ n
    → n ≤ length xs
    → (take n xs ≡ front) × (drop n xs ++ ys ≡ back)
taken n xs ys front back h e l =
    let first : take (length front) (xs ++ ys) ≡ front =
      ap (take (length front)) h ∙ take-append front back in
    let second : drop (length front) (xs ++ ys) ≡ back =
      ap (drop (length front)) h ∙ drop-append front back in
    (
      sym (take-prefix n xs ys l) ∙ ap (λ m. take m (xs ++ ys)) (sym e) ∙ first,
      sym (drop-prefix n xs ys l) ∙ ap (λ m. drop m (xs ++ ys)) (sym e) ∙ second,
    )

-- A chunk: its header line, and what it holds.
pub record Chunk : Type 0 where
  pub line : Bytes
  pub sig : Bytes
  pub payload : Bytes

-- How it stands in the body, before `rest`.
abbrev pub before : Chunk → Bytes → Bytes
before k rest = k.line ++ 13 ∷ 10 ∷ (k.payload ++ 13 ∷ 10 ∷ rest)

module _ (sign_chunk : Signer → Bytes → Bytes → Result String Bytes) where
  -- The line gives the length of the payload and its signature, which the signer gives after `prev`.
  pub record IsChunk (by : Signer) (prev : Bytes) (k : Chunk) : Type 0 where
    pub one_line : Lacks 13 k.line
    pub header : parse_header k.line ≡ ok (length k.payload, k.sig)
    pub signed : sign_chunk by k.payload prev ≡ ok k.sig
    pub bounded : length k.payload + 2 < 2 ^ 64

  pub record Fetched (k : Chunk) (rest : Bytes) (c d : ChunkedBodyStream) : Type 0 where
    pub has : Has rest d
    pub buf : d.chunk_buf ≡ k.payload
    pub start : d.chunk_pos ≡ 0
    pub running : d.running_sig ≡ k.sig
    pub by : signer_of d ≡ signer_of c
    pub open' : d.finished ≡ c.finished

  verify_chunk_passes :
      (chunk prev sig key secret region : Bytes) (time : ℕ)
      → sign_chunk
          (record {
            access_key = key;
            secret = secret;
            region = region;
            name = service;
            time = time;
          })
          chunk
          prev
        ≡ ok sig
      → verify_chunk sign_chunk chunk prev sig key secret region time ≡ ok sig
  unfolding verify_chunk
  verify_chunk_passes chunk prev sig key secret region time h =
      rw h (let t = (constant_time_eq_lem sig sig).1 refl in rw t refl)

  stage_chunk-Fetched :
      (k : Chunk) (rest : Bytes) (c : ChunkedBodyStream)
      → IsChunk (signer_of c) c.running_sig k
      → Has (k.payload ++ 13 ∷ 10 ∷ rest) c
      → length k.payload + 2 ≤ length c.carry
      → (d : ChunkedBodyStream) × (stage_chunk sign_chunk (length k.payload) k.sig c
          ≡ ok (not (length k.payload == 0), d))
        × Fetched k rest c d
  unfolding stage_chunk
  stage_chunk-Fetched k rest c w h l =
      let n = length k.payload in
      let body = content_of c.inner.body in
      let (payload, after) =
        taken n c.carry body k.payload (13 ∷ 10 ∷ rest) h.ahead refl (omega arith) in
      let (crlf, left) =
        taken 2 (drop n c.carry) body (13 ∷ 10 ∷ []) rest after refl
          (omega (arith, length-drop n c.carry)) in
      let verified =
        verify_chunk_passes (take n c.carry) c.running_sig k.sig c.access_key c.secret c.region
          c.request_time (ap (λ p. sign_chunk (signer_of c) p c.running_sig) payload ∙ w.signed) in
      (
        (staged sign_chunk n c k.sig).1,
        guard_passed (leb n (length c.carry)) _ _ (ground arith)
            ∙ rw verified (
                guard_passed (bytes_eq.beq (take 2 (drop n c.carry)) (13 ∷ 10 ∷ [])) _ _
                  ((bytes_eq.beq_iff _ _).1 crlf)),
        record {
          has = record {
            intact = h.intact;
            open' = h.open';
            drained = h.drained;
            ahead = ap (λ x. x ++ body) (drop-add n 2 c.carry) ∙ left;
          };
          buf = payload;
          start = refl;
          running = refl;
          by = refl;
          open' = refl;
        },
      )

  Fetched-after :
      {k : Chunk} {rest : Bytes} {c d e : ChunkedBodyStream}
      → signer_of d ≡ signer_of c
      → d.finished ≡ c.finished
      → Fetched k rest d e
      → Fetched k rest c e
  Fetched-after by open' f = record {
    has = f.has;
    buf = f.buf;
    start = f.start;
    running = f.running;
    by = f.by ∙ by;
    open' = f.open' ∙ open';
  }

  fetch_payload-Fetched :
      (k : Chunk) (rest : Bytes) (c : ChunkedBodyStream)
      → IsChunk (signer_of c) c.running_sig k
      → Has (k.payload ++ 13 ∷ 10 ∷ rest) c
      → (d : ChunkedBodyStream) × (fetch_payload sign_chunk c (length k.payload, k.sig)
          ≡ ok (not (length k.payload == 0), d))
        × Fetched k rest c d
  unfolding fetch_payload
  fetch_payload-Fetched k rest c w h =
      let n = length k.payload in
      let same : (n + 2) % 2 ^ 64 ≡ n + 2 = omega (arith, w.bounded) in
      let (d, filled, g, enough) =
        ensure_in_carry-Grown (rounds c) (n + 2) (k.payload ++ 13 ∷ 10 ∷ rest) c h
          (omega (arith, length-append k.payload (13 ∷ 10 ∷ rest))) (omega arith) in
      let by : signer_of d ≡ signer_of c = ap signer_of g.same in
      let running : d.running_sig ≡ c.running_sig =
        ap (λ (x : ChunkedBodyStream). x.running_sig) g.same in
      let (e, stages, f) =
        stage_chunk-Fetched k rest d
          (subst (λ b. IsChunk b d.running_sig k) (sym by)
            (subst (λ p. IsChunk (signer_of c) p k) (sym running) w))
          g.has enough in
      (
        e,
        ap (λ m. ensure_in_carry (rounds c) m c >>= stage_chunk sign_chunk n k.sig) same
            ∙ ap (λ r. r >>= stage_chunk sign_chunk n k.sig) filled
            ∙ stages,
        Fetched-after by (ap (λ (x : ChunkedBodyStream). x.finished) g.same) f,
      )

  pub fetch_chunk-Fetched :
      (k : Chunk) (rest : Bytes) (c : ChunkedBodyStream)
      → IsChunk (signer_of c) c.running_sig k
      → Has (before k rest) c
      → (d : ChunkedBodyStream) × (fetch_chunk sign_chunk c ≡ ok (not (length k.payload == 0), d))
        × Fetched k rest c d
  unfolding fetch_chunk fetch_at
  fetch_chunk-Fetched k rest c w h =
      let tail = k.payload ++ 13 ∷ 10 ∷ rest in
      let p = length k.line in
      let (d, found, g, there) =
        find_header-Grown (rounds c) p (before k rest) c h (find_crlf-line k.line tail w.one_line)
          (omega arith) in
      let body = content_of d.inner.body in
      let fits = find_crlf-fits d.carry p there in
      let (line, after) =
        taken p d.carry body k.line (13 ∷ 10 ∷ tail) g.has.ahead refl (omega arith) in
      let (_, left) =
        taken 2 (drop p d.carry) body (13 ∷ 10 ∷ []) tail after refl
          (omega (arith, length-drop p d.carry)) in
      let m : ChunkedBodyStream = record d { carry = drop (p + 2) d.carry } in
      let has : Has tail m = record {
        intact = g.has.intact;
        open' = g.has.open';
        drained = g.has.drained;
        ahead = ap (λ x. x ++ body) (drop-add p 2 d.carry) ∙ left;
      } in
      let by : signer_of m ≡ signer_of c = ap signer_of g.same in
      let running : m.running_sig ≡ c.running_sig =
        ap (λ (x : ChunkedBodyStream). x.running_sig) g.same in
      let (e, fetched, f) =
        fetch_payload-Fetched k rest m
          (subst (λ b. IsChunk b m.running_sig k) (sym by)
            (subst (λ q. IsChunk (signer_of c) q k) (sym running) w))
          has in
      (
        e,
        ap (λ r. r >>= fetch_at sign_chunk) found
            ∙ ap (λ l. parse_header l >>= fetch_payload sign_chunk m) line
            ∙ ap (λ r. r >>= fetch_payload sign_chunk m) w.header
            ∙ fetched,
        Fetched-after by (ap (λ (x : ChunkedBodyStream). x.finished) g.same) f,
      )
