-- ===== src/Auth/Body/Framing.antt =====
-- crates/openlake_server/src/s3/body_source.rs: how the connection cuts a body into frames does not
-- matter to what the loops of the chunked reader find.
use openlake.Prelude.{
  ℕ, zero, suc, ◌≤◌, ◌<◌, ◌≡◌, inl, inr, refl, ap, sym, ◌∙◌, String, Bool, true, false, not, ◌&&◌,
  Option, none, some, List, [], ◌∷◌, ◌++◌, length, ◌==◌, ltb, if◌then◌else◌, arith, Bool-cases,
  Option-cases, length-append, nil_of_length,
}
use mathlib.Core.List.{append_assoc, append-nil}
use openlake.Erasure.Codec.{Bytes}
use openlake.Errors.{Result, ok, ◌>>=◌, ◌>>◌, guard}
use openlake.Auth.Body.Frames
use openlake.Auth.Body.Frames.{Frame, content, trailers, broken, Fault, AxumBodyStream, next_frame}
use openlake.Auth.Body.Chunked.{
  ChunkedBodyStream, find_crlf, extend_with, extend_carry, ensure_in_carry, later, find_header,
  found_or,
}

-- The bytes of the frames.
abbrev pub content_of : List Frame → Bytes
content_of [] = []
content_of (content b ∷ fs) = b ++ content_of fs
content_of (trailers ∷ fs) = content_of fs
content_of (broken e ∷ fs) = content_of fs

abbrev pub IsIntact : List Frame → Type 0
IsIntact [] = Unit
IsIntact (content b ∷ fs) = IsIntact fs
IsIntact (trailers ∷ fs) = IsIntact fs
IsIntact (broken e ∷ fs) = ⊥

-- The next piece of an intact body that has bytes left.
record Piece (fs : List Frame) : Type 0 where
  piece : Bytes
  rest : List Frame
  result : next_frame fs ≡ ok (piece, record { body = rest; leftover = []; eof = false })
  some_bytes : 0 < length piece
  whole : piece ++ content_of rest ≡ content_of fs
  intact : IsIntact rest
  fewer : length rest < length fs

next_frame-Piece : (fs : List Frame) → IsIntact fs → 0 < length (content_of fs) → Piece fs
unfolding next_frame
next_frame-Piece [] i h = absurd (omega arith)
next_frame-Piece (content [] ∷ fs) i h = later (next_frame-Piece fs i h)
  where
    later : Piece fs → Piece (content [] ∷ fs)
    later p = record {
      piece = p.piece;
      rest = p.rest;
      result = p.result;
      some_bytes = p.some_bytes;
      whole = p.whole;
      intact = p.intact;
      fewer = omega (arith, p.fewer);
    }
next_frame-Piece (content (b ∷ bs) ∷ fs) i h = record {
  piece = b ∷ bs;
  rest = fs;
  result = refl;
  some_bytes = omega arith;
  whole = refl;
  intact = i;
  fewer = omega arith;
}
next_frame-Piece (trailers ∷ fs) i h = later (next_frame-Piece fs i h)
  where
    later : Piece fs → Piece (trailers ∷ fs)
    later p = record {
      piece = p.piece;
      rest = p.rest;
      result = p.result;
      some_bytes = p.some_bytes;
      whole = p.whole;
      intact = p.intact;
      fewer = omega (arith, p.fewer);
    }
next_frame-Piece (broken e ∷ fs) i h = absurd i

-- The stream has the bytes `r` before it.
pub record Has (r : Bytes) (c : ChunkedBodyStream) : Type 0 where
  pub intact : IsIntact c.inner.body
  pub open' : c.inner.eof ≡ false
  pub drained : c.inner.leftover ≡ []
  pub ahead : c.carry ++ content_of c.inner.body ≡ r

-- `d` is `c` with more bytes in `carry`.
pub record Grown (r : Bytes) (c d : ChunkedBodyStream) : Type 0 where
  pub has : Has r d
  pub same : d ≡ record c { inner = d.inner; carry = d.carry }

read-next_frame :
    (s : AxumBodyStream) → s.leftover ≡ [] → s.eof ≡ false → Frames.read s ≡ next_frame s.body
unfolding Frames.read
read-next_frame s a b = simp (a, b)

extend_with-some :
    (msg : String) (c : ChunkedBodyStream) (chunk : Bytes) (inner : AxumBodyStream)
    → 0 < length chunk
    → extend_with msg c (chunk, inner) ≡ ok (record c { inner = inner; carry = c.carry ++ chunk })
extend_with-some msg c [] inner h = absurd (omega arith)
extend_with-some msg c (b ∷ bs) inner h = refl

-- `d` is `c` with another piece of the body in `carry`.
record Extended (r : Bytes) (msg : String) (c d : ChunkedBodyStream) : Type 0 where
  result : extend_carry msg c ≡ ok d
  grown : Grown r c d
  longer : length c.carry < length d.carry
  fewer : length d.inner.body < length c.inner.body

extend_carry-Extended :
    (msg : String) (r : Bytes) (c : ChunkedBodyStream)
    → Has r c
    → length c.carry < length r
    → (d : ChunkedBodyStream) × Extended r msg c d
extend_carry-Extended msg r c h l = extended (next_frame-Piece c.inner.body h.intact some_left)
  where
    some_left : 0 < length (content_of c.inner.body)
    some_left = omega (arith, ap length h.ahead, length-append c.carry (content_of c.inner.body))

    extended : Piece c.inner.body → (d : ChunkedBodyStream) × Extended r msg c d
    extended p = (
      record c {
        inner = record { body = p.rest; leftover = []; eof = false };
        carry = c.carry ++ p.piece;
      },
      record {
        result =
            unfold extend_carry in
            ap (λ m. m >>= extend_with msg c) (read-next_frame c.inner h.drained h.open' ∙ p.result)
            ∙ extend_with-some msg c p.piece _ p.some_bytes;
        grown = record {
          has = record {
            intact = p.intact;
            open' = refl;
            drained = refl;
            ahead =
                append_assoc c.carry p.piece (content_of p.rest)
                ∙ ap (λ x. c.carry ++ x) p.whole
                ∙ h.ahead;
          };
          same = refl;
        };
        longer = omega (arith, length-append c.carry p.piece, p.some_bytes);
        fewer = p.fewer;
      },
    )

Grown-refl : (r : Bytes) (c : ChunkedBodyStream) → Has r c → Grown r c c
Grown-refl r c h = record { has = h; same = refl }

Grown-trans : (r : Bytes) (c d e : ChunkedBodyStream) → Grown r c d → Grown r d e → Grown r c e
Grown-trans r c d e g k = record {
  has = k.has;
  same =
      k.same ∙ ap (λ (x : ChunkedBodyStream). record x { inner = e.inner; carry = e.carry }) g.same;
}

ensure_more :
    (fuel need : ℕ) (c d : ChunkedBodyStream)
    → ltb (length c.carry) need ≡ true
    → extend_carry "aws-chunked: body ended mid-chunk" c ≡ ok d
    → ensure_in_carry (suc fuel) need c ≡ ensure_in_carry fuel need d
unfolding ensure_in_carry
ensure_more fuel need c d short x = rw short (ap (λ m. m >>= ensure_in_carry fuel need) x)

ensure_enough :
    (fuel need : ℕ) (c : ChunkedBodyStream)
    → ltb (length c.carry) need ≡ false
    → ensure_in_carry (suc fuel) need c ≡ ok c
unfolding ensure_in_carry
ensure_enough fuel need c enough = rw enough refl

-- `carry` gets as many bytes as are needed.
pub ensure_in_carry-Grown :
    (fuel need : ℕ) (r : Bytes) (c : ChunkedBodyStream)
    → Has r c
    → need ≤ length r
    → length c.inner.body < fuel
    → (d : ChunkedBodyStream) × (ensure_in_carry fuel need c ≡ ok d)
      × Grown r c d
      × (need ≤ length d.carry)
ensure_in_carry-Grown zero need r c h n f = absurd (omega arith)
ensure_in_carry-Grown (suc fuel) need r c h n f = elim (Bool-cases (ltb (length c.carry) need)) [
  | inr enough ↦ (c, ensure_enough fuel need c enough, Grown-refl r c h, ground arith)
  | inl short ↦
      let (d, x) = extend_carry-Extended "aws-chunked: body ended mid-chunk" r c h (ground arith) in
      let (e, result, g, enough) =
        ensure_in_carry-Grown fuel need r d x.grown.has n (omega (arith, x.fewer)) in
      (e, ensure_more fuel need c d short x.result ∙ result, Grown-trans r c d e x.grown g, enough)
]

find_crlf-append : (xs ys : Bytes) (q : ℕ) → find_crlf xs ≡ some q → find_crlf (xs ++ ys) ≡ some q
unfolding find_crlf
find_crlf-append [] ys q h = absurd (cc h)
find_crlf-append (a ∷ []) ys q h = absurd (cc h)
find_crlf-append (a ∷ b ∷ s) ys q h =
    first (a == 13 && b == 10) (find_crlf (b ∷ s)) (find_crlf ((b ∷ s) ++ ys))
      (find_crlf-append (b ∷ s) ys) h
  where
    first :
        (t : Bool) (o o' : Option ℕ)
        → ((p : ℕ) → o ≡ some p → o' ≡ some p)
        → (if t then some 0 else later o) ≡ some q
        → (if t then some 0 else later o') ≡ some q
    first true o o' ih e = e
    first false none o' ih e = absurd (cc e)
    first false (some p) o' ih e = rw (ih p refl) e

found_or-some :
    (o : Option ℕ) (c : ChunkedBodyStream) (more : Result Fault (ℕ × ChunkedBodyStream)) (p : ℕ)
    → o ≡ some p
    → found_or o c more ≡ ok (p, c)
found_or-some o c more p h = rw h refl

found_or-none :
    (o : Option ℕ) (c : ChunkedBodyStream) (more : Result Fault (ℕ × ChunkedBodyStream))
    → o ≡ none
    → found_or o c more ≡ more
found_or-none o c more h = rw h refl

pub guard_passed {ℓ κ} :
    {E : Type ℓ} {A : Type κ} (b : Bool) (e : E) (m : Result E A) → b ≡ true → (guard b e >> m) ≡ m
guard_passed b e m h = rw h refl

find_here :
    (fuel p : ℕ) (c : ChunkedBodyStream)
    → find_crlf c.carry ≡ some p
    → find_header (suc fuel) c ≡ ok (p, c)
unfolding find_header
find_here fuel p c h = found_or-some _ c _ p h

find_more :
    (fuel : ℕ) (c d : ChunkedBodyStream)
    → find_crlf c.carry ≡ none
    → extend_carry "aws-chunked: body ended before chunk header" c ≡ ok d
    → length c.carry < length d.carry
    → find_header (suc fuel) c ≡ find_header fuel d
unfolding find_header
find_more fuel c d h x l =
    found_or-none _ c _ h
    ∙ rw x (
        guard_passed (not (length d.carry == length c.carry)) _ (find_header fuel d) (ground arith))

more_left :
    (r : Bytes) (c : ChunkedBodyStream) (p : ℕ)
    → Has r c
    → find_crlf r ≡ some p
    → find_crlf c.carry ≡ none
    → length c.carry < length r
more_left r c p h e n = elim (Bool-cases (ltb (length c.carry) (length r))) [
  | inl less ↦ ground arith
  | inr all ↦
      let rest : content_of c.inner.body ≡ [] =
        nil_of_length _
          (ground (arith, ap length h.ahead, length-append c.carry (content_of c.inner.body))) in
      let same : c.carry ≡ r =
        sym (append-nil c.carry) ∙ ap (λ x. c.carry ++ x) (sym rest) ∙ h.ahead in
      absurd (cc (e, n, ap find_crlf same))
]

-- The loop finds the end of a header line where it is in the whole body.
pub find_header-Grown :
    (fuel p : ℕ) (r : Bytes) (c : ChunkedBodyStream)
    → Has r c
    → find_crlf r ≡ some p
    → length c.inner.body < fuel
    → (d : ChunkedBodyStream) × (find_header fuel c ≡ ok (p, d))
      × Grown r c d
      × (find_crlf d.carry ≡ some p)
find_header-Grown zero p r c h e f = absurd (omega arith)
find_header-Grown (suc fuel) p r c h e f = elim (Option-cases (find_crlf c.carry)) [
  | inr (q, there) ↦
      let same : some q ≡ some p =
        sym (find_crlf-append c.carry (content_of c.inner.body) q there)
        ∙ ap find_crlf h.ahead
        ∙ e in
      (c, find_here fuel p c (there ∙ same), Grown-refl r c h, there ∙ same)
  | inl nowhere ↦
      let (d, x) =
        extend_carry-Extended "aws-chunked: body ended before chunk header" r c h
          (more_left r c p h e nowhere) in
      let (f', result, g, there) =
        find_header-Grown fuel p r d x.grown.has e (omega (arith, x.fewer)) in
      (
        f',
        find_more fuel c d nowhere x.result x.longer ∙ result,
        Grown-trans r c d f' x.grown g,
        there,
      )
]
