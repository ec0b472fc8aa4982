-- ===== src/Auth/Body/Chunked.antt =====
-- crates/openlake_server/src/s3/body_source.rs: `ChunkedBodyStream`, a body in signed chunks.
use openlake.Prelude.{
  ℕ, zero, suc, ◌+◌, ◌-◌, ◌*◌, ◌%◌, ◌^◌, String, Bool, true, false, not, ◌&&◌, Option, none, some,
  List, [], ◌∷◌, ◌++◌, length, take, drop, ◌==◌, ltb, leb, if◌then◌else◌,
}
use openlake.Erasure.Codec.{Bytes}
use openlake.Errors.{
  Result, ok, err, io, unexpected_eof, decode_error, ◌>>=◌, ◌>>◌, guard, ok_or, map_err,
}
use openlake.Kv.Slots.{bytes_eq}
use openlake.XlMeta.Uuid.{hex_value}
use openlake.Auth.Text.{codes, split_once, strip_prefix, trim, is_empty}
use openlake.Auth.Utf8.{is_utf8}
use openlake.Auth.Verify.{Signer, verify_chunk}
use openlake.Auth.Body.Frames
use openlake.Auth.Body.Frames.{Frame, AxumBodyStream, Fault, failed, panics}

abbrev pub later : Option ℕ → Option ℕ
later none = none
later (some p) = some (suc p)

-- `auth::find_crlf`
unfoldable pub find_crlf : Bytes → Option ℕ
find_crlf [] = none
find_crlf (a ∷ []) = none
find_crlf (a ∷ b ∷ s) =
    let rest = find_crlf (b ∷ s) in if a == 13 && b == 10 then some 0 else later rest

abbrev hex_digits : Bytes → ℕ → Option ℕ
unfolding hex_value
hex_digits [] n = some n
hex_digits (c ∷ s) n = elim (hex_value c) [
  | none ↦ none
  | some v ↦ if leb (2 ^ 64) (n * 16 + v) then none else hex_digits s (n * 16 + v)
]

-- `usize::from_str_radix(s, 16)`, which takes a plus sign before the digits.
unfoldable pub parse_hex : Bytes → Option ℕ
unfolding hex_digits
parse_hex [] = none
parse_hex (c ∷ []) = hex_digits (c ∷ []) 0
parse_hex (c ∷ d ∷ s) = if c == b'+' then hex_digits (d ∷ s) 0 else hex_digits (c ∷ d ∷ s) 0

pub record ChunkedBodyStream : Type 0 where
  pub inner : AxumBodyStream
  pub carry : Bytes
  pub chunk_buf : Bytes
  pub chunk_pos : ℕ
  pub running_sig : Bytes
  pub access_key : Bytes
  pub secret : Bytes
  pub region : Bytes
  pub request_time : ℕ
  pub finished : Bool

unfoldable pub new : List Frame → Bytes → Bytes → Bytes → Bytes → ℕ → ChunkedBodyStream
unfolding Frames.new
new body seed_signature access_key secret region request_time = record {
  inner = Frames.new body;
  carry = [];
  chunk_buf = [];
  chunk_pos = 0;
  running_sig = seed_signature;
  access_key = access_key;
  secret = secret;
  region = region;
  request_time = request_time;
  finished = false;
}

abbrev pub extend_with :
    String → ChunkedBodyStream → Bytes × AxumBodyStream → Result Fault ChunkedBodyStream
extend_with msg c (chunk, inner) =
    if is_empty chunk
    then err (failed (io unexpected_eof msg))
    else ok (record c { inner = inner; carry = c.carry ++ chunk })

-- One more piece of the body in `carry`; an end of the body is an error with the text `msg`.
unfoldable pub extend_carry : String → ChunkedBodyStream → Result Fault ChunkedBodyStream
unfolding Frames.read
extend_carry msg c = Frames.read c.inner >>= extend_with msg c

-- More rounds than a body can have pieces.
abbrev pub rounds : ChunkedBodyStream → ℕ
rounds c = length c.inner.body + 2

-- The loop of `ensure_in_carry`, on fuel.
unfoldable pub ensure_in_carry : ℕ → ℕ → ChunkedBodyStream → Result Fault ChunkedBodyStream
unfolding extend_carry
ensure_in_carry zero need c =
    if ltb (length c.carry) need
    then err (failed (io unexpected_eof "aws-chunked: body ended mid-chunk"))
    else ok c
ensure_in_carry (suc fuel) need c =
    let more = extend_carry "aws-chunked: body ended mid-chunk" c >>= ensure_in_carry fuel need in
    if ltb (length c.carry) need then more else ok c

-- `if let Some(p) = o { .. }`, in the loop of `fetch_chunk`.
abbrev pub found_or :
    Option ℕ
    → ChunkedBodyStream
    → Result Fault (ℕ × ChunkedBodyStream)
    → Result Fault (ℕ × ChunkedBodyStream)
found_or (some p) c more = ok (p, c)
found_or none c more = more

-- The loop of `fetch_chunk` up to the end of the header line, on fuel.
unfoldable pub find_header : ℕ → ChunkedBodyStream → Result Fault (ℕ × ChunkedBodyStream)
unfolding extend_carry find_crlf
find_header zero c =
    found_or (find_crlf c.carry) c
      (err (failed (io unexpected_eof "aws-chunked: body ended before chunk header")))
find_header (suc fuel) c = found_or (find_crlf c.carry) c (do
  d ← extend_carry "aws-chunked: body ended before chunk header" c
  guard (not (length d.carry == length c.carry))
      (failed (decode_error "aws-chunked: header read made no progress"))
  find_header fuel d)

abbrev pub decode_fault : String → Fault
decode_fault msg = failed (decode_error msg)

-- The size and the signature that a header line gives.
unfoldable pub parse_header : Bytes → Result Fault (ℕ × Bytes)
unfolding is_utf8 split_once parse_hex strip_prefix trim
parse_header line = do
  guard (is_utf8 line) (decode_fault "aws-chunked: header not utf-8")
  halves ← ok_or (split_once b';' line) (decode_fault "aws-chunked: header missing ';'")
  size ← ok_or (parse_hex (trim halves.0)) (decode_fault "aws-chunked: bad chunk size")
  sig ←
      ok_or (strip_prefix (codes "chunk-signature=") halves.1)
        (decode_fault "aws-chunked: missing chunk-signature")
  ok (size, trim sig)

module _ (sign_chunk : Signer → Bytes → Bytes → Result String Bytes) where
  -- What `fetch_chunk` leaves once the signature is verified.
  abbrev pub staged : ℕ → ChunkedBodyStream → Bytes → Bool × ChunkedBodyStream
  staged size c new_running = (
    not (size == 0),
    record c {
      chunk_buf = take size c.carry;
      chunk_pos = 0;
      carry = drop (size + 2) c.carry;
      running_sig = new_running;
    },
  )

  -- The rest of `fetch_chunk`, with `size + 2` bytes in `carry`; a slice that is too long panics.
  unfoldable pub stage_chunk :
      ℕ → Bytes → ChunkedBodyStream → Result Fault (Bool × ChunkedBodyStream)
  unfolding verify_chunk
  stage_chunk size sig c = do
    guard (leb size (length c.carry)) panics
    new_running ←
        map_err (λ e. decode_fault "aws-chunked: {e}")
          (verify_chunk sign_chunk (take size c.carry) c.running_sig sig c.access_key c.secret
            c.region c.request_time)
    guard (bytes_eq.beq (take 2 (drop size c.carry)) (13 ∷ 10 ∷ []))
        (decode_fault "aws-chunked: chunk not CRLF-terminated")
    ok (staged size c new_running)

  -- The payload after a header line.
  unfoldable pub fetch_payload :
      ChunkedBodyStream → ℕ × Bytes → Result Fault (Bool × ChunkedBodyStream)
  unfolding ensure_in_carry stage_chunk
  fetch_payload c (size, sig) =
      ensure_in_carry (rounds c) ((size + 2) % 2 ^ 64) c >>= stage_chunk size sig

  -- After the header line that ends at `p`.
  unfoldable pub fetch_at : ℕ × ChunkedBodyStream → Result Fault (Bool × ChunkedBodyStream)
  unfolding parse_header fetch_payload
  fetch_at (p, c) =
      parse_header (take p c.carry) >>= fetch_payload (record c { carry = drop (p + 2) c.carry })

  unfoldable pub fetch_chunk : ChunkedBodyStream → Result Fault (Bool × ChunkedBodyStream)
  unfolding find_header fetch_at
  fetch_chunk c = find_header (rounds c) c >>= fetch_at

  -- What `read` returns of the chunk that is staged.
  abbrev pub serve : ChunkedBodyStream → Result Fault (Bytes × ChunkedBodyStream)
  serve c =
      let avail = length c.chunk_buf - c.chunk_pos in
      ok (take avail (drop c.chunk_pos c.chunk_buf), record c { chunk_pos = c.chunk_pos + avail })

  abbrev pub serve_fetched : Bool × ChunkedBodyStream → Result Fault (Bytes × ChunkedBodyStream)
  serve_fetched (more, d) = if more then serve d else ok ([], record d { finished = true })

  unfoldable pub read : ChunkedBodyStream → Result Fault (Bytes × ChunkedBodyStream)
  unfolding fetch_chunk
  read c =
      if c.finished
      then ok ([], c)
      else if not (ltb c.chunk_pos (length c.chunk_buf))
      then (fetch_chunk c >>= serve_fetched)
      else serve c
