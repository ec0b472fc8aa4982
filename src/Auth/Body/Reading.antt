-- ===== src/Auth/Body/Reading.antt =====
-- crates/openlake_server/src/s3/body_source.rs: what the reads of a body in signed chunks return.
use openlake.Prelude.{
  ℕ, ◌+◌, ◌-◌, ◌≡◌, refl, ap, sym, subst, ◌∙◌, String, Bool, true, false, not, List, [], ◌∷◌, map,
  length, take, drop, ◌==◌, ltb, arith, if_true, if_false,
}
use openlake.Erasure.Codec.{Bytes}
use openlake.Errors.{Result, ok, ◌>>=◌}
use openlake.Auth.Text.{is_empty}
use openlake.Auth.Verify.{Signer}
use openlake.Auth.Body.Frames.{Frame}
use openlake.Auth.Body.Chunked
use openlake.Auth.Body.Chunked.{ChunkedBodyStream, fetch_chunk, serve, serve_fetched}
use openlake.Auth.Body.Framing.{content_of, IsIntact, Has}
use openlake.Auth.Body.Sound.{signer_of, Drains, IsServed, serve_all, is_empty_lem}
use openlake.Auth.Body.Whole.{Chunk, before, IsChunk, fetch_chunk-Fetched}

-- The chunks of a body, with the empty one that ends it.
abbrev pub wire : List Chunk → Chunk → Bytes
wire [] e = before e []
wire (k ∷ ks) e = before k (wire ks e)

module _ (sign_chunk : Signer → Bytes → Bytes → Result String Bytes) where
  -- Chunks that are not empty, each signed after the one before it, and at last an empty one.
  abbrev pub IsBody : Signer → Bytes → List Chunk → Chunk → Type 0
  IsBody by prev [] e = IsChunk sign_chunk by prev e × (e.payload ≡ [])
  IsBody by prev (k ∷ ks) e =
      IsChunk sign_chunk by prev k × (is_empty k.payload ≡ false) × IsBody by k.sig ks e

  read-fetches :
      (c d : ChunkedBodyStream) (more : Bool)
      → c.finished ≡ false
      → IsServed sign_chunk c
      → fetch_chunk sign_chunk c ≡ ok (more, d)
      → Chunked.read sign_chunk c ≡ serve_fetched sign_chunk (more, d)
  unfolding Chunked.read
  read-fetches c d more o s h =
      if_false c.finished _ _ o
      ∙ if_true (not (ltb c.chunk_pos (length c.chunk_buf))) _ _ (ground (arith, s))
      ∙ ap (λ m. m >>= serve_fetched sign_chunk) h

  -- All chunks are read, in their order, and then the end.
  Drains-wire :
      (ks : List Chunk) (e : Chunk) (c : ChunkedBodyStream)
      → c.finished ≡ false
      → IsServed sign_chunk c
      → Has (wire ks e) c
      → IsBody (signer_of c) c.running_sig ks e
      → (d : ChunkedBodyStream) × Drains sign_chunk (map (λ k. k.payload) ks) c d
  Drains-wire [] e c o s h (w, empty) =
      let (d, fetched, f) = fetch_chunk-Fetched sign_chunk e [] c w h in
      let none_left : not (length e.payload == 0) ≡ false = ap (λ p. not (length p == 0)) empty in
      (_, read-fetches c d _ o s fetched ∙ ap (λ m. serve_fetched sign_chunk (m, d)) none_left)
  Drains-wire (k ∷ ks) e c o s h (w, nonempty, rest) =
      let (d, fetched, f) = fetch_chunk-Fetched sign_chunk k (wire ks e) c w h in
      let some_bytes : not (length k.payload == 0) ≡ true =
        ap not (is_empty_lem k.payload ∙ nonempty) in
      let whole : take (length d.chunk_buf - d.chunk_pos) (drop d.chunk_pos d.chunk_buf)
          ≡ k.payload =
        serve_all d.chunk_pos d.chunk_buf f.start ∙ f.buf in
      let m : ChunkedBodyStream = record d {
        chunk_pos = d.chunk_pos + (length d.chunk_buf - d.chunk_pos);
      } in
      let next : IsBody (signer_of m) m.running_sig ks e =
        subst (λ b. IsBody b m.running_sig ks e) (sym f.by)
          (subst (λ p. IsBody (signer_of c) p ks e) (sym f.running) rest) in
      let has : Has (wire ks e) m = record {
        intact = f.has.intact;
        open' = f.has.open';
        drained = f.has.drained;
        ahead = f.has.ahead;
      } in
      let (last, drains) = Drains-wire ks e m (f.open' ∙ o) (omega arith) has next in
      (
        last,
        (
          m,
          read-fetches c d _ o s fetched
              ∙ ap (λ b. serve_fetched sign_chunk (b, d)) some_bytes
              ∙ ap (λ p. ok (p, m)) whole,
          nonempty,
          drains,
        ),
      )

  -- A body of signed chunks whose signatures chain from the one of the request, and whose last chunk is the
  -- only empty one, is read back chunk by chunk, whatever the frames in which it arrives, if none of them
  -- is a failure of the connection.
  pub Drains-new :
      (frames : List Frame) (ks : List Chunk) (e : Chunk) (seed key secret region : Bytes)
      (time : ℕ)
      → IsIntact frames
      → content_of frames ≡ wire ks e
      → IsBody (signer_of (Chunked.new frames seed key secret region time)) seed ks e
      → (d : ChunkedBodyStream) × Drains sign_chunk
          (map (λ k. k.payload) ks)
          (Chunked.new frames seed key secret region time)
          d
  unfolding Chunked.new
  Drains-new frames ks e seed key secret region time intact same body =
      Drains-wire ks e (Chunked.new frames seed key secret region time) refl (omega arith)
        (record { intact = intact; open' = refl; drained = refl; ahead = same }) body
