-- ===== src/S3/Serve.antt =====
-- crates/openlake_server/src/s3/handlers/objects.rs: the response of a read. The headers are those that
-- tell the length and the window; the numbers in `Content-Range` stand for their decimal texts.
use openlake.Prelude.{
  ℕ, ◌+◌, ◌-◌, ◌≡◌, ap, sym, ◌∙◌, String, false, ◌||◌, Option, none, some, List, [], ◌∷◌, ◌++◌,
  length, take, ltb, leb, min, if◌then◌else◌, if-elim, arith, take-over, take_zero, take_short,
}
use openlake.Erasure.Codec.{Bytes}
use openlake.Erasure.Shards.{concat}
use openlake.Streams.{is_empty}

-- What one read of a stream gives: bytes, none of them at the end, or an error.
pub data Chunk : Type 0 where
  bytes : Bytes → Chunk
  fails : String → Chunk

-- What one frame of the response's body is.
pub data Sent : Type 0 where
  frame : Bytes → Sent
  broken : String → Sent

abbrev capped : ℕ → Bytes → Bytes
capped n chunk =
    if ltb (min n (length chunk)) (length chunk) then take (min n (length chunk)) chunk else chunk

-- `stream::unfold`: the reads `chunks` of the stream, from `sent` bytes on; after an error the frames go on.
unfoldable pub frames : ℕ → ℕ → List Chunk → List Sent
frames cap sent [] = []
frames cap sent (fails e ∷ cs) = if leb cap sent then [] else broken e ∷ frames cap sent cs
frames cap sent (bytes chunk ∷ cs) =
    let part = capped (cap - sent) chunk in
    let rest = frames cap (sent + length part) cs in
    if leb cap sent || is_empty chunk then [] else frame part ∷ rest

-- The status, `Content-Length` and `Content-Range` of `stream_object_response`.
pub record Head : Type 0 where
  pub status : ℕ
  pub content_length : ℕ
  pub content_range : Option (ℕ × ℕ × ℕ)

unfoldable pub response_head : ℕ → Option (ℕ × ℕ) → Head
response_head total none = record { status = 200; content_length = total; content_range = none }
response_head total (some (offset, length')) = record {
  status = 206;
  content_length = length';
  content_range = some (offset, offset + length' - 1, total);
}

-- The bytes of the frames.
abbrev pub sent_bytes : List Sent → Bytes
sent_bytes [] = []
sent_bytes (frame b ∷ fs) = b ++ sent_bytes fs
sent_bytes (broken e ∷ fs) = sent_bytes fs

-- The reads of a stream that has the chunks.
abbrev pub reads_of : List Bytes → List Chunk
reads_of [] = []
reads_of (c ∷ cs) = bytes c ∷ reads_of cs

abbrev pub AllSome : List Bytes → Type 0
AllSome [] = Unit
AllSome (c ∷ cs) = (is_empty c ≡ false) × AllSome cs

capped_lem : (n : ℕ) (chunk : Bytes) → capped n chunk ≡ take n chunk
capped_lem n chunk =
    if-elim (λ r. r ≡ take n chunk) (ltb (min n (length chunk)) (length chunk)) _ _
      (λ h. let same : min n (length chunk) ≡ n = ground arith in ap (λ m. take m chunk) same)
      (λ h. sym (take_short n chunk (ground arith)))

-- From a stream whose chunks are not empty exactly the first `cap` bytes are sent, or all of them if they
-- are fewer.
pub frames-take :
    (cap sent : ℕ) (cs : List Bytes)
    → AllSome cs
    → sent_bytes (frames cap sent (reads_of cs)) ≡ take (cap - sent) (concat cs)
unfolding frames concat
frames-take cap sent [] h = sym (take_short (cap - sent) [] (omega arith))
frames-take cap sent (c ∷ cs) h =
    if-elim (λ fs. sent_bytes fs ≡ take (cap - sent) (c ++ concat cs)) (leb cap sent || is_empty c)
      _ _
      (λ over. sym (take_zero (cap - sent) (c ++ concat cs) (let some_byte = h.0 in ground arith)))
      λ _.
        let part = capped (cap - sent) c in
        let rest = frames-take cap (sent + length part) cs h.1 in
        let left : cap - (sent + length part) ≡ cap - sent - length part = omega arith in
        ap (λ r. part ++ r) (rest ∙ ap (λ n. take n (concat cs)) left)
        ∙ ap (λ p. p ++ take (cap - sent - length p) (concat cs)) (capped_lem (cap - sent) c)
        ∙ sym (take-over (cap - sent) c (concat cs))
