-- ===== src/S3/Ranged.antt =====
-- crates/openlake_server/src/s3/handlers/objects.rs with crates/openlake_storage/src/engine.rs and
-- crates/openlake_io/src/stream.rs: a ranged read of an object whose bytes stand in its record.
use openlake.Prelude.{
  ℕ, ◌+◌, ◌-◌, ◌^◌, ◌≤◌, ◌<◌, ◌≡◌, refl, ap, subst, ◌∙◌, Option, some, List, [], ◌∷◌, length, take,
  drop, arith, length-take, length-drop, take_short,
}
use openlake.Erasure.Codec.{Bytes}
use openlake.Erasure.Shards.{concat}
use openlake.Errors.{Result, ok, IoError}
use openlake.Objects.Range.{ByteRange, resolve, IsWindow}
use openlake.Streams.{read_rope}
use openlake.Streams.Facts.{Gives}
use openlake.Streams.Skip
use openlake.Streams.Window.{Gives-window}
use openlake.S3.Range.{parse_range_header, parse_range_header-IsWindow}
use openlake.S3.Serve.{AllSome, frames, reads_of, sent_bytes, frames-take, response_head}

Gives-rope : (fs : List Bytes) → AllSome fs → Gives read_rope fs fs
unfolding read_rope
Gives-rope [] h = ([], refl)
Gives-rope (f ∷ fs) h = (fs, refl, h.0, Gives-rope fs h.1)

AllSome-Gives :
    {S : Type 0} (read : S → Result IoError (Bytes × S)) (ds : List Bytes) (s : S)
    → Gives read ds s
    → AllSome ds
AllSome-Gives read [] s g = tt
AllSome-Gives read (d ∷ ds) s (t, _, some_bytes, g) = (some_bytes, AllSome-Gives read ds t g)

-- A ranged read of an object whose bytes stand in its record, in frames that are not empty: if the
-- header asks for a window of `n` bytes from `o` on, the stream that the engine hands over can be read to
-- its end, and the response sends just those bytes of the object, as many as its length announces.
pub ranged_read :
    (h : Option (Option Bytes)) (r : ByteRange) (fs : List Bytes) (o n : ℕ)
    → parse_range_header h ≡ ok (some r)
    → length (concat fs) < 2 ^ 64
    → AllSome fs
    → resolve r (length (concat fs)) ≡ some (o, n)
    → (ds : List Bytes) × Gives (Skip.read read_rope) ds (Skip.new fs o n)
      × (sent_bytes (frames n 0 (reads_of ds)) ≡ take n (drop o (concat fs)))
      × (length (sent_bytes (frames n 0 (reads_of ds)))
          ≡ (response_head (length (concat fs)) (some (o, n))).content_length)
unfolding response_head
ranged_read h r fs o n parsed small some_bytes window =
    let (ds, gives, same) = Gives-window read_rope fs fs o n (Gives-rope fs some_bytes) in
    let within =
      subst (IsWindow r (length (concat fs))) window
        (parse_range_header-IsWindow h r (length (concat fs)) parsed small) in
    let whole : n - 0 ≡ n = omega arith in
    let short : length (concat ds) ≤ n =
      omega (arith, ap length same, length-take n (drop o (concat fs))) in
    let sent : sent_bytes (frames n 0 (reads_of ds)) ≡ take n (drop o (concat fs)) =
      frames-take n 0 ds (AllSome-Gives (Skip.read read_rope) ds _ gives)
      ∙ ap (λ m. take m (concat ds)) whole
      ∙ take_short n (concat ds) short
      ∙ same in
    let fits : o + n ≤ length (concat fs) = within.1 in
    (
      ds,
      gives,
      sent,
      ap length sent
          ∙ omega (arith, fits, length-take n (drop o (concat fs)), length-drop o (concat fs)),
    )
