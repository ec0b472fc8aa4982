-- ===== src/Streams.antt =====
-- crates/openlake_io/src/stream.rs: streams of bytes. A `ByteStream` is the type of its states and its
-- `read`, which is a parameter of what reads any stream; `read_buffer` is implemented nowhere.
pub mod Skip
pub mod Facts
pub mod Pump
pub mod Window
mod Examples
use openlake.Prelude.{
  ℕ, zero, suc, ◌+◌, ◌-◌, String, Bool, true, false, not, Option, none, some, List, [], ◌∷◌, ◌++◌,
  length, take, ◌==◌, ltb, leb, min, if◌then◌else◌,
}
use openlake.Erasure.Codec.{Bytes}
use openlake.Errors.{Result, ok, err, IoError, io, unexpected_eof, ◌>>=◌}

abbrev pub is_empty {ℓ} : {A : Type ℓ} → List A → Bool
is_empty [] = true
is_empty (x ∷ xs) = false

-- `VecByteStream` and `BytesByteStream`: all at once, and then nothing.
unfoldable pub read_all : Bytes → Result IoError (Bytes × Bytes)
read_all buf = ok (buf, [])

-- `RopeByteStream::read`
unfoldable pub read_rope : List Bytes → Result IoError (Bytes × List Bytes)
read_rope [] = ok ([], [])
read_rope (f ∷ fs) = ok (f, fs)

-- `VecByteSink::write_all`
unfoldable pub write_vec : Bytes → Bytes → Result IoError Bytes
write_vec buf bytes = ok (buf ++ bytes)

module _ {S : Type 0} (read : S → Result IoError (Bytes × S)) where
  -- The loop of `read_full`, on fuel: what is filled of `dst`. A round that goes on fills a byte at least.
  unfoldable pub fill : ℕ → ℕ → Bytes → S → Result IoError (Bytes × S)
  fill zero want filled s = ok (filled, s)
  fill (suc fuel) want filled s =
      let more =
        (read s >>= λ (chunk, t).
        if is_empty chunk
        then ok (filled, t)
        else fill fuel want (filled ++ take (min (want - length filled) (length chunk)) chunk) t) in
      if ltb (length filled) want then more else ok (filled, s)

  unfoldable pub read_full : ℕ → S → Result IoError (Bytes × S)
  unfolding fill
  read_full want s = if want == 0 then ok ([], s) else fill want want [] s

  module _ {W : Type 0} (write_all : W → Bytes → Result IoError W) where
    -- The chunk, cut where it goes past `size`.
    abbrev pub trimmed : ℕ → ℕ → Bytes → Bytes
    trimmed size moved chunk =
        if ltb size (moved + length chunk) then take (size - moved) chunk else chunk

    -- The loop of `pump_n`, on fuel: a round that goes on moves a byte at least.
    unfoldable pub pump : ℕ → ℕ → ℕ → S → W → Result IoError (S × W)
    pump zero size moved s w = ok (s, w)
    pump (suc fuel) size moved s w =
        let more =
          (read s >>= λ (chunk, t).
          if is_empty chunk
          then err (io unexpected_eof "pump_n: source ended at {moved}/{size}")
          else (write_all w (trimmed size moved chunk) >>= λ v.
              pump fuel size (moved + length (trimmed size moved chunk)) t v)) in
        if ltb moved size then more else ok (s, w)

    unfoldable pub pump_n : ℕ → S → W → Result IoError (S × W)
    unfolding pump
    pump_n size s w = pump size size 0 s w
