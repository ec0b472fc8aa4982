-- ===== src/Streams/Skip.antt =====
-- crates/openlake_io/src/stream.rs: `SkipTakeStream`, a window of another stream.
use openlake.Prelude.{ℕ, zero, suc, ◌+◌, ◌-◌, [], length, take, drop, ◌==◌, leb, min, if◌then◌else◌}
use openlake.Erasure.Codec.{Bytes}
use openlake.Errors.{Result, ok, IoError, ◌>>=◌}
use openlake.Streams.{is_empty}

pub record SkipTakeStream (S : Type 0) : Type 0 where
  pub inner : S
  pub to_skip : ℕ
  pub remaining : ℕ

unfoldable pub new : {S : Type 0} → S → ℕ → ℕ → SkipTakeStream S
new inner skip take' = record { inner = inner; to_skip = skip; remaining = take' }

module _ {S : Type 0} (read_inner : S → Result IoError (Bytes × S)) where
  abbrev pub dropped : ℕ → Bytes → Bytes
  dropped n chunk = if n == 0 then chunk else drop n chunk

  -- What a round returns of a chunk that is longer than what is to be skipped.
  abbrev pub window : ℕ → ℕ → Bytes → S → Bytes × SkipTakeStream S
  window skip remaining chunk t =
      let kept = dropped skip chunk in
      let n = min remaining (length kept) in
      (
        if n == length kept then kept else take n kept,
        record { inner = t; to_skip = 0; remaining = remaining - n },
      )

  -- The loop of `read`, on fuel: a round that goes on skips a byte at least.
  unfoldable pub skip_loop : ℕ → SkipTakeStream S → Result IoError (Bytes × SkipTakeStream S)
  skip_loop zero s = ok ([], s)
  skip_loop (suc fuel) s =
      let more =
        (read_inner s.inner >>= λ (chunk, t).
        if is_empty chunk
        then ok ([], record s { inner = t })
        else if leb (length chunk) s.to_skip
        then skip_loop fuel (record s { inner = t; to_skip = s.to_skip - length chunk })
        else ok (window s.to_skip s.remaining chunk t)) in
      if s.remaining == 0 then ok ([], s) else more

  unfoldable pub read : SkipTakeStream S → Result IoError (Bytes × SkipTakeStream S)
  unfolding skip_loop
  read s = skip_loop (s.to_skip + 1) s
