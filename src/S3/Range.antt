-- ===== src/S3/Range.antt =====
-- crates/openlake_server/src/s3/handlers/objects.rs: the `Range` header, and the bytes that a ranged read
-- sends.
use openlake.Prelude.{
  ℕ, ◌^◌, ◌<◌, ◌≡◌, refl, subst, Bool, true, false, not, Option, none, some, [], ◌∷◌, ◌==◌, ltb,
  if◌then◌else◌, arith,
}
use openlake.Erasure.Codec.{Bytes}
use openlake.Errors.{
  Result, ok, err, ◌>>=◌, ◌>>◌, guard, ok_or, Yields, Yields-after, Yields-bind, Yields-guard,
  Yields_ok,
}
use openlake.Objects.Range.{
  ByteRange, bounded, open_ended, suffix, resolve, IsOrdered, IsWindow, resolve-IsWindow,
}
use openlake.Auth.Text.{codes, split_once, strip_prefix}
use openlake.Auth.Query.{parse_u64}
use openlake.S3.Failures.{AppError, malformed}

-- `parse_u64` of the handler
unfoldable pub parse_bound : Bytes → Result AppError ℕ
unfolding parse_u64
parse_bound s = ok_or (parse_u64 s) (malformed "invalid integer in Range")

abbrev contains : ℕ → Bytes → Bool
contains c [] = false
contains c (d ∷ s) = if d == c then true else contains c s

-- The `match` on which of the two bounds is there.
unfoldable pub range_of : Bytes → Bytes → Result AppError ByteRange
unfolding parse_bound
range_of [] [] = err (malformed "Range 'bytes=-' has neither start nor suffix")
range_of [] (c ∷ e) = do last_n ← parse_bound (c ∷ e); ok (suffix last_n)
range_of (b ∷ s) [] = do start ← parse_bound (b ∷ s); ok (open_ended start)
range_of (b ∷ s) (c ∷ e) = do
  start ← parse_bound (b ∷ s)
  end' ← parse_bound (c ∷ e)
  guard (not (ltb end' start)) (malformed "Range end is before start")
  ok (bounded start end')

unfoldable pub parse_spec : Bytes → Result AppError ByteRange
unfolding strip_prefix split_once range_of
parse_spec raw = do
  spec ← ok_or (strip_prefix (codes "bytes=") raw) (malformed "Range must start with 'bytes='")
  guard (not (contains b',' spec)) (malformed "multi-range requests are not supported")
  halves ← ok_or (split_once b'-' spec) (malformed "Range missing '-' separator")
  range_of halves.0 halves.1

-- The header is not there, is not text, or is a text.
unfoldable pub parse_range_header : Option (Option Bytes) → Result AppError (Option ByteRange)
unfolding parse_spec
parse_range_header none = ok none
parse_range_header (some none) = err (malformed "invalid Range header")
parse_range_header (some (some raw)) = do range ← parse_spec raw; ok (some range)

range_of-IsOrdered : (s e : Bytes) → Yields IsOrdered (range_of s e)
unfolding range_of
range_of-IsOrdered [] [] = tt
range_of-IsOrdered [] (c ∷ e) = Yields-after IsOrdered (parse_bound (c ∷ e)) _ λ _ _. tt
range_of-IsOrdered (b ∷ s) [] = Yields-after IsOrdered (parse_bound (b ∷ s)) _ λ _ _. tt
range_of-IsOrdered (b ∷ s) (c ∷ e) = Yields-after IsOrdered (parse_bound (b ∷ s)) _ λ start _.
    Yields-after IsOrdered (parse_bound (c ∷ e)) _ λ end' _.
      Yields-guard IsOrdered (not (ltb end' start)) _ (ok (bounded start end')) λ h. ground arith

parse_spec-IsOrdered : (raw : Bytes) → Yields IsOrdered (parse_spec raw)
unfolding parse_spec
parse_spec-IsOrdered raw =
    Yields-after IsOrdered (ok_or (strip_prefix (codes "bytes=") raw) _) _ λ spec _.
      Yields-guard IsOrdered (not (contains b',' spec)) _ _ λ _.
        Yields-after IsOrdered (ok_or (split_once b'-' spec) _) _
          λ halves _. range_of-IsOrdered halves.0 halves.1

parse_range_header-IsOrdered :
    (h : Option (Option Bytes))
    → Yields (λ o. (r : ByteRange) → o ≡ some r → IsOrdered r) (parse_range_header h)
unfolding parse_range_header
parse_range_header-IsOrdered none = λ r e. absurd (cc e)
parse_range_header-IsOrdered (some none) = tt
parse_range_header-IsOrdered (some (some raw)) =
    Yields-bind (λ o. (r : ByteRange) → o ≡ some r → IsOrdered r) (parse_spec raw) _
      (parse_spec-IsOrdered raw) λ q o r e. let same : q ≡ r = cc e in subst IsOrdered same o

-- A range that is read off a `Range` header is resolved, for every object of fewer than 2 ^ 64 bytes, to a
-- window that is not empty and holds exactly the bytes of the object that are asked for, or to none where
-- there are no such bytes.
pub parse_range_header-IsWindow :
    (h : Option (Option Bytes)) (r : ByteRange) (size : ℕ)
    → parse_range_header h ≡ ok (some r)
    → size < 2 ^ 64
    → IsWindow r size (resolve r size)
parse_range_header-IsWindow h r size e b = resolve-IsWindow r size b (
    Yields_ok (λ o. (q : ByteRange) → o ≡ some q → IsOrdered q) (parse_range_header h) (some r)
      (parse_range_header-IsOrdered h) e r refl)
