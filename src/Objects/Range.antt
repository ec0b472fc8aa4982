-- ===== src/Objects/Range.antt =====
-- crates/openlake_storage/src/engine.rs: `ByteRange`, the part of an object that a read asks for.
-- Offsets are `u64`; a difference below 0 wraps.
use openlake.Prelude.{
  ℕ, ◌+◌, ◌-◌, ◌%◌, ◌^◌, ◌≤◌, ◌<◌, ◌≡◌, ◌||◌, Option, none, some, min, ◌==◌, leb, arith,
  if◌then◌else◌, if-elim, subst, sym,
}

pub data ByteRange : Type 0 where
  bounded : (start end' : ℕ) → ByteRange
  open_ended : (start : ℕ) → ByteRange
  suffix : (last_n : ℕ) → ByteRange

unfoldable pub resolve : ByteRange → ℕ → Option (ℕ × ℕ)
resolve (bounded start end') size =
    if size == 0 || leb size start
    then none
    else some (start, ((min end' (size - 1) + 2 ^ 64 - start) % 2 ^ 64 + 1) % 2 ^ 64)
resolve (open_ended start) size =
    if size == 0 || leb size start then none else some (start, size - start)
resolve (suffix last_n) size =
    if size == 0 || last_n == 0 then none else some (size - min last_n size, min last_n size)

-- Byte `i` is one that the range asks for, of an object of `size` bytes.
abbrev pub Asks : ByteRange → ℕ → ℕ → Type 0
Asks (bounded start end') size i = (start ≤ i) × (i ≤ end')
Asks (open_ended start) size i = start ≤ i
Asks (suffix last_n) size i = size ≤ i + last_n

-- The range does not end before it starts.
abbrev pub IsOrdered : ByteRange → Type 0
IsOrdered (bounded start end') = start ≤ end'
IsOrdered (open_ended start) = Unit
IsOrdered (suffix last_n) = Unit

-- The window is the bytes from `o` on, `n` of them.
abbrev pub IsWindow : ByteRange → ℕ → Option (ℕ × ℕ) → Type 0
IsWindow r size none = (i : ℕ) → i < size → Asks r size i → ⊥
IsWindow r size (some (o, n)) =
    (0 < n)
    × (o + n ≤ size)
    × ((i : ℕ) → i < size → Asks r size i → (o ≤ i) × (i < o + n))
    × ((i : ℕ) → o ≤ i → i < o + n → Asks r size i)

-- Nothing wraps between `s` and `a` in an object of fewer than 2 ^ 64 bytes.
window :
    (a s size : ℕ)
    → s ≤ a
    → a < size
    → size < 2 ^ 64
    → ((a + 2 ^ 64 - s) % 2 ^ 64 + 1) % 2 ^ 64 ≡ a - s + 1
window a s size h k l = omega arith

-- A range that does not end before it starts is resolved to a window that is not empty, lies within
-- the object and holds exactly the bytes of the object that are asked for; it is refused exactly where
-- there are none.
pub resolve-IsWindow :
    (r : ByteRange) (size : ℕ) → size < 2 ^ 64 → IsOrdered r → IsWindow r size (resolve r size)
unfolding resolve
resolve-IsWindow (bounded start end') size h o =
    if-elim (IsWindow (bounded start end') size) (size == 0 || leb size start) none _
      (λ t i l a. ground arith)
      (λ f.
        subst (λ n. IsWindow (bounded start end') size (some (start, n)))
          (sym (window (min end' (size - 1)) start size (ground arith) (ground arith) h))
          (
            ground arith,
            ground arith,
            (λ i l a. (ground arith, ground arith)),
            λ i a b. (ground arith, ground arith),
          ))
resolve-IsWindow (open_ended start) size h o =
    if-elim (IsWindow (open_ended start) size) (size == 0 || leb size start) none _
      (λ t i l a. ground arith)
      (λ f. (
        ground arith,
        ground arith,
        (λ i l a. (ground arith, ground arith)),
        λ i a b. ground arith,
      ))
resolve-IsWindow (suffix last_n) size h o =
    if-elim (IsWindow (suffix last_n) size) (size == 0 || last_n == 0) none _
      (λ t i l a. ground arith)
      (λ f. (
        ground arith,
        ground arith,
        (λ i l a. (ground arith, ground arith)),
        λ i a b. ground arith,
      ))
