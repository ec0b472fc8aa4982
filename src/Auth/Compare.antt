-- ===== src/Auth/Compare.antt =====
-- crates/openlake_server/src/auth.rs: `constant_time_eq` is equality.
use Prim.Native.Nat.{bit_or, bit_xor, digits, differ, max, bit_or-bitwise, bit_xor-bitwise}
use openlake.Prelude.{
  ℕ, zero, suc, ◌/◌, ◌%◌, ◌≤◌, ◌≡◌, ◌↔◌, refl, sym, subst, ◌∙◌, true, [], ◌∷◌, length, arith,
}
use openlake.Erasure.Codec.{Bytes}
use openlake.Auth.Verify.{fold_diff, constant_time_eq}

differ_zero : (x y : ℕ) → differ x y ≡ 0 → x ≡ y
differ_zero zero y h = sym h
differ_zero (suc x) zero h = h
differ_zero (suc x) (suc y) h = omega (arith, differ_zero x y h)

differ_self : (x : ℕ) → differ x x ≡ 0
differ_self zero = refl
differ_self (suc x) = differ_self x

abbrev xor_digits : ℕ → ℕ → ℕ → ℕ
xor_digits = digits (λ b. b) differ

xor_digits_zero : (n a b : ℕ) → a ≤ n → xor_digits n a b ≡ 0 → a ≡ b
xor_digits_zero zero zero b p h = sym h
xor_digits_zero zero (suc a) b p h = absurd (omega arith)
xor_digits_zero (suc n) zero b p h = sym h
xor_digits_zero (suc n) (suc a) b p h = omega (
  arith,
  xor_digits_zero n (suc a / 2) (b / 2) (omega arith) (omega arith),
  differ_zero (suc a % 2) (b % 2) (omega arith),
)

xor_digits_self : (n a : ℕ) → a ≤ n → xor_digits n a a ≡ 0
xor_digits_self zero a h = omega arith
xor_digits_self (suc n) zero h = refl
xor_digits_self (suc n) (suc a) h =
    omega (arith, xor_digits_self n (suc a / 2) (omega arith), differ_self (suc a % 2))

bit_xor_zero : (a b : ℕ) → bit_xor a b ≡ 0 → a ≡ b
bit_xor_zero a b h = xor_digits_zero a a b (omega arith) (sym (bit_xor-bitwise a b) ∙ h)

bit_xor_self : (a : ℕ) → bit_xor a a ≡ 0
bit_xor_self a = bit_xor-bitwise a a ∙ xor_digits_self a a (omega arith)

abbrev or_digits : ℕ → ℕ → ℕ → ℕ
or_digits = digits (λ b. b) max

or_digits_zero : (n a b : ℕ) → a ≤ n → or_digits n a b ≡ 0 → (a ≡ 0) × (b ≡ 0)
or_digits_zero zero zero b p h = (refl, h)
or_digits_zero zero (suc a) b p h = absurd (omega arith)
or_digits_zero (suc n) zero b p h = (refl, h)
or_digits_zero (suc n) (suc a) b p h =
    omega (arith, or_digits_zero n (suc a / 2) (b / 2) (omega arith) (omega arith))

bit_or_zero : (a b : ℕ) → bit_or a b ≡ 0 → (a ≡ 0) × (b ≡ 0)
bit_or_zero a b h = or_digits_zero a a b (omega arith) (sym (bit_or-bitwise a b) ∙ h)

fold_diff_zero :
    (d : ℕ) (a b : Bytes) → length a ≡ length b → fold_diff d a b ≡ 0 → (d ≡ 0) × (a ≡ b)
unfolding fold_diff
fold_diff_zero d [] [] e h = (h, refl)
fold_diff_zero d [] (y ∷ b) e h = absurd (omega arith)
fold_diff_zero d (x ∷ a) [] e h = absurd (omega arith)
fold_diff_zero d (x ∷ a) (y ∷ b) e h =
    let (none_yet, rest) = fold_diff_zero (bit_or d (bit_xor x y)) a b (omega arith) h in
    let (before, here) = bit_or_zero d (bit_xor x y) none_yet in
    (before, cc (bit_xor_zero x y here, rest))

fold_diff_self : (a : Bytes) → fold_diff 0 a a ≡ 0
unfolding fold_diff
fold_diff_self [] = refl
fold_diff_self (x ∷ a) = rw (bit_xor_self x) (fold_diff_self a)

-- `constant_time_eq` accepts exactly equal byte strings.
pub constant_time_eq_lem : (a b : Bytes) → (constant_time_eq a b ≡ true) ↔ (a ≡ b)
unfolding constant_time_eq
constant_time_eq_lem a b = (to, from)
  where
    to : constant_time_eq a b ≡ true → a ≡ b
    to h = (fold_diff_zero 0 a b (ground arith) (ground arith)).1

    from : a ≡ b → constant_time_eq a b ≡ true
    from h = subst (λ c. constant_time_eq a c ≡ true) h (ground (arith, fold_diff_self a))
