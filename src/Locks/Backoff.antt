-- ===== src/Locks/Backoff.antt =====
-- crates/openlake_storage/src/dsync.rs: the sleep between two attempts. The pseudo-random number is
-- a parameter.
use openlake.Prelude.{ℕ, zero, suc, ◌+◌, ◌-◌, ◌*◌, ◌%◌, ◌^◌, ◌≤◌, min, max, arith}

abbrev base_backoff : ℕ
base_backoff = 50

abbrev max_backoff : ℕ
max_backoff = 2000

-- `base.checked_shl(shift)`: the shift is below 64, so it is always `Some`, and wraps at 64 bits.
pub jitter : (pseudo attempt : ℕ) → ℕ
jitter pseudo attempt =
    let shift = min attempt 6 in
    let cap = min ((base_backoff * 2 ^ shift) % 2 ^ 64) max_backoff in
    let span = max (cap - base_backoff) 1 in base_backoff + pseudo % span

jitter_cap :
    (p shift : ℕ)
    → shift ≤ 6
    → 50 + p % max (min ((50 * 2 ^ shift) % 2 ^ 64) 2000 - 50) 1 ≤ min (50 * 2 ^ shift) 2000
jitter_cap p zero h = omega arith
jitter_cap p (suc zero) h = omega arith
jitter_cap p (suc (suc zero)) h = omega arith
jitter_cap p (suc (suc (suc zero))) h = omega arith
jitter_cap p (suc (suc (suc (suc zero)))) h = omega arith
jitter_cap p (suc (suc (suc (suc (suc zero))))) h = omega arith
jitter_cap p (suc (suc (suc (suc (suc (suc zero)))))) h = omega arith
jitter_cap p (suc (suc (suc (suc (suc (suc (suc n))))))) h = absurd (omega arith)

-- Whatever the random number, the sleep before the next attempt is at least 50 ms, at most 2 s, and
-- at most 50 ms doubled as often as attempts have failed, six times at most.
pub jitter_bounds :
    (pseudo attempt : ℕ)
    → (50 ≤ jitter pseudo attempt)
      × (jitter pseudo attempt ≤ 2000)
      × (jitter pseudo attempt ≤ 50 * 2 ^ min attempt 6)
unfolding jitter
jitter_bounds p n = omega (arith, jitter_cap p (min n 6) (omega arith))
