-- ===== src/Erasure/Sizes.antt =====
-- crates/openlake_storage/src/ec.rs: the size of a shard.
use native.Mathlib.Nat.{div-mul-le_self, lt-div-mul-add}
use openlake.Prelude.{ℕ, ◌+◌, ◌-◌, ◌*◌, ◌/◌, ◌%◌, ◌≤◌, ◌<◌, ◌≡◌, arith}

-- `a.div_ceil(b)`
abbrev pub div_ceil : ℕ → ℕ → ℕ
div_ceil a b = (a + b - 1) / b

-- `raw & 1` is `raw % 2`.
unfoldable pub shard_size : ℕ → ℕ → ℕ
shard_size block_size data_shards = let raw = div_ceil block_size data_shards in raw + raw % 2

mul-le_of_bit : (x d : ℕ) → x < 2 → x * d ≤ d
mul-le_of_bit x d h = grind arith

-- A shard is even, `data_shards` of them hold the block, and they pad the block by fewer than two
-- bytes for each shard.
pub shard_size_bounds :
    (block d : ℕ)
    → 0 < d
    → (shard_size block d % 2 ≡ 0)
      × (block ≤ d * shard_size block d)
      × (shard_size block d * d < block + 2 * d)
unfolding shard_size
shard_size_bounds block d h =
    (omega arith, omega (arith, ceil, floor, odd), omega (arith, ceil, floor, odd))
  where
    raw : ℕ
    raw = (block + d - 1) / d

    floor : raw * d ≤ block + d - 1
    floor = div-mul-le_self (block + d - 1) d

    ceil : block + d - 1 < raw * d + d
    ceil = lt-div-mul-add h

    odd : raw % 2 * d ≤ d
    odd = mul-le_of_bit (raw % 2) d (omega arith)
