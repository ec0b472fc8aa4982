-- ===== src/Buffers/Examples.antt =====
-- Requests to pools with and without a free buffer.
use openlake.Prelude.{ℕ, ◌≤◌, true, false, [], ◌∷◌, replicate, arith}
use openlake.Buffers.Pool.{MemoryPool, acquire_buffer}
use openlake.Buffers.Fit.{acquire_buffer_ge}

abbrev exactly : ℕ → ℕ
exactly n = n

-- A grown buffer of 5000 bytes waits in the bucket of 8 KiB.
abbrev pool : MemoryPool
pool = record {
  is_enabled = true;
  memory_limit = 1048576;
  bucket_capacity = 4;
  buckets = [] ∷ (5000 ∷ []) ∷ replicate 26 [];
  in_use = replicate 28 0;
  allocations = replicate 28 0;
  returned = replicate 28 0;
  external_allocations = 0;
  external_deallocations = 0;
  resize_events = 0;
  dropped_returns = 0;
  capacity_warning = false;
}

acquire_buffer_ge_example : 6000 ≤ (acquire_buffer exactly pool 6000).1.0
acquire_buffer_ge_example = acquire_buffer_ge exactly pool 6000 (λ n. omega arith) (omega arith)
