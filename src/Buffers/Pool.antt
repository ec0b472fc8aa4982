-- ===== src/Buffers/Pool.antt =====
-- crates/openlake_io/src/alloc/memory_pool.rs: `MemoryPool`. A buffer is known by its capacity.
-- Calls run one after the other here; the counters of calls that overlap are not modelled.
-- `with_capacity` is what the `aligned_vec` crate makes of a request for a capacity.
use openlake.Prelude.{
  ℕ, suc, ◌+◌, ◌-◌, ◌*◌, ◌%◌, Bool, true, false, not, Option, none, some, List, [], ◌∷◌, ◌++◌,
  length, get_elem?, set, max, ◌==◌, leb, ltb, if◌then◌else◌,
}

abbrev pub alignment : ℕ
alignment = 4096

abbrev pub bucket_sizes : List ℕ
bucket_sizes =
    4 * 1024
    ∷ 8 * 1024
    ∷ 16 * 1024
    ∷ 32 * 1024
    ∷ 64 * 1024
    ∷ 128 * 1024
    ∷ 256 * 1024
    ∷ 512 * 1024
    ∷ 768 * 1024
    ∷ 1024 * 1024
    ∷ 1536 * 1024
    ∷ 2 * 1024 * 1024
    ∷ 4 * 1024 * 1024
    ∷ 6 * 1024 * 1024
    ∷ 8 * 1024 * 1024
    ∷ 10 * 1024 * 1024
    ∷ 12 * 1024 * 1024
    ∷ 16 * 1024 * 1024
    ∷ 24 * 1024 * 1024
    ∷ 32 * 1024 * 1024
    ∷ 48 * 1024 * 1024
    ∷ 64 * 1024 * 1024
    ∷ 96 * 1024 * 1024
    ∷ 128 * 1024 * 1024
    ∷ 192 * 1024 * 1024
    ∷ 256 * 1024 * 1024
    ∷ 384 * 1024 * 1024
    ∷ 512 * 1024 * 1024
    ∷ []

pub record MemoryPool : Type 0 where
  pub is_enabled : Bool
  pub memory_limit : ℕ
  pub bucket_capacity : ℕ
  pub buckets : List (List ℕ)
  pub in_use : List ℕ
  pub allocations : List ℕ
  pub returned : List ℕ
  pub external_allocations : ℕ
  pub external_deallocations : ℕ
  pub resize_events : ℕ
  pub dropped_returns : ℕ
  pub capacity_warning : Bool

-- `binary_search` over ascending sizes, as `best_fit` reads it: the first size that is not below
-- `capacity`; `i` is the index of the first size of the list.
unfoldable pub first_fit : ℕ → ℕ → List ℕ → Option ℕ
first_fit capacity i [] = none
first_fit capacity i (s ∷ ss) =
    let rest = first_fit capacity (suc i) ss in if leb capacity s then some i else rest

unfoldable pub best_fit : ℕ → Option ℕ
unfolding first_fit
best_fit capacity = first_fit capacity 0 bucket_sizes

-- `sum` of the products of two arrays.
unfoldable pub dot : List ℕ → List ℕ → ℕ
dot [] ys = 0
dot (x ∷ xs) [] = 0
dot (x ∷ xs) (y ∷ ys) = x * y + dot xs ys

unfoldable pub pool_current_size : MemoryPool → ℕ
unfolding dot
pool_current_size p = dot p.in_use bucket_sizes

abbrev pub or_zero : Option ℕ → ℕ
or_zero none = 0
or_zero (some n) = n

abbrev pub or_empty : Option (List ℕ) → List ℕ
or_empty none = []
or_empty (some l) = l

-- The entry `i` of an array of `NUM_BUCKETS`, and `fetch_add(1)` and `fetch_sub(1)` on it. An index
-- is always one that `best_fit` returned; a count of 0 wraps to the largest `usize`.
abbrev pub at : List ℕ → ℕ → ℕ
at xs i = or_zero (get_elem? xs i)

abbrev pub increment : List ℕ → ℕ → List ℕ
increment xs i = set xs i (at xs i + 1)

abbrev pub decrement : List ℕ → ℕ → List ℕ
decrement xs i = set xs i (if at xs i == 0 then 18446744073709551615 else at xs i - 1)

-- `usize::next_multiple_of`, whose addition wraps around in a release build.
unfoldable pub next_multiple_of : ℕ → ℕ → ℕ
next_multiple_of n rhs = if n % rhs == 0 then n else (n + (rhs - n % rhs)) % 18446744073709551616

module _ (with_capacity : ℕ → ℕ) where
  unfoldable pub allocate_aligned_buffer : ℕ → ℕ
  unfolding next_multiple_of
  allocate_aligned_buffer capacity =
      with_capacity (max (next_multiple_of capacity alignment) alignment)

  -- The branches of `acquire_buffer` for the bucket `idx`: the free buffers of the bucket, from the
  -- first; then a fresh one; the result is the buffer and whether it is tracked.
  unfoldable pub acquire_from : MemoryPool → ℕ → ℕ → List ℕ → MemoryPool × (ℕ × Bool)
  unfolding allocate_aligned_buffer pool_current_size
  acquire_from p capacity idx (buf ∷ rest) =
      let popped = set p.buckets idx rest in
      if ltb buf capacity
      then (
        record p {
          buckets = popped;
          allocations = increment p.allocations idx;
          in_use = increment p.in_use idx;
        },
        (allocate_aligned_buffer (at bucket_sizes idx), true),
      )
      else (record p { buckets = popped; in_use = increment p.in_use idx }, (buf, true))
  acquire_from p capacity idx [] =
      if ltb p.memory_limit (pool_current_size p + at bucket_sizes idx)
      then (
        record p { capacity_warning = true; external_allocations = p.external_allocations + 1 },
        (allocate_aligned_buffer (at bucket_sizes idx), false),
      )
      else (
        record p { allocations = increment p.allocations idx; in_use = increment p.in_use idx },
        (allocate_aligned_buffer (at bucket_sizes idx), true),
      )

  unfoldable pub acquire_buffer : MemoryPool → ℕ → MemoryPool × (ℕ × Bool)
  unfolding acquire_from best_fit
  acquire_buffer p capacity =
      if not p.is_enabled
      then (p, (allocate_aligned_buffer capacity, false))
      else elim (best_fit capacity) [
        | some idx ↦ acquire_from p capacity idx (or_empty (get_elem? p.buckets idx))
        | none ↦ (
          record p { external_allocations = p.external_allocations + 1 },
          (allocate_aligned_buffer capacity, false),
        )
      ]

-- `fetch_sub` on the bucket that the buffer was taken from.
unfoldable pub untrack : MemoryPool → ℕ → Bool → MemoryPool
unfolding best_fit
untrack p original_capacity false = p
untrack p original_capacity true = elim (best_fit original_capacity) [
  | some orig_idx ↦ record p { in_use = decrement p.in_use orig_idx }
  | none ↦ p
]

-- The buffer is pushed to the queue of its bucket, unless that is full.
unfoldable pub put_back : MemoryPool → ℕ → MemoryPool
unfolding best_fit
put_back p capacity = elim (best_fit capacity) [
  | some idx ↦
      let queue = or_empty (get_elem? p.buckets idx) in
      if ltb (length queue) p.bucket_capacity
      then record p {
        returned = increment p.returned idx;
        buckets = set p.buckets idx (queue ++ capacity ∷ []);
      }
      else record p {
        returned = increment p.returned idx;
        dropped_returns = p.dropped_returns + 1;
        capacity_warning = true;
      }
  | none ↦ record p { external_deallocations = p.external_deallocations + 1 }
]

unfoldable pub release_buffer : MemoryPool → ℕ → ℕ → Bool → MemoryPool
unfolding untrack put_back
release_buffer p current_capacity original_capacity was_pool_allocated =
    if not p.is_enabled
    then p
    else put_back
        (untrack
          (record p {
            resize_events =
                if current_capacity == original_capacity
                then p.resize_events
                else p.resize_events + 1;
          })
          original_capacity was_pool_allocated)
        current_capacity
