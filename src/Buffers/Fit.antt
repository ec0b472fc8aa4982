-- ===== src/Buffers/Fit.antt =====
-- The bucket that serves a request, and the size of the buffer that it gets.
use openlake.Prelude.{
  ℕ, zero, suc, ◌+◌, ◌≤◌, ◌<◌, ◌≡◌, sym, subst, ◌∙◌, ◌⊎◌, inl, inr, Bool, false, not, none, some,
  List, [], ◌∷◌, length, max, arith, leb, All, leb→le, ltb, if-elim, Option-cases, get_elem?,
}
use openlake.Buffers.Pool.{
  alignment, bucket_sizes, MemoryPool, first_fit, next_multiple_of, best_fit, at,
  allocate_aligned_buffer, acquire_from, acquire_buffer, or_empty, pool_current_size,
}

-- `j` is the first index of a size that is not below `c`.
abbrev pub IsFirstFit : ℕ → List ℕ → ℕ → Type 0
IsFirstFit c ss j = (j < length ss) × (c ≤ at ss j) × ((m : ℕ) → m < j → at ss m < c)

first_fit-some :
    (c i : ℕ) (ss : List ℕ) (k : ℕ)
    → first_fit c i ss ≡ some k
    → (j : ℕ) × (k ≡ i + j) × IsFirstFit c ss j
unfolding first_fit
first_fit-some c i [] k = λ e. absurd (cc e)
first_fit-some c i (s ∷ ss) k =
    if-elim (λ z. z ≡ some k → (j : ℕ) × (k ≡ i + j) × IsFirstFit c (s ∷ ss) j) (leb c s) (some i)
      (first_fit c (suc i) ss)
      (λ t e.
        let same : i ≡ k = cc e in
        (0, omega (arith, same), (omega arith, leb→le c s t, λ m h. absurd (omega (arith, h)))))
      (λ f e.
        let (j, q, (a, b, g)) = first_fit-some c (suc i) ss k e in
        (suc j, omega (arith, q), (omega (arith, a), b, earlier j f g)))
  where
    earlier :
        (j : ℕ)
        → leb c s ≡ false
        → ((m : ℕ) → m < j → at ss m < c)
        → (m : ℕ) → m < suc j
        → at (s ∷ ss) m < c
    earlier j f g zero h = ground arith
    earlier j f g (suc m) h = g m (omega (arith, h))

first_fit-none :
    (c i : ℕ) (ss : List ℕ) → first_fit c i ss ≡ none → (m : ℕ) → m < length ss → at ss m < c
unfolding first_fit
first_fit-none c i [] = λ e m h. absurd (omega (arith, h))
first_fit-none c i (s ∷ ss) =
    if-elim (λ z. z ≡ none → (m : ℕ) → m < length (s ∷ ss) → at (s ∷ ss) m < c) (leb c s) (some i)
      (first_fit c (suc i) ss) (λ t e. absurd (cc e))
      (λ f e. each f (first_fit-none c (suc i) ss e))
  where
    each :
        leb c s ≡ false
        → ((m : ℕ) → m < length ss → at ss m < c)
        → (m : ℕ) → m < length (s ∷ ss)
        → at (s ∷ ss) m < c
    each f g zero h = ground arith
    each f g (suc m) h = g m (omega (arith, h))

-- `best_fit` finds the first bucket whose size is not below the capacity, and none exactly where every
-- bucket is smaller.
pub best_fit_lem :
    (c : ℕ)
    → ((j : ℕ) × (best_fit c ≡ some j) × IsFirstFit c bucket_sizes j)
      ⊎ ((best_fit c ≡ none) × ((m : ℕ) → m < length bucket_sizes → at bucket_sizes m < c))
unfolding best_fit
best_fit_lem c = elim (Option-cases (first_fit c 0 bucket_sizes)) [
  | inl e ↦ inr (e, first_fit-none c 0 bucket_sizes e)
  | inr (k, e) ↦
      let (j, q, f) = first_fit-some c 0 bucket_sizes k e in
      inl (k, e, subst (IsFirstFit c bucket_sizes) (sym (q ∙ plain j)) f)
]
  where
    plain : (j : ℕ) → 0 + j ≡ j
    plain j = omega arith

-- Short of the wrap-around, rounding up does not make a capacity smaller.
next_multiple_of_ge :
    (n : ℕ) → n + alignment ≤ 18446744073709551616 → n ≤ next_multiple_of n alignment
unfolding next_multiple_of
next_multiple_of_ge n small = ground arith

at_small : (ss : List ℕ) (i : ℕ) → All (λ s. s ≤ 536870912) ss → at ss i ≤ 536870912
at_small [] i h = omega arith
at_small (s ∷ ss) zero h = h.0
at_small (s ∷ ss) (suc i) h = at_small ss i h.1

sizes_small : All (λ s. s ≤ 536870912) bucket_sizes
sizes_small = omega arith

module _ (with_capacity : ℕ → ℕ) (at_least : (n : ℕ) → n ≤ with_capacity n) where
  allocate_ge :
      (n : ℕ) → n + alignment ≤ 18446744073709551616 → n ≤ allocate_aligned_buffer with_capacity n
  unfolding allocate_aligned_buffer
  allocate_ge n small =
      let enough = at_least (max (next_multiple_of n alignment) alignment) in
      omega (arith, enough, next_multiple_of_ge n small)

  -- The sizes of the buckets are far from the wrap-around.
  bucket_ge :
      (i : ℕ) → at bucket_sizes i ≤ allocate_aligned_buffer with_capacity (at bucket_sizes i)
  bucket_ge i = allocate_ge (at bucket_sizes i) (omega (arith, at_small bucket_sizes i sizes_small))

  acquire_from_ge :
      (p : MemoryPool) (c idx : ℕ) (queue : List ℕ)
      → c ≤ at bucket_sizes idx
      → c ≤ (acquire_from with_capacity p c idx queue).1.0
  unfolding acquire_from
  acquire_from_ge p c idx (buf ∷ rest) h =
      if-elim (λ (z : MemoryPool × (ℕ × Bool)). c ≤ z.1.0) (ltb buf c) _ _
        (λ _. omega (arith, h, bucket_ge idx)) (λ f. ground arith)
  acquire_from_ge p c idx [] h =
      let big : c ≤ allocate_aligned_buffer with_capacity (at bucket_sizes idx) =
        omega (arith, h, bucket_ge idx) in
      if-elim (λ (z : MemoryPool × (ℕ × Bool)). c ≤ z.1.0)
        (ltb p.memory_limit (pool_current_size p + at bucket_sizes idx)) _ _ (λ _. big) (λ _. big)

-- Where the allocator gives at least the capacity that it is asked for, a request is served with a
-- buffer of at least the capacity requested, if that is at most `2 ^ 64 - 4096`, on every path: recycled, fresh, over the limit, larger
-- than every bucket, or with the pool disabled.
pub acquire_buffer_ge :
    (with_capacity : ℕ → ℕ) (p : MemoryPool) (c : ℕ)
    → ((n : ℕ) → n ≤ with_capacity n)
    → c + alignment ≤ 18446744073709551616
    → c ≤ (acquire_buffer with_capacity p c).1.0
unfolding acquire_buffer
acquire_buffer_ge with_capacity p c h small =
    if-elim (λ (z : MemoryPool × (ℕ × Bool)). c ≤ z.1.0) (not p.is_enabled) _ _
      (λ _. allocate_ge with_capacity h c small)
      (λ _. elim (best_fit_lem c) [
        | inl (j, e, (_, le, _)) ↦
            rw e (acquire_from_ge with_capacity h p c j (or_empty (get_elem? p.buckets j)) le)
        | inr (e, _) ↦ rw e (allocate_ge with_capacity h c small)
      ])
