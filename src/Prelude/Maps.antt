-- ===== src/Prelude/Maps.antt =====
-- `HashMap` as an association list with one entry for each key, and tallies over it.
use Prim.Native.Nat.{ℕ, ◌+◌}
use mathlib.Core.Path.{◌≡◌}
use mathlib.Core.Logic.{◌⊎◌}
use mathlib.Core.List.{List, [], ◌∷◌}
use mathlib.Core.Option.{Option, none, some}
use native.Mathlib.Omega.{arith}
use openlake.Prelude.Tests.{if◌then◌else◌, Eq}
use openlake.Prelude.Lists.{count}

module _ {ℓ κ} {K : Type ℓ} {V : Type κ} ⦃e : Eq K⦄ where
  -- `HashMap::get`
  unfoldable pub get : K → List (K × V) → Option V
  get k [] = none
  get k ((j, v) ∷ m) = if e.beq j k then some v else get k m

  -- `HashMap::remove`
  unfoldable pub remove : K → List (K × V) → List (K × V)
  remove k [] = []
  remove k ((j, v) ∷ m) = let rest = remove k m in if e.beq j k then rest else (j, v) ∷ rest

  -- `HashMap::insert`
  unfoldable pub insert : K → V → List (K × V) → List (K × V)
  unfolding remove
  insert k v m = (k, v) ∷ remove k m

  pub get-remove :
      (k j : K) (m : List (K × V)) → get j (remove k m) ≡ (if e.beq k j then none else get j m)
  unfolding get remove
  get-remove k j [] = ground arith
  get-remove k j ((i, v) ∷ m) =
      ground (arith, get-remove k j m, e.beq_iff i k, e.beq_iff i j, e.beq_iff k j)

  pub get-insert :
      (k j : K) (v : V) (m : List (K × V))
      → get j (insert k v m) ≡ (if e.beq k j then some v else get j m)
  unfolding get insert
  get-insert k j v m = ground (arith, get-remove k j m)

module _ {ℓ} {K : Type ℓ} ⦃e : Eq K⦄ where
  -- `*entry(k).or_insert(0) += 1`
  unfoldable pub bump : K → List (K × ℕ) → List (K × ℕ)
  bump k [] = (k, 1) ∷ []
  bump k ((j, n) ∷ m) = if e.beq j k then (j, n + 1) ∷ m else (j, n) ∷ bump k m

  -- One such update for each key.
  unfoldable pub tally : List K → List (K × ℕ) → List (K × ℕ)
  unfolding bump
  tally [] m = m
  tally (k ∷ ks) m = tally ks (bump k m)

  unfoldable pub entry_count : K → List (K × ℕ) → ℕ
  entry_count k [] = 0
  entry_count k ((j, n) ∷ m) = if e.beq j k then n else entry_count k m

  pub entry_count-bump :
      (k j : K) (m : List (K × ℕ))
      → entry_count j (bump k m) ≡ (if e.beq j k then 1 else 0) + entry_count j m
  unfolding entry_count bump
  entry_count-bump k j [] = ground (arith, e.beq_iff k j, e.beq_iff j k)
  entry_count-bump k j ((i, n) ∷ m) =
      ground (arith, entry_count-bump k j m, e.beq_iff i k, e.beq_iff i j, e.beq_iff j k)

  -- The tally of a key is how often it was counted.
  pub entry_count-tally :
      (j : K) (ks : List K) (m : List (K × ℕ))
      → entry_count j (tally ks m) ≡ count (e.beq j) ks + entry_count j m
  unfolding tally
  entry_count-tally j [] m = omega arith
  entry_count-tally j (k ∷ ks) m =
      omega (arith, entry_count-tally j ks (bump k m), entry_count-bump k j m)

-- The map has the entry `(k, n)`.
abbrev pub Has : {K : Type 0} → K → ℕ → List (K × ℕ) → Type 0
Has k n [] = ⊥
Has k n ((j, c) ∷ m) = ((j ≡ k) × (c ≡ n)) ⊎ Has k n m
