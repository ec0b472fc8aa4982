-- ===== src/Erasure/Codec.antt =====
-- The `reed-solomon-simd` crate as crates/openlake_storage/src/ec.rs calls it, and what its
-- documentation promises.
use openlake.Prelude.{
  ℕ, ◌+◌, ◌≤◌, ◌≡◌, ◌⊎◌, Bool, true, false, Option, none, some, List, [], ◌∷◌, length, count,
  get_elem?, All,
}

abbrev pub Bytes : Type 0
Bytes = List ℕ

abbrev pub is_some {ℓ} : {A : Type ℓ} → Option A → Bool
is_some none = false
is_some (some a) = true

-- `supports n m unit`: `ReedSolomonEncoder::new` and `ReedSolomonDecoder::new` succeed.
-- `encode n m unit shards` is `add_original_shard` for each shard and `encode`; what it returns is
-- `recovery`. `decode n m unit originals recoveries` is the same for the decoder and
-- `restored_original`; an absent slot is not added. `none` is an error.
pub record Codec : Type 0 where
  pub supports : ℕ → ℕ → ℕ → Bool
  pub encode : ℕ → ℕ → ℕ → List Bytes → Option (ℕ → Option Bytes)
  pub decode : ℕ → ℕ → ℕ → List (Option Bytes) → List (Option Bytes) → Option (ℕ → Option Bytes)

-- What is left of some shards after losing a part of them: each is there unchanged, or absent.
abbrev pub Survives : List Bytes → List (Option Bytes) → Type 0
Survives [] [] = Unit
Survives [] (o ∷ os) = ⊥
Survives (x ∷ xs) [] = ⊥
Survives (x ∷ xs) (o ∷ os) = ((o ≡ none) ⊎ (o ≡ some x)) × Survives xs os

abbrev pub HasUnit : ℕ → Bytes → Type 0
HasUnit unit b = length b ≡ unit

-- The promise for the counts that the crate supports: `m` recovery shards as long as the originals,
-- from which, with `n` shards of any kind left, every lost original is restored.
pub record Recovers (c : Codec) (n m unit : ℕ) : Type 0 where
  pub supported : c.supports n m unit ≡ true
  pub recoveries : List Bytes → List Bytes
  pub encodes :
      (shards : List Bytes)
      → length shards ≡ n
      → All (HasUnit unit) shards
      → (length (recoveries shards) ≡ m)
        × All (HasUnit unit) (recoveries shards)
        × (c.encode n m unit shards ≡ some (get_elem? (recoveries shards)))
  pub restored : List (Option Bytes) → List (Option Bytes) → ℕ → Option Bytes
  pub decodes :
      (shards : List Bytes) (originals parities : List (Option Bytes))
      → length shards ≡ n
      → All (HasUnit unit) shards
      → Survives shards originals
      → Survives (recoveries shards) parities
      → n ≤ count is_some originals + count is_some parities
      → c.decode n m unit originals parities ≡ some (restored originals parities)
  pub restores :
      (shards : List Bytes) (originals parities : List (Option Bytes)) (i : ℕ) (d : Bytes)
      → length shards ≡ n
      → All (HasUnit unit) shards
      → Survives shards originals
      → Survives (recoveries shards) parities
      → n ≤ count is_some originals + count is_some parities
      → get_elem? shards i ≡ some d
      → get_elem? originals i ≡ some none
      → restored originals parities i ≡ some d
