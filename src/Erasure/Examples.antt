-- ===== src/Erasure/Examples.antt =====
-- Runs of the stripe codec over replication, the code with one data shard.
use mathlib.Core.Path.{◌≡◌, refl}
use openlake.Prelude.{
  ℕ, zero, suc, ◌+◌, ◌≤◌, inl, inr, Option, none, some, List, [], ◌∷◌, length, count, get_elem?,
  All, arith, ◌==◌, leb, if◌then◌else◌,
}
use openlake.Errors.{ok}
use openlake.Erasure.Codec.{Codec, Recovers, Bytes, HasUnit, Survives, is_some}
use openlake.Erasure.Shards.{concat}
use openlake.Erasure.Stripe.{Erasure, encode_stripe, decode_stripe}
use openlake.Erasure.Stripe.Loss.{decode_stripe_survivors, decode_stripe-encode_stripe}

abbrev copies : List Bytes → List Bytes
copies [] = []
copies (d ∷ ds) = d ∷ d ∷ []

abbrev first_some : List (Option Bytes) → Option Bytes
first_some [] = none
first_some (none ∷ os) = first_some os
first_some (some d ∷ os) = some d

abbrev or_first : List (Option Bytes) → List (Option Bytes) → ℕ → Option Bytes
or_first os ps i = elim (first_some os) [ none ↦ first_some ps | some d ↦ some d ]

-- One data shard, and two copies of it.
abbrev replication : Codec
replication = record {
  supports = λ n m unit. n == 1;
  encode = λ n m unit shards. some (get_elem? (copies shards));
  decode = λ n m unit os ps.
      if leb n (count is_some os + count is_some ps) then some (or_first os ps) else none;
}

restores_copy :
    (shards : List Bytes) (os ps : List (Option Bytes)) (i : ℕ) (d : Bytes)
    → length shards ≡ 1
    → Survives shards os
    → Survives (copies shards) ps
    → 1 ≤ count is_some os + count is_some ps
    → get_elem? shards i ≡ some d
    → or_first os ps i ≡ some d
restores_copy [] os ps i d l so sp q g = absurd (omega arith)
restores_copy (x ∷ y ∷ xs) os ps i d l so sp q g = absurd (omega arith)
restores_copy (x ∷ []) [] ps i d l so sp q g = absurd so
restores_copy (x ∷ []) (o ∷ os) [] i d l so sp q g = absurd sp
restores_copy (x ∷ []) (o ∷ os) (p ∷ []) i d l so sp q g = absurd sp.1
restores_copy (x ∷ []) (o ∷ o' ∷ os) (p ∷ p' ∷ ps) i d l so sp q g = absurd so.1
restores_copy (x ∷ []) (o ∷ []) (p ∷ p' ∷ p'' ∷ ps) i d l so sp q g = absurd sp.1.1
restores_copy (x ∷ []) (o ∷ []) (p ∷ p' ∷ []) zero d l so sp q g = ground arith
restores_copy (x ∷ []) (o ∷ []) (p ∷ p' ∷ []) (suc i) d l so sp q g = ground arith

encodes_copy :
    (unit : ℕ) (shards : List Bytes)
    → length shards ≡ 1
    → All (HasUnit unit) shards
    → (length (copies shards) ≡ 2) × All (HasUnit unit) (copies shards)
encodes_copy unit [] l u = absurd (omega arith)
encodes_copy unit (x ∷ []) l u = (refl, (u.0, (u.0, tt)))
encodes_copy unit (x ∷ y ∷ xs) l u = absurd (omega arith)

replication-Recovers : (unit : ℕ) → Recovers replication 1 2 unit
replication-Recovers unit = record {
  supported = refl;
  recoveries = copies;
  encodes = λ shards l u. let (a, b) = encodes_copy unit shards l u in (a, b, refl);
  restored = or_first;
  decodes = λ shards os ps l u so sp q. ground arith;
  restores = λ shards os ps i d l u so sp q g h. restores_copy shards os ps i d l so sp q g;
}

abbrev ec : Erasure
ec = record { data_shards = 1; parity_shards = 2 }

abbrev slots : List (Option Bytes)
slots = none ∷ none ∷ some (7 ∷ 8 ∷ []) ∷ []

decode_stripe_survivors_example : decode_stripe replication ec slots 2 ≡ ok ((7 ∷ 8 ∷ []) ∷ [])
unfolding replication-Recovers
decode_stripe_survivors_example =
    decode_stripe_survivors replication ec 2 (replication-Recovers 2) ((7 ∷ 8 ∷ []) ∷ []) slots
      (omega arith) refl refl (refl, tt) (inl refl, (inl refl, (inr refl, tt))) (omega arith)

decode_stripe-encode_stripe_example :
    (decoded : List Bytes) × (decode_stripe replication ec slots 2 ≡ ok decoded)
    × (concat decoded ≡ 7 ∷ 8 ∷ [])
unfolding encode_stripe
decode_stripe-encode_stripe_example =
    decode_stripe-encode_stripe replication ec 2 (replication-Recovers 2) (7 ∷ 8 ∷ [])
      ((7 ∷ 8 ∷ []) ∷ (7 ∷ 8 ∷ []) ∷ (7 ∷ 8 ∷ []) ∷ []) slots (omega arith) (omega arith) refl refl
      refl (inl refl, (inl refl, (inr refl, tt))) (omega arith)
