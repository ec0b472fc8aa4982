-- ===== src/Erasure/Shards.antt =====
-- Cutting a stripe into shards, and the slots of the shards that were read.
use openlake.Prelude.{
  ℕ, zero, suc, ◌+◌, ◌*◌, ◌≡◌, refl, ap, Option, List, [], ◌∷◌, ◌++◌, length, length-take,
  length-drop, take, drop, take-append-drop, count, All, arith,
}
use openlake.Erasure.Codec.{Bytes, is_some, Survives, HasUnit}

-- `stripe.slice(i * unit..(i + 1) * unit)` for each `i` below `n`, as the rest of the stripe after
-- the shards before.
unfoldable pub cut : ℕ → ℕ → Bytes → List Bytes
cut zero unit stripe = []
cut (suc n) unit stripe = take unit stripe ∷ cut n unit (drop unit stripe)

unfoldable pub concat : List Bytes → Bytes
concat [] = []
concat (b ∷ bs) = b ++ concat bs

pub length-cut : (n unit : ℕ) (b : Bytes) → length (cut n unit b) ≡ n
unfolding cut
length-cut zero unit b = refl
length-cut (suc n) unit b = ap suc (length-cut n unit (drop unit b))

pub cut-HasUnit : (n unit : ℕ) (b : Bytes) → length b ≡ n * unit → All (HasUnit unit) (cut n unit b)
unfolding cut
cut-HasUnit zero unit b h = tt
cut-HasUnit (suc n) unit b h = (
  omega (arith, length-take unit b),
  cut-HasUnit n unit (drop unit b) (omega (arith, length-drop unit b)),
)

-- The shards together are the stripe.
pub concat-cut : (n unit : ℕ) (b : Bytes) → length b ≡ n * unit → concat (cut n unit b) ≡ b
unfolding cut concat
concat-cut zero unit [] h = refl
concat-cut zero unit (x ∷ b) h = absurd (omega arith)
concat-cut (suc n) unit b h =
    rw (concat-cut n unit (drop unit b) (omega (arith, length-drop unit b)))
      (take-append-drop unit b)

pub Survives-length :
    (xs : List Bytes) (os : List (Option Bytes)) → Survives xs os → length os ≡ length xs
Survives-length [] [] s = refl
Survives-length [] (o ∷ os) s = absurd s
Survives-length (x ∷ xs) [] s = absurd s
Survives-length (x ∷ xs) (o ∷ os) s = ap suc (Survives-length xs os s.1)

pub Survives-split :
    (xs ys : List Bytes) (os : List (Option Bytes))
    → Survives (xs ++ ys) os
    → Survives xs (take (length xs) os) × Survives ys (drop (length xs) os)
Survives-split [] ys os s = (tt, s)
Survives-split (x ∷ xs) ys [] s = absurd s
Survives-split (x ∷ xs) ys (o ∷ os) s = let (a, b) = Survives-split xs ys os s.1 in ((s.0, a), b)

pub count-take-drop :
    (n : ℕ) (os : List (Option Bytes))
    → count is_some (take n os) + count is_some (drop n os) ≡ count is_some os
count-take-drop zero os = omega arith
count-take-drop (suc n) [] = omega arith
count-take-drop (suc n) (o ∷ os) = omega (arith, count-take-drop n os)
