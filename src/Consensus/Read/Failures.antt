-- ===== src/Consensus/Read/Failures.antt =====
-- Where fewer disks fail than half of them, no error is surfaced.
use openlake.Prelude.{
  ℕ, ◌+◌, ◌≤◌, ◌<◌, ◌≡◌, refl, Bool, true, false, Option, none, some, List, [], ◌∷◌, count, All,
  All-imp, arith, leb, ◌==◌, if◌then◌else◌, if-elim,
}
use openlake.Errors.{IoError}
use openlake.Consensus.Results.{
  Bucket, error_tag, count_error, tally_errors, modal, is_noise, dominant, dominant_error,
}
use openlake.Consensus.Read.{surfaced}
use openlake.Consensus.Read.Hashes.{IsFair}

abbrev pub is_some {ℓ} : {A : Type ℓ} → Option A → Bool
is_some none = false
is_some (some a) = true

-- The bucket's count and `c` more errors do not come to more than `n`.
abbrev Within : (n c : ℕ) → Bucket → Type 0
Within n c b = b.times + c ≤ n

Within-less : (n c d : ℕ) (bs : List Bucket) → d ≤ c → All (Within n c) bs → All (Within n d) bs
Within-less n c d bs le a = All-imp (λ b h. omega (arith, h, le)) bs a

count_error-Within :
    (n c : ℕ) (e : IoError) (bs : List Bucket)
    → 1 + c ≤ n
    → All (Within n (1 + c)) bs
    → All (Within n c) (count_error e bs)
unfolding count_error
count_error-Within n c e [] le a = (omega (arith, le), tt)
count_error-Within n c e (b ∷ bs) le (h, a) =
    if-elim (All (Within n c)) (b.tag == error_tag e) (record b { times = b.times + 1 } ∷ bs)
      (b ∷ count_error e bs) (λ _. (omega (arith, h), Within-less n (1 + c) c bs (omega arith) a))
      (λ _. (omega (arith, h), count_error-Within n c e bs le a))

tally_errors-Within :
    (n : ℕ) (errs : List (Option IoError)) (bs : List Bucket)
    → count is_some errs ≤ n
    → All (Within n (count is_some errs)) bs
    → All (Within n 0) (tally_errors errs bs)
unfolding tally_errors
tally_errors-Within n [] bs le a = a
tally_errors-Within n (none ∷ errs) bs le a =
    tally_errors-Within n errs bs (omega (arith, le)) (Within-less n _ _ bs (omega arith) a)
tally_errors-Within n (some e ∷ errs) bs le a =
    tally_errors-Within n errs (if is_noise e then bs else count_error e bs) (omega (arith, le)) (
      if-elim (All (Within n (count is_some errs))) (is_noise e) bs (count_error e bs)
        (λ _. Within-less n _ _ bs (omega arith) a)
        (λ _. count_error-Within n (count is_some errs) e bs le a))

modal-All :
    (P : Bucket → Type 0) (best : Bucket) (bs : List Bucket)
    → P best
    → All P bs
    → (b : Bucket) × (modal (some best) bs ≡ some b) × P b
unfolding modal
modal-All P best [] p a = (best, refl, p)
modal-All P best (b ∷ bs) p (q, a) =
    if-elim {A = Option Bucket} (λ z. (c : Bucket) × (modal z bs ≡ some c) × P c)
      (leb best.times b.times) (some b) (some best) (λ _. modal-All P b bs q a)
      (λ _. modal-All P best bs p a)

quiet :
    (n half : ℕ) (bs : List Bucket)
    → n < half
    → All (Within n 0) bs
    → surfaced half (dominant (modal none bs)) ≡ none
unfolding modal
quiet n half [] l a = refl
quiet n half (b ∷ bs) l (h, a) =
    let (c, found, le) = modal-All (Within n 0) b bs h a in
    let below : leb half c.times ≡ false = ground (arith, le, l) in rw (found, below)

pub few_errors :
    (order : List Bucket → List Bucket) (errs : List (Option IoError)) (half : ℕ)
    → IsFair order
    → count is_some errs < half
    → surfaced half (dominant_error order errs) ≡ none
unfolding dominant_error
few_errors order errs half fair l =
    let n = count is_some errs in
    quiet n half (order (tally_errors errs [])) l (
      (fair (Within n 0) (tally_errors errs [])).1 (tally_errors-Within n errs [] (omega arith) tt))
