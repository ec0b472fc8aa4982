-- ===== src/Auth/TextFacts.antt =====
-- Facts about the texts of crates/openlake_server/src/auth.rs: splitting undoes joining.
use openlake.Prelude.{
  ℕ, ◌≡◌, ◌≢◌, refl, ap, ◌∙◌, Bool, true, false, some, List, [], ◌∷◌, ◌++◌, ◌==◌, if◌then◌else◌,
  All, All-append, if-elim, arith, string_eq,
}
use openlake.Erasure.Codec.{Bytes}
use openlake.Auth.Text.{split, join, strip_prefix, is_space, trim_end, filter, onto, keep}

-- The text does not hold the byte.
abbrev pub Lacks : ℕ → Bytes → Type 0
Lacks d = All (λ c. c ≢ d)

-- The text has no white space.
abbrev pub IsSolid : Bytes → Type 0
IsSolid = All (λ c. is_space c ≡ false)

split-Lacks : (d : ℕ) (p : Bytes) → Lacks d p → split d p ≡ p ∷ []
unfolding split
split-Lacks d [] h = refl
split-Lacks d (c ∷ p) h = ground (arith, split-Lacks d p h.1)

split-append : (d : ℕ) (p s : Bytes) → Lacks d p → split d (p ++ d ∷ s) ≡ p ∷ split d s
unfolding split
split-append d [] s h = ground arith
split-append d (c ∷ p) s h = ground (arith, split-append d p s h.1)

-- Splitting a join gives the parts back.
pub split-join : (d : ℕ) (ps : List Bytes) → ps ≢ [] → All (Lacks d) ps → split d (join d ps) ≡ ps
unfolding join
split-join d [] n h = absurd (n refl)
split-join d (p ∷ []) n h = split-Lacks d p h.0
split-join d (p ∷ q ∷ ps) n h = split-append d p _ h.0 ∙ ap (◌∷◌ p) (split-join d (q ∷ ps) (cc) h.1)

onto-Lacks : (d c : ℕ) (ps : List Bytes) → c ≢ d → All (Lacks d) ps → All (Lacks d) (onto c ps)
onto-Lacks d c [] n h = ((n, tt), tt)
onto-Lacks d c (p ∷ ps) n h = ((n, h.0), h.1)

-- No part of a split holds the byte.
pub split-All-Lacks : (d : ℕ) (s : Bytes) → All (Lacks d) (split d s)
unfolding split
split-All-Lacks d [] = (tt, tt)
split-All-Lacks d (c ∷ s) =
    if-elim (All (Lacks d)) (c == d) ([] ∷ split d s) (onto c (split d s))
      (λ _. (tt, split-All-Lacks d s))
      (λ n. onto-Lacks d c (split d s) (ground arith) (split-All-Lacks d s))

pub strip_prefix-append : (p s : Bytes) → strip_prefix p (p ++ s) ≡ some s
unfolding strip_prefix
strip_prefix-append [] s = refl
strip_prefix-append (c ∷ p) s = ground (arith, strip_prefix-append p s)

keep-solid : (c : ℕ) (s : Bytes) → is_space c ≡ false → keep c s ≡ c ∷ s
keep-solid c [] h = ap (λ b. if b then [] else c ∷ []) h
keep-solid c (d ∷ s) h = refl

pub trim_end-append : (p s : Bytes) → IsSolid p → trim_end s ≡ s → trim_end (p ++ s) ≡ p ++ s
unfolding trim_end
trim_end-append [] s h e = e
trim_end-append (c ∷ p) s h e = rw (trim_end-append p s h.1 e) (keep-solid c (p ++ s) h.0)

pub trim_end-IsSolid : (p : Bytes) → IsSolid p → trim_end p ≡ p
unfolding trim_end
trim_end-IsSolid [] h = refl
trim_end-IsSolid (c ∷ p) h = rw (trim_end-IsSolid p h.1) (keep-solid c p h.0)

pub All-join {κ} :
    (P : ℕ → Type κ) (e : ℕ) (ps : List Bytes) → P e → All (All P) ps → All P (join e ps)
unfolding join
All-join P e [] n h = tt
All-join P e (p ∷ []) n h = h.0
All-join P e (p ∷ q ∷ ps) n h = All-append _ p _ h.0 (n, All-join P e (q ∷ ps) n h.1)

pub filter_id {ℓ} :
    {A : Type ℓ} (p : A → Bool) (xs : List A) → All (λ x. p x ≡ true) xs → filter p xs ≡ xs
unfolding filter
filter_id p [] h = refl
filter_id p (x ∷ xs) h = ground (arith, filter_id p xs h.1)

-- Filtering keeps what holds of every element, and leaves only what passes.
pub filter-All {ℓ κ} :
    {A : Type ℓ} (P : A → Type κ) (p : A → Bool) (xs : List A)
    → All P xs
    → All P (filter p xs) × All (λ x. p x ≡ true) (filter p xs)
unfolding filter
filter-All P p [] h = (tt, tt)
filter-All P p (x ∷ xs) h =
    let (a, b) = filter-All P p xs h.1 in
    if-elim (λ l. All P l × All (λ x. p x ≡ true) l) (p x) (x ∷ filter p xs) (filter p xs)
      (λ e. ((h.0, a), (e, b))) (λ _. (a, b))
