-- ===== src/Consensus/Results/Verdict.antt =====
-- The verdict of `require_quorum` on every outcome of the disks.
use openlake.Prelude.{
  ℕ, ◌+◌, ◌≤◌, ◌<◌, ◌≡◌, refl, ◌⊎◌, inl, inr, Bool, true, false, Option, none, some, List, [], ◌∷◌,
  count, map, All, ap, subst, sym, ◌∙◌, nat_eq, arith, ◌==◌, leb, if◌then◌else◌, if-elim,
  Bool-cases, Option-cases,
}
use openlake.Prelude.Maps.{Has, bump, tally}
use openlake.Consensus.Tally.{AtMost, max_by_count, max_by_count_max, max_by_count-none, Has-tally}
use openlake.Errors.{Result, ok, err, IoError}
use openlake.Consensus.Results.{
  Bucket, error_tag, count_error, modal, sort_results, modal_error, require_quorum,
}

abbrev pairs : List Bucket → List (ℕ × ℕ)
pairs = map λ b. (b.tag, b.times)

abbrev pair_of : Option Bucket → Option (ℕ × ℕ)
pair_of none = none
pair_of (some b) = some (b.tag, b.times)

pairs-count_error :
    (e : IoError) (bs : List Bucket) → pairs (count_error e bs) ≡ bump (error_tag e) (pairs bs)
unfolding count_error bump
pairs-count_error e [] = refl
pairs-count_error e (b ∷ bs) = ground (arith, pairs-count_error e bs)

modal-max :
    (best : Option Bucket) (bs : List Bucket)
    → pair_of (modal best bs) ≡ max_by_count (pair_of best) (pairs bs)
unfolding modal max_by_count
modal-max best [] = refl
modal-max none (b ∷ bs) = modal-max (some b) bs
modal-max (some a) (b ∷ bs) =
    if-elim (λ z. pair_of (modal z bs) ≡ max_by_count (pair_of z) (pairs bs)) (leb a.times b.times)
      (some b) (some a) (λ _. modal-max (some b) bs) (λ _. modal-max (some a) bs)
    ∙ ap (λ z. max_by_count z (pairs bs)) (pair_if (leb a.times b.times))
  where
    pair_if :
        (t : Bool)
        → pair_of (if t then some b else some a)
          ≡ (if t then pair_of (some b) else pair_of (some a))
    pair_if true = refl
    pair_if false = refl

-- The example of a bucket is an error of its variant.
abbrev IsExample : (IoError → Type 0) → Bucket → Type 0
IsExample P b = (error_tag b.example ≡ b.tag) × P b.example

count_error-IsExample :
    (P : IoError → Type 0) (e : IoError) (bs : List Bucket)
    → P e
    → All (IsExample P) bs
    → All (IsExample P) (count_error e bs)
unfolding count_error
count_error-IsExample P e [] p a = ((refl, p), tt)
count_error-IsExample P e (b ∷ bs) p (a, rest) =
    if-elim (All (IsExample P)) (b.tag == error_tag e) (record b { times = b.times + 1 } ∷ bs)
      (b ∷ count_error e bs) (λ _. (a, rest)) (λ _. (a, count_error-IsExample P e bs p rest))

modal-IsExample :
    (P : IoError → Type 0) (best : Option Bucket) (bs : List Bucket)
    → ((b : Bucket) → best ≡ some b → IsExample P b)
    → All (IsExample P) bs
    → (b : Bucket) → modal best bs ≡ some b
    → IsExample P b
unfolding modal
modal-IsExample P best [] f a = f
modal-IsExample P none (b ∷ bs) f (a, rest) =
    modal-IsExample P (some b) bs (λ d e. subst (IsExample P) {x = b} {y = d} (cc e) a) rest
modal-IsExample P (some c) (b ∷ bs) f (a, rest) =
    modal-IsExample P (if leb c.times b.times then some b else some c) bs
      (if-elim (λ z. (d : Bucket) → z ≡ some d → IsExample P d) (leb c.times b.times) (some b)
        (some c) (λ _ d e. subst (IsExample P) {x = b} {y = d} (cc e) a) (λ _. f))
      rest

tally-nil : (ks : List ℕ) → tally ks [] ≡ [] → ks ≡ []
tally-nil [] e = refl
tally-nil (k ∷ ks) e = absurd (
    subst (Has k (count (nat_eq.beq k) (k ∷ ks))) e
      ((Has-tally k _ (k ∷ ks)).1 (refl, ground arith)))

module _ {A : Type 0} (benign : IoError → Bool) where
  -- The result counts towards the quorum.
  abbrev pub is_good : Result IoError A → Bool
  is_good (ok a) = true
  is_good (err e) = benign e

  -- The result is an error of the variant `t` that does not count towards the quorum.
  abbrev pub is_bad : ℕ → Result IoError A → Bool
  is_bad t (ok a) = false
  is_bad t (err e) = if benign e then false else error_tag e == t

  -- Among the results is the error `e`, and it does not count towards the quorum.
  abbrev pub Fails : IoError → List (Result IoError A) → Type 0
  Fails e [] = ⊥
  Fails e (r ∷ rs) = ((r ≡ err e) × (benign e ≡ false)) ⊎ Fails e rs

  bad_tags : List (Result IoError A) → List ℕ
  bad_tags [] = []
  bad_tags (ok a ∷ rs) = bad_tags rs
  bad_tags (err e ∷ rs) = let rest = bad_tags rs in if benign e then rest else error_tag e ∷ rest

  sort_results_oks :
      (rs : List (Result IoError A)) (oks : ℕ) (bs : List Bucket)
      → (sort_results benign rs oks bs).0 ≡ oks + count is_good rs
  unfolding sort_results
  sort_results_oks [] oks bs = omega arith
  sort_results_oks (ok a ∷ rs) oks bs = omega (arith, sort_results_oks rs (oks + 1) bs)
  sort_results_oks (err e ∷ rs) oks bs = ground (
    arith,
    sort_results_oks rs (if benign e then oks + 1 else oks)
        (if benign e then bs else count_error e bs),
  )

  pairs-sort_results :
      (rs : List (Result IoError A)) (oks : ℕ) (bs : List Bucket)
      → pairs (sort_results benign rs oks bs).1 ≡ tally (bad_tags rs) (pairs bs)
  unfolding sort_results bad_tags tally
  pairs-sort_results [] oks bs = refl
  pairs-sort_results (ok a ∷ rs) oks bs = pairs-sort_results rs (oks + 1) bs
  pairs-sort_results (err e ∷ rs) oks bs = ground (
    arith,
    pairs-sort_results rs (if benign e then oks + 1 else oks)
        (if benign e then bs else count_error e bs),
    pairs-count_error e bs,
  )

  count-bad_tags :
      (t : ℕ) (rs : List (Result IoError A))
      → count (nat_eq.beq t) (bad_tags rs) ≡ count (is_bad t) rs
  unfolding bad_tags
  count-bad_tags t [] = refl
  count-bad_tags t (ok a ∷ rs) = omega (arith, count-bad_tags t rs)
  count-bad_tags t (err e ∷ rs) = ground (arith, count-bad_tags t rs)

  sort_results-IsExample :
      (P : IoError → Type 0) (rs : List (Result IoError A)) (oks : ℕ) (bs : List Bucket)
      → ((e : IoError) → Fails e rs → P e)
      → All (IsExample P) bs
      → All (IsExample P) (sort_results benign rs oks bs).1
  unfolding sort_results
  sort_results-IsExample P [] oks bs f a = a
  sort_results-IsExample P (ok x ∷ rs) oks bs f a =
      sort_results-IsExample P rs (oks + 1) bs (λ e h. f e (inr h)) a
  sort_results-IsExample P (err e ∷ rs) oks bs f a =
      sort_results-IsExample P rs (if benign e then oks + 1 else oks)
        (if benign e then bs else count_error e bs) (λ d h. f d (inr h))
        (if-elim (All (IsExample P)) (benign e) bs (count_error e bs) (λ _. a)
          (λ n. count_error-IsExample P e bs (f e (inl (refl, n))) a))

  pub Worst : IoError → List (Result IoError A) → Type 0
  Worst e rs = Fails e rs × ((t : ℕ) → count (is_bad t) rs ≤ count (is_bad (error_tag e)) rs)

  no_failures : (rs : List (Result IoError A)) (t : ℕ) → bad_tags rs ≡ [] → count (is_bad t) rs ≡ 0
  no_failures rs t e = sym (count-bad_tags t rs) ∙ ap (count (nat_eq.beq t)) e

  -- Below the quorum: the modal error.
  modal_error-Worst :
      (rs : List (Result IoError A)) (oks : ℕ)
      → let e = modal_error (modal none (sort_results benign rs oks []).1) in
        Worst e rs ⊎ ((e ≡ modal_error none) × ((t : ℕ) → count (is_bad t) rs ≡ 0))
  unfolding Worst
  modal_error-Worst rs oks = elim (Option-cases (modal none bs)) [
    | inl none' ↦ inr (
      ap modal_error none',
      λ t. no_failures rs t (
          tally-nil (bad_tags rs) (
            sym through
            ∙ max_by_count-none (pairs bs) (sym (modal-max none bs) ∙ ap pair_of none'))),
    )
    | inr (b, w) ↦
        let (tagged, fails) =
          modal-IsExample (λ e. Fails e rs) none bs (λ d f. absurd (cc f))
            (sort_results-IsExample (λ e. Fails e rs) rs oks [] (λ e f. f) tt) b w in
        inl (subst (λ x. Worst x rs) (sym (ap modal_error w)) (fails, most b w tagged))
  ]
    where
      bs : List Bucket
      bs = (sort_results benign rs oks []).1

      through : pairs bs ≡ tally (bad_tags rs) []
      through = pairs-sort_results rs oks []

      most :
          (b : Bucket)
          → modal none bs ≡ some b
          → error_tag b.example ≡ b.tag
          → (t : ℕ) → count (is_bad t) rs ≤ count (is_bad (error_tag b.example)) rs
      most b w tagged t = elim (Bool-cases (leb 1 (count (nat_eq.beq t) tags))) [
        | inl some' ↦ omega (
          arith,
          count-bad_tags t rs,
          count-bad_tags (error_tag b.example) rs,
          here,
          top t (count (nat_eq.beq t) tags) ((Has-tally t _ tags).1 (refl, ground arith)),
        )
        | inr none' ↦ ground (arith, count-bad_tags t rs)
      ]
        where
          tags : List ℕ
          tags = bad_tags rs

          chosen : max_by_count none (tally tags []) ≡ some (b.tag, b.times)
          chosen = ap (max_by_count none) (sym through) ∙ sym (modal-max none bs) ∙ ap pair_of w

          top : AtMost b.times (tally tags [])
          top = (max_by_count_max (tally tags []) b.tag b.times chosen).1

          here : count (nat_eq.beq (error_tag b.example)) tags ≡ b.times
          here =
              ap (λ x. count (nat_eq.beq x) tags) tagged
              ∙ ((Has-tally b.tag b.times tags).0
                  (max_by_count_max (tally tags []) b.tag b.times chosen).0).0

  -- The verdict. If at least `quorum` results are successes or benign errors, the call succeeds. If
  -- not, it fails with an error that a disk returned and that is not benign, of a variant that no
  -- other variant outnumbers; or, where no disk failed, with `no results`.
  pub require_quorum_verdict :
      (rs : List (Result IoError A)) (quorum : ℕ)
      → (quorum ≤ count is_good rs → require_quorum rs quorum benign ≡ ok tt)
        × (count is_good rs < quorum
            → (e : IoError) × (require_quorum rs quorum benign ≡ err e)
              × (Worst e rs ⊎ ((e ≡ modal_error none) × ((t : ℕ) → count (is_bad t) rs ≡ 0))))
  unfolding require_quorum
  require_quorum_verdict rs quorum = (
    λ h. rw (passes h),
    λ h. (
      modal_error (modal none (sort_results benign rs 0 []).1),
      rw (fails h),
      modal_error-Worst rs 0,
    ),
  )
    where
      passes : quorum ≤ count is_good rs → leb quorum (sort_results benign rs 0 []).0 ≡ true
      passes h = ground (arith, sort_results_oks rs 0 [])

      fails : count is_good rs < quorum → leb quorum (sort_results benign rs 0 []).0 ≡ false
      fails h = ground (arith, sort_results_oks rs 0 [])
