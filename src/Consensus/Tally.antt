-- ===== src/Consensus/Tally.antt =====
-- Tallies of votes, and the entry that a scan in any order picks.
use openlake.Prelude.{
  ℕ, ◌+◌, ◌≤◌, ◌<◌, ◌≡◌, ◌≢◌, refl, ◌⊎◌, inl, inr, ◌↔◌, false, Option, none, some, List, [], ◌∷◌,
  count, length, arith, leb, if◌then◌else◌, if-elim, Eq, sym, subst, ◌∙◌,
}
use openlake.Prelude.Maps.{Has, bump, tally, entry_count, entry_count-tally}

module _ {K : Type 0} where
  -- The order in which a `HashMap` is iterated: each entry comes up, and nothing else does.
  abbrev pub IsOrder : (List (K × ℕ) → List (K × ℕ)) → Type 0
  IsOrder order = (m : List (K × ℕ)) (k : K) (c : ℕ) → Has k c (order m) ↔ Has k c m

  -- `max_by_key(|(_, c)| *c)`: of equal counts the last entry wins.
  unfoldable pub max_by_count : Option (K × ℕ) → List (K × ℕ) → Option (K × ℕ)
  max_by_count best [] = best
  max_by_count none ((k, c) ∷ m) = max_by_count (some (k, c)) m
  max_by_count (some (j, b)) ((k, c) ∷ m) =
      max_by_count (if leb b c then some (k, c) else some (j, b)) m

  abbrev pub AtMost : ℕ → List (K × ℕ) → Type 0
  AtMost n m = (k : K) (c : ℕ) → Has k c m → c ≤ n

  pub max_by_count-some :
      (j : K) (b : ℕ) (m : List (K × ℕ)) (k : K) (c : ℕ)
      → max_by_count (some (j, b)) m ≡ some (k, c)
      → (((j ≡ k) × (b ≡ c)) ⊎ Has k c m) × (b ≤ c) × AtMost c m
  unfolding max_by_count
  max_by_count-some j b [] k c =
      λ e. (inl (ground arith, ground arith), ground arith, λ k' c' h. absurd h)
  max_by_count-some j b ((i, a) ∷ m) k c =
      if-elim
        (λ z.
          max_by_count z m ≡ some (k, c)
          → (((j ≡ k) × (b ≡ c)) ⊎ Has k c ((i, a) ∷ m)) × (b ≤ c) × AtMost c ((i, a) ∷ m))
        (leb b a) _ _
        (λ h e.
          let (x, y, w) = max_by_count-some i a m k c e in
          (inr x, ground arith, λ k' c' v. bound c k' c' v y w))
        (λ h e.
          let (x, y, w) = max_by_count-some j b m k c e in
          (keep x, y, λ k' c' v. bound c k' c' v (ground arith) w))
    where
      bound : (n : ℕ) (k' : K) (c' : ℕ) → Has k' c' ((i, a) ∷ m) → a ≤ n → AtMost n m → c' ≤ n
      bound n k' c' (inl (_, q)) l w = omega arith
      bound n k' c' (inr v) l w = w k' c' v

      keep : ((j ≡ k) × (b ≡ c)) ⊎ Has k c m → ((j ≡ k) × (b ≡ c)) ⊎ Has k c ((i, a) ∷ m)
      keep (inl x) = inl x
      keep (inr x) = inr (inr x)

  -- The entry picked is in the map, and no entry counts more.
  pub max_by_count_max :
      (m : List (K × ℕ)) (k : K) (c : ℕ)
      → max_by_count none m ≡ some (k, c)
      → Has k c m × AtMost c m
  unfolding max_by_count
  max_by_count_max [] k c e = absurd (ground arith)
  max_by_count_max ((i, a) ∷ m) k c e =
      let (x, y, w) = max_by_count-some i a m k c e in (x, λ k' c' v. bound k' c' v y w)
    where
      bound : (k' : K) (c' : ℕ) → Has k' c' ((i, a) ∷ m) → a ≤ c → AtMost c m → c' ≤ c
      bound k' c' (inl (_, q)) l w = omega arith
      bound k' c' (inr v) l w = w k' c' v

  -- Something is picked unless the map is empty.
  pub max_by_count_total :
      (b : K × ℕ) (m : List (K × ℕ)) → (x : K × ℕ) × (max_by_count (some b) m ≡ some x)
  unfolding max_by_count
  max_by_count_total b [] = (b, refl)
  max_by_count_total (j, b) ((i, a) ∷ m) =
      if-elim (λ z. (x : K × ℕ) × (max_by_count z m ≡ some x)) (leb b a) _ _
        (λ _. max_by_count_total (i, a) m) (λ _. max_by_count_total (j, b) m)

  pub max_by_count-none : (m : List (K × ℕ)) → max_by_count none m ≡ none → m ≡ []
  unfolding max_by_count
  max_by_count-none [] e = refl
  max_by_count-none (x ∷ m) e = let (y, f) = max_by_count_total x m in absurd (cc (f, e))

module _ {K : Type 0} ⦃e : Eq K⦄ where
  abbrev Absent : K → List (K × ℕ) → Type 0
  Absent i [] = Unit
  Absent i ((j, n) ∷ m) = (e.beq j i ≡ false) × Absent i m

  -- One entry for each key, with a positive count.
  abbrev Distinct : List (K × ℕ) → Type 0
  Distinct [] = Unit
  Distinct ((j, n) ∷ m) = Absent j m × (0 < n) × Distinct m

  Absent-bump : (i j : K) (m : List (K × ℕ)) → e.beq j i ≡ false → Absent i m → Absent i (bump j m)
  unfolding bump
  Absent-bump i j [] h a = (h, a)
  Absent-bump i j ((k, n) ∷ m) h (a, rest) =
      if-elim (Absent i) (e.beq k j) ((k, n + 1) ∷ m) ((k, n) ∷ bump j m) (λ _. (a, rest))
        (λ _. (a, Absent-bump i j m h rest))

  Distinct-bump : (j : K) (m : List (K × ℕ)) → Distinct m → Distinct (bump j m)
  unfolding bump
  Distinct-bump j [] d = (tt, omega arith, tt)
  Distinct-bump j ((k, n) ∷ m) (a, p, d) =
      if-elim Distinct (e.beq k j) ((k, n + 1) ∷ m) ((k, n) ∷ bump j m) (λ _. (a, omega arith, d))
        (λ h. (
          Absent-bump k j m (ground (arith, e.beq_iff k j, e.beq_iff j k)) a,
          p,
          Distinct-bump j m d,
        ))

  Distinct-tally : (ks : List K) (m : List (K × ℕ)) → Distinct m → Distinct (tally ks m)
  unfolding tally
  Distinct-tally [] m d = d
  Distinct-tally (k ∷ ks) m d = Distinct-tally ks (bump k m) (Distinct-bump k m d)

  Absent-Has : (i k : K) (c : ℕ) (m : List (K × ℕ)) → Absent i m → Has k c m → i ≢ k
  Absent-Has i k c [] a h = absurd h
  Absent-Has i k c ((j, n) ∷ m) (a, rest) (inl (p, q)) = λ eq. ground (arith, e.beq_iff j i)
  Absent-Has i k c ((j, n) ∷ m) (a, rest) (inr h) = Absent-Has i k c m rest h

  Has-Distinct :
      (k : K) (c : ℕ) (m : List (K × ℕ)) → Distinct m → Has k c m → (entry_count k m ≡ c) × (0 < c)
  unfolding entry_count
  Has-Distinct k c [] d h = absurd h
  Has-Distinct k c ((j, n) ∷ m) (a, p, d) (inl (q, r)) = ground (arith, e.beq_iff j k)
  Has-Distinct k c ((j, n) ∷ m) (a, p, d) (inr h) =
      let (x, y) = Has-Distinct k c m d h in
      let ne = Absent-Has j k c m a h in ground (arith, e.beq_iff j k)

  Has-entry_count : (k : K) (m : List (K × ℕ)) → 0 < entry_count k m → Has k (entry_count k m) m
  unfolding entry_count
  Has-entry_count k [] = λ h. absurd (omega arith)
  Has-entry_count k ((j, n) ∷ m) =
      if-elim (λ x. 0 < x → Has k x ((j, n) ∷ m)) (e.beq j k) n (entry_count k m)
        (λ t _. inl ((e.beq_iff j k).0 t, refl)) (λ _ h. inr (Has-entry_count k m h))

  -- What a tally has: each key that was counted, with how often it was.
  pub Has-tally :
      (k : K) (c : ℕ) (ks : List K) → Has k c (tally ks []) ↔ ((count (e.beq k) ks ≡ c) × (0 < c))
  Has-tally k c ks = (
    λ h. counted h,
    λ (q, p).
        subst (λ n. Has k n (tally ks [])) (total ∙ q)
          (Has-entry_count k (tally ks []) (omega (arith, total))),
  )
    where
      total : entry_count k (tally ks []) ≡ count (e.beq k) ks
      total = unfold entry_count in omega (arith, entry_count-tally k ks [])

      counted : Has k c (tally ks []) → (count (e.beq k) ks ≡ c) × (0 < c)
      counted h =
          let (a, b) = Has-Distinct k c (tally ks []) (Distinct-tally ks [] tt) h in
          (sym total ∙ a, b)

  -- Two keys share the votes out.
  pub count-two-keys :
      (j k : K) (ks : List K) → j ≢ k → count (e.beq j) ks + count (e.beq k) ks ≤ length ks
  count-two-keys j k [] ne = omega arith
  count-two-keys j k (x ∷ ks) ne =
      ground (arith, e.beq_iff j x, e.beq_iff k x, count-two-keys j k ks ne)
