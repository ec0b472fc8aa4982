-- ===== src/Cluster/Bootstrap/Majority.antt =====
-- The id that `vote_majority` returns, and what a node that settles has seen.
use openlake.Prelude.{
  ℕ, suc, ◌+◌, ◌/◌, ◌≤◌, ◌<◌, ◌≡◌, refl, sym, ap, ◌∙◌, inl, inr, ◌↔◌, Bool, none, some, List, [],
  ◌∷◌, ◌++◌, length, count, count-append, arith, ◌==◌, ==_iff, leb, leb→le, if-elim, Bool-cases,
  nat_eq,
}
use openlake.Prelude.Maps.{Has, bump, tally}
use openlake.Errors.{ok, err}
use openlake.Consensus.Tally.{IsOrder, Has-tally, count-two-keys}
use openlake.Cluster.Bootstrap.{
  Read, is_formatted, ids_of, sum_of_counts, first_majority, vote_majority,
}

-- How many of the reads have the id.
abbrev pub holders : ℕ → List Read → ℕ
holders id rs = count (nat_eq.beq id) (ids_of rs)

sum_of_counts-bump : (k : ℕ) (m : List (ℕ × ℕ)) → sum_of_counts (bump k m) ≡ suc (sum_of_counts m)
unfolding sum_of_counts bump
sum_of_counts-bump k [] = omega arith
sum_of_counts-bump k ((j, n) ∷ m) =
    if-elim (λ z. sum_of_counts z ≡ suc (n + sum_of_counts m)) (j == k) ((j, n + 1) ∷ m)
      ((j, n) ∷ bump k m) (λ _. omega arith) (λ _. omega (arith, sum_of_counts-bump k m))

sum_of_counts-tally :
    (ks : List ℕ) (m : List (ℕ × ℕ)) → sum_of_counts (tally ks m) ≡ length ks + sum_of_counts m
unfolding tally
sum_of_counts-tally [] m = omega arith
sum_of_counts-tally (k ∷ ks) m =
    omega (arith, sum_of_counts-tally ks (bump k m), sum_of_counts-bump k m)

total-tally : (ks : List ℕ) → sum_of_counts (tally ks []) ≡ length ks
unfolding sum_of_counts
total-tally ks = sum_of_counts-tally ks [] ∙ omega arith

length-ids_of : (rs : List Read) → length (ids_of rs) ≡ count is_formatted rs
unfolding ids_of
length-ids_of [] = refl
length-ids_of (ok (some f) ∷ rs) = omega (arith, length-ids_of rs)
length-ids_of (ok none ∷ rs) = omega (arith, length-ids_of rs)
length-ids_of (err e ∷ rs) = omega (arith, length-ids_of rs)

first_majority_sound :
    (q : ℕ) (m : List (ℕ × ℕ)) (id : ℕ)
    → first_majority q m ≡ ok id
    → (n : ℕ) × (Has id n m × (q ≤ n))
unfolding first_majority
first_majority_sound q [] id = λ e. absurd (cc e)
first_majority_sound q ((k, n) ∷ m) id =
    if-elim (λ z. z ≡ ok id → (n' : ℕ) × (Has id n' ((k, n) ∷ m) × (q ≤ n'))) (leb q n) (ok k)
      (first_majority q m) (λ t e. (n, (inl (cc e, refl), leb→le q n t)))
      (λ _ e. let (n', (h, l)) = first_majority_sound q m id e in (n', (inr h, l)))

first_majority_total :
    (q : ℕ) (m : List (ℕ × ℕ)) (id n : ℕ)
    → Has id n m
    → q ≤ n
    → (k : ℕ) × (first_majority q m ≡ ok k)
unfolding first_majority
first_majority_total q [] id n h = absurd h
first_majority_total q ((k, c) ∷ m) id n (inl (a, b)) = λ l. (k, ground arith)
first_majority_total q ((k, c) ∷ m) id n (inr h) = λ l.
    if-elim (λ z. (j : ℕ) × (z ≡ ok j)) (leb q c) (ok k) (first_majority q m) (λ _. (k, refl))
      (λ _. first_majority_total q m id n h l)

half_lt : (n c : ℕ) → (n / 2 + 1 ≤ c) ↔ (n < c + c)
half_lt n c = (λ h. omega arith, λ h. omega arith)

module _ (order : List (ℕ × ℕ) → List (ℕ × ℕ)) (o : IsOrder order) where
  vote_majority_sound :
      (l p : List Read) (id : ℕ)
      → vote_majority order l p ≡ ok id
      → count is_formatted (l ++ p) < holders id (l ++ p) + holders id (l ++ p)
  unfolding vote_majority
  vote_majority_sound l p id e =
      let ids = ids_of (l ++ p) in
      let (n, (h, le)) =
        first_majority_sound (sum_of_counts (tally ids []) / 2 + 1) (order (tally ids [])) id e in
      let (a, b) = (Has-tally id n ids).0 ((o (tally ids []) id n).0 h) in
      omega (
        arith,
        a,
        (half_lt (sum_of_counts (tally ids [])) n).0 le,
        total-tally ids,
        length-ids_of (l ++ p),
      )

  vote_majority_complete :
      (l p : List Read) (id : ℕ)
      → count is_formatted (l ++ p) < holders id (l ++ p) + holders id (l ++ p)
      → vote_majority order l p ≡ ok id
  unfolding vote_majority
  vote_majority_complete l p id h =
      let ids = ids_of (l ++ p) in
      let n = holders id (l ++ p) in
      let entry : Has id n (order (tally ids [])) =
        (o (tally ids []) id n).1 ((Has-tally id n ids).1 (refl, omega (arith, h))) in
      let (k, e) =
        first_majority_total (sum_of_counts (tally ids []) / 2 + 1) (order (tally ids [])) id n
          entry
          ((half_lt (sum_of_counts (tally ids [])) n).1
            (omega (arith, h, total-tally ids, length-ids_of (l ++ p)))) in
      let s = vote_majority_sound l p k e in
      elim (Bool-cases (k == id)) [
        | inl t ↦ e ∙ ap ok ((==_iff k id).0 t)
        | inr f ↦ absurd (
            omega (
              arith,
              h,
              s,
              length-ids_of (l ++ p),
              count-two-keys k id ids (λ q. cc (f, (==_iff k id).1 q)),
            ))
      ]

-- `vote_majority` returns an id exactly when more than half of the disks that have a format carry it,
-- whatever the order in which the map is iterated.
pub vote_majority_iff :
    (order : List (ℕ × ℕ) → List (ℕ × ℕ)) (l p : List Read) (id : ℕ)
    → IsOrder order
    → (vote_majority order l p ≡ ok id)
      ↔ (count is_formatted (l ++ p) < holders id (l ++ p) + holders id (l ++ p))
vote_majority_iff order l p id o =
    (vote_majority_sound order o l p id, vote_majority_complete order o l p id)

count-swap : {A : Type 0} (t : A → Bool) (l p : List A) → count t (l ++ p) ≡ count t (p ++ l)
count-swap t l p = omega (arith, count-append t l p, count-append t p l)

ids_of-append : (l p : List Read) → ids_of (l ++ p) ≡ ids_of l ++ ids_of p
unfolding ids_of
ids_of-append [] p = refl
ids_of-append (ok (some f) ∷ l) p = ap (◌∷◌ f.id) (ids_of-append l p)
ids_of-append (ok none ∷ l) p = ids_of-append l p
ids_of-append (err e ∷ l) p = ids_of-append l p

holders-swap : (id : ℕ) (l p : List Read) → holders id (l ++ p) ≡ holders id (p ++ l)
holders-swap id l p =
    ap (count (nat_eq.beq id)) (ids_of-append l p)
    ∙ count-swap (nat_eq.beq id) (ids_of l) (ids_of p)
    ∙ sym (ap (count (nat_eq.beq id)) (ids_of-append p l))

-- Two nodes that read the same disks, where what is local to one is a peer of the other, elect the
-- same id or both refuse, each with an order of its own for its map.
pub vote_majority-agree :
    (order order' : List (ℕ × ℕ) → List (ℕ × ℕ)) (l p : List Read) (id : ℕ)
    → IsOrder order
    → IsOrder order'
    → (vote_majority order l p ≡ ok id) ↔ (vote_majority order' p l ≡ ok id)
vote_majority-agree order order' l p id o o' =
    let (to, fro) = vote_majority_iff order l p id o in
    let (to', fro') = vote_majority_iff order' p l id o' in
    let c = count-swap is_formatted l p in
    let h = holders-swap id l p in
    (λ e. fro' (omega (arith, to e, c, h)), λ e. fro (omega (arith, to' e, c, h)))
