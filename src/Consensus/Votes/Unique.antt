-- ===== src/Consensus/Votes/Unique.antt =====
-- What the winners of the votes are, and that the order of a `HashMap` does not choose them.
use openlake.Prelude.{
  ℕ, suc, ◌+◌, ◌^◌, ◌≤◌, ◌<◌, ◌≡◌, ◌≢◌, refl, sym, subst, ap, inl, inr, true, false, Option, none,
  some, List, [], ◌∷◌, length, count, All, arith, ◌==◌, ltb, ==_iff, if-elim, Bool-cases,
  Option-cases, string_eq, nat_eq,
}
use openlake.Prelude.Maps.{Has, tally}
use openlake.Records.{FileInfo}
use openlake.Consensus.Tally.{IsOrder, Has-tally, count-two-keys}
use openlake.Consensus.Votes.{
  erasure_is_valid, declared_parity, parity_votes, read_quorum_of, beats, consider, best_parity,
  key_of, common_parity,
}

module _ (n : ℕ) where
  best_parity_sound :
      (Q : ℕ → ℕ → Type 0) (best : Option (ℕ × ℕ)) (m : List (ℕ × ℕ))
      → ((p c : ℕ) → Has p c m → read_quorum_of n p ≤ c → Q p c)
      → ((p c : ℕ) → best ≡ some (p, c) → Q p c)
      → (p c : ℕ) → best_parity n best m ≡ some (p, c)
      → Q p c
  unfolding best_parity
  best_parity_sound Q best [] h b = b
  best_parity_sound Q best ((k, occ) ∷ m) h b =
      best_parity_sound Q (consider n best k occ) m (λ p c v. h p c (inr v))
        (if-elim (λ z. (p c : ℕ) → z ≡ some (p, c) → Q p c) (ltb occ (read_quorum_of n k)) best _
          (λ _. b)
          (λ low.
            if-elim (λ z. (p c : ℕ) → z ≡ some (p, c) → Q p c) (beats occ best) (some (k, occ)) best
              (λ _ p c e. h p c (inl (ground arith, ground arith)) (ground arith)) (λ _. b)))

  best_parity_total :
      (b : ℕ × ℕ) (m : List (ℕ × ℕ)) → (x : ℕ × ℕ) × (best_parity n (some b) m ≡ some x)
  unfolding best_parity
  best_parity_total b [] = (b, refl)
  best_parity_total b ((k, occ) ∷ m) =
      if-elim (λ z. (x : ℕ × ℕ) × (best_parity n z m ≡ some x)) (ltb occ (read_quorum_of n k))
        (some b) _ (λ _. best_parity_total b m)
        (λ _.
          if-elim (λ z. (x : ℕ × ℕ) × (best_parity n z m ≡ some x)) (beats occ (some b))
            (some (k, occ)) (some b) (λ _. best_parity_total (k, occ) m)
            (λ _. best_parity_total b m))

  best_parity_complete :
      (best : Option (ℕ × ℕ)) (m : List (ℕ × ℕ)) (p c : ℕ)
      → Has p c m
      → read_quorum_of n p ≤ c
      → (x : ℕ × ℕ) × (best_parity n best m ≡ some x)
  unfolding best_parity
  best_parity_complete best [] p c h q = absurd h
  best_parity_complete (some b) ((k, occ) ∷ m) p c h q = best_parity_total b ((k, occ) ∷ m)
  best_parity_complete none ((k, occ) ∷ m) p c (inl (e, f)) q =
      rw (reached) (best_parity_total (k, occ) m)
    where
      reached : ltb occ (read_quorum_of n k) ≡ false
      reached = ground arith
  best_parity_complete none ((k, occ) ∷ m) p c (inr h) q =
      best_parity_complete (consider n none k occ) m p c h q

  -- The winner has the votes of the read quorum that it implies.
  pub common_parity-quorum :
      (order : List (ℕ × ℕ) → List (ℕ × ℕ)) (metas : List (Option FileInfo)) (p : ℕ)
      → IsOrder order
      → common_parity order metas n ≡ some p
      → (read_quorum_of n p ≤ count (nat_eq.beq p) (parity_votes n metas))
        × (0 < count (nat_eq.beq p) (parity_votes n metas))
  unfolding common_parity
  common_parity-quorum order metas p o e = elim (Option-cases winner) [
    | inl nobody ↦ absurd (cc (ap key_of nobody, e))
    | inr ((k, c), w) ↦
        let same : k ≡ p = cc (ap key_of w, e) in
        subst
          (λ x.
            (read_quorum_of n x ≤ count (nat_eq.beq x) votes) × (0 < count (nat_eq.beq x) votes))
          same
          (best_parity_sound Quorum none (order (tally votes [])) entries (λ q d f. absurd (cc f)) k
            c w)
  ]
    where
      votes : List ℕ
      votes = parity_votes n metas

      winner : Option (ℕ × ℕ)
      winner = best_parity n none (order (tally votes []))

      Quorum : ℕ → ℕ → Type 0
      Quorum q d =
          (read_quorum_of n q ≤ count (nat_eq.beq q) votes) × (0 < count (nat_eq.beq q) votes)

      entries : (q d : ℕ) → Has q d (order (tally votes [])) → read_quorum_of n q ≤ d → Quorum q d
      entries q d h r =
          let (a, b) = (Has-tally q d votes).0 ((o (tally votes []) q d).0 h) in
          (omega (arith, a), omega (arith, a))

  -- A parity with the votes of the read quorum that it implies leaves the vote with a winner.
  common_parity-total :
      (order : List (ℕ × ℕ) → List (ℕ × ℕ)) (metas : List (Option FileInfo)) (p : ℕ)
      → IsOrder order
      → read_quorum_of n p ≤ count (nat_eq.beq p) (parity_votes n metas)
      → 0 < count (nat_eq.beq p) (parity_votes n metas)
      → (q : ℕ) × (common_parity order metas n ≡ some q)
  unfolding common_parity
  common_parity-total order metas p o r pos =
      let votes = parity_votes n metas in
      let (x, e) =
        best_parity_complete none (order (tally votes [])) p (count (nat_eq.beq p) votes)
          ((o (tally votes []) p (count (nat_eq.beq p) votes)).1
            ((Has-tally p (count (nat_eq.beq p) votes) votes).1 (refl, pos)))
          r in
      (x.0, rw e)

-- The record describes a set of `n` drives.
abbrev pub Describes : ℕ → Option FileInfo → Type 0
Describes n none = Unit
Describes n (some m) =
    erasure_is_valid m.erasure ≡ true → m.erasure.data_blocks + m.erasure.parity_blocks ≡ n

abbrev HalfOf : ℕ → ℕ → Type 0
HalfOf n p = p + p ≤ n

valid_parity :
    (n : ℕ) (m : FileInfo)
    → erasure_is_valid m.erasure ≡ true
    → m.erasure.data_blocks + m.erasure.parity_blocks ≡ n
    → declared_parity n m + declared_parity n m ≤ n
unfolding erasure_is_valid declared_parity
valid_parity n m v d = ground arith

pub votes_half :
    (n : ℕ) (metas : List (Option FileInfo))
    → All (Describes n) metas
    → All (HalfOf n) (parity_votes n metas)
unfolding parity_votes
votes_half n [] d = tt
votes_half n (none ∷ metas) (d, ds) = votes_half n metas ds
votes_half n (some m ∷ metas) (d, ds) =
    if-elim (All (HalfOf n)) (erasure_is_valid m.erasure)
      (declared_parity n m ∷ parity_votes n metas) (parity_votes n metas)
      (λ v. (valid_parity n m v (d v), votes_half n metas ds)) (λ _. votes_half n metas ds)

pub length-parity_votes :
    (n : ℕ) (metas : List (Option FileInfo)) → length (parity_votes n metas) ≤ length metas
unfolding parity_votes
length-parity_votes n [] = omega arith
length-parity_votes n (none ∷ metas) = omega (arith, length-parity_votes n metas)
length-parity_votes n (some m ∷ metas) =
    if-elim (λ v. length v ≤ suc (length metas)) (erasure_is_valid m.erasure)
      (declared_parity n m ∷ parity_votes n metas) (parity_votes n metas)
      (λ _. omega (arith, length-parity_votes n metas))
      (λ _. omega (arith, length-parity_votes n metas))

All-counted : (P : ℕ → Type 0) (p : ℕ) (xs : List ℕ) → All P xs → 0 < count (nat_eq.beq p) xs → P p
All-counted P p [] a h = absurd (omega arith)
All-counted P p (x ∷ xs) (a, rest) h = elim (Bool-cases (p == x)) [
  | inl t ↦ subst P (sym ((==_iff p x).0 t)) a
  | inr f ↦ All-counted P p xs rest (ground arith)
]

-- Two parities that each have the votes of the read quorum that they imply are one.
pub quorums-meet :
    (n : ℕ) (votes : List ℕ) (p q : ℕ)
    → length votes ≤ n
    → n < 2 ^ 64
    → All (HalfOf n) votes
    → read_quorum_of n p ≤ count (nat_eq.beq p) votes
    → 0 < count (nat_eq.beq p) votes
    → read_quorum_of n q ≤ count (nat_eq.beq q) votes
    → 0 < count (nat_eq.beq q) votes
    → p ≡ q
quorums-meet n votes p q len small half rp cp rq cq = elim (Bool-cases (p == q)) [
  | inl t ↦ (==_iff p q).0 t
  | inr f ↦ absurd (apart (λ e. cc (f, (==_iff p q).1 e)))
]
  where
    apart : p ≢ q → ⊥
    apart ne =
        let share = count-two-keys p q votes ne in
        let hp : p + p ≤ n = All-counted (HalfOf n) p votes half cp in
        let hq : q + q ≤ n = All-counted (HalfOf n) q votes half cq in omega arith

-- Where every valid record describes a set of `n` drives and there is one record for each drive, the
-- parity that wins does not depend on the order in which the map is iterated.
pub common_parity_order :
    (n : ℕ) (metas : List (Option FileInfo)) (o1 o2 : List (ℕ × ℕ) → List (ℕ × ℕ))
    → IsOrder o1
    → IsOrder o2
    → length metas ≤ n
    → n < 2 ^ 64
    → All (Describes n) metas
    → common_parity o1 metas n ≡ common_parity o2 metas n
common_parity_order n metas o1 o2 i1 i2 len small d =
    agree (common_parity o1 metas n) (common_parity o2 metas n)
      (λ p. common_parity-quorum n o1 metas p i1) (λ p. common_parity-quorum n o2 metas p i2)
      (λ p r c. common_parity-total n o1 metas p i1 r c)
      (λ p r c. common_parity-total n o2 metas p i2 r c)
  where
    votes : List ℕ
    votes = parity_votes n metas

    Quorum : ℕ → Type 0
    Quorum q = (read_quorum_of n q ≤ count (nat_eq.beq q) votes) × (0 < count (nat_eq.beq q) votes)

    Total : Option ℕ → Type 0
    Total x =
        (p : ℕ)
        → read_quorum_of n p ≤ count (nat_eq.beq p) votes
        → 0 < count (nat_eq.beq p) votes
        → (q : ℕ) × (x ≡ some q)

    agree :
        (x y : Option ℕ)
        → ((p : ℕ) → x ≡ some p → Quorum p)
        → ((p : ℕ) → y ≡ some p → Quorum p)
        → Total x
        → Total y
        → x ≡ y
    agree none none sx sy tx ty = refl
    agree none (some q) sx sy tx ty = absurd (cc ((tx q (sy q refl).0 (sy q refl).1).1))
    agree (some p) none sx sy tx ty = absurd (cc ((ty p (sx p refl).0 (sx p refl).1).1))
    agree (some p) (some q) sx sy tx ty = ap some (
        quorums-meet n votes p q (omega (arith, length-parity_votes n metas)) small
          (votes_half n metas d) (sx p refl).0 (sx p refl).1 (sy q refl).0 (sy q refl).1)

-- The parity that wins has the votes of the read quorum that it implies, and if some parity has them
-- then some parity wins.
pub common_parity_lem :
    (n : ℕ) (metas : List (Option FileInfo)) (order : List (ℕ × ℕ) → List (ℕ × ℕ))
    → IsOrder order
    → ((p : ℕ)
        → common_parity order metas n ≡ some p
        → read_quorum_of n p ≤ count (nat_eq.beq p) (parity_votes n metas))
      × ((p : ℕ)
          → read_quorum_of n p ≤ count (nat_eq.beq p) (parity_votes n metas)
          → 0 < count (nat_eq.beq p) (parity_votes n metas)
          → (q : ℕ) × (common_parity order metas n ≡ some q))
common_parity_lem n metas order i = (
  λ p e. (common_parity-quorum n order metas p i e).0,
  λ p. common_parity-total n order metas p i,
)
