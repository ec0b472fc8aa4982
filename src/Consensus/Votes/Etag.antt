-- ===== src/Consensus/Votes/Etag.antt =====
-- What the winning etag is, and when the order of a `HashMap` can choose it.
use openlake.Prelude.{
  ℕ, ◌+◌, ◌≤◌, ◌<◌, String, ◌≡◌, refl, sym, subst, ap, ◌∙◌, inl, inr, true, Option, none, some,
  List, [], ◌∷◌, length, count, arith, leb, leb→le, if-elim, Bool-cases, Option-cases, string_eq,
}
use openlake.Prelude.Maps.{Has, tally}
use openlake.Records.{FileInfo}
use openlake.Consensus.Tally.{
  IsOrder, max_by_count, max_by_count_max, max_by_count-none, Has-tally, count-two-keys,
}
use openlake.Consensus.Votes.{etag_votes, reaching, common_etag}

-- How many records carry the etag `e`.
abbrev pub support : String → List (Option FileInfo) → ℕ
support e metas = count (string_eq.beq e) (etag_votes metas)

module _ (order : List (String × ℕ) → List (String × ℕ)) (o : IsOrder order) where
  common_etag-support :
      (metas : List (Option FileInfo)) (quorum : ℕ) (e : String)
      → common_etag order metas quorum ≡ some e
      → quorum ≤ support e metas
  unfolding common_etag
  common_etag-support metas quorum e h = elim (Option-cases winner) [
    | inl nobody ↦ absurd (cc (ap (reaching quorum) nobody, h))
    | inr ((k, c), w) ↦
        let (has, most) = max_by_count_max (order (tally votes [])) k c w in
        let (a, b) = (Has-tally k c votes).0 ((o (tally votes []) k c).0 has) in
        reached k c a (ap (reaching quorum) (sym w) ∙ h)
  ]
    where
      votes : List String
      votes = etag_votes metas

      winner : Option (String × ℕ)
      winner = max_by_count none (order (tally votes []))

      reached :
          (k : String) (c : ℕ)
          → count (string_eq.beq k) votes ≡ c
          → reaching quorum (some (k, c)) ≡ some e
          → quorum ≤ count (string_eq.beq e) votes
      reached k c a =
          if-elim (λ z. z ≡ some e → quorum ≤ count (string_eq.beq e) votes) (leb quorum c) (some k)
            none
            (λ t f.
              let same : k ≡ e = cc f in
              subst (λ x. quorum ≤ count (string_eq.beq x) votes) same
                (omega (arith, a, leb→le quorum c t)))
            (λ _ f. absurd (cc f))

  -- An etag that the quorum shares leaves the vote with a winner.
  common_etag-total :
      (metas : List (Option FileInfo)) (quorum : ℕ) (e : String)
      → quorum ≤ support e metas
      → 0 < support e metas
      → (f : String) × (common_etag order metas quorum ≡ some f)
  unfolding common_etag
  common_etag-total metas quorum e h pos = elim (Option-cases winner) [
    | inl nobody ↦
        absurd (
          subst (Has e (support e metas)) (max_by_count-none (order (tally votes [])) nobody) entry)
    | inr ((k, c), w) ↦
        let (has, most) = max_by_count_max (order (tally votes [])) k c w in
        (k, ap (reaching quorum) w ∙ rw (passes c (most e (support e metas) entry)))
  ]
    where
      votes : List String
      votes = etag_votes metas

      winner : Option (String × ℕ)
      winner = max_by_count none (order (tally votes []))

      entry : Has e (support e metas) (order (tally votes []))
      entry =
          (o (tally votes []) e (support e metas)).1
            ((Has-tally e (support e metas) votes).1 (refl, pos))

      passes : (c : ℕ) → support e metas ≤ c → leb quorum c ≡ true
      passes c le = ground arith

length-etag_votes : (metas : List (Option FileInfo)) → length (etag_votes metas) ≤ length metas
unfolding etag_votes
length-etag_votes [] = omega arith
length-etag_votes (none ∷ metas) = omega (arith, length-etag_votes metas)
length-etag_votes (some m ∷ metas) = ground (arith, length-etag_votes metas)

-- Where the drives, those without a record counted too, are fewer than two quorums, the etag that wins is the one that a quorum of the
-- records carries, whatever the order in which the map is iterated: `e` wins exactly when at least
-- `quorum` records carry it.
pub common_etag_iff :
    (order : List (String × ℕ) → List (String × ℕ)) (metas : List (Option FileInfo)) (quorum : ℕ)
    (e : String)
    → IsOrder order
    → length metas < quorum + quorum
    → (common_etag order metas quorum ≡ some e → quorum ≤ support e metas)
      × (quorum ≤ support e metas → common_etag order metas quorum ≡ some e)
common_etag_iff order metas quorum e o few = (common_etag-support order o metas quorum e, wins)
  where
    wins : quorum ≤ support e metas → common_etag order metas quorum ≡ some e
    wins h =
        let (f, w) = common_etag-total order o metas quorum e h (omega arith) in
        let g = common_etag-support order o metas quorum f w in
        elim (Bool-cases (string_eq.beq f e)) [
          | inl t ↦ w ∙ ap some ((string_eq.beq_iff f e).0 t)
          | inr n ↦ absurd (
              omega (
                arith,
                length-etag_votes metas,
                count-two-keys f e (etag_votes metas) (λ eq. cc (n, (string_eq.beq_iff f e).1 eq)),
              ))
        ]
