-- ===== src/Consensus/Read/Latest.antt =====
-- A write that a quorum of the disks holds is what a read returns.
use openlake.Prelude.{
  ℕ, ◌+◌, ◌-◌, ◌≤◌, ◌<◌, ◌/◌, ◌^◌, max, ◌≡◌, refl, sym, subst, ap, ◌∙◌, String, Bool, true, false,
  ◌&&◌, Option, none, some, List, [], ◌∷◌, length, length-map, map, get_elem?, count,
  count-add-le-length, All, arith, ◌==◌, Bool-cases, Option-cases, inl, inr, string_eq, nat_eq,
}
use openlake.Prelude.Maps.{get}
use openlake.Erasure.Codec.{Bytes}
use openlake.Errors.{Result, ok, StorageError}
use openlake.Kv.Slots.{bytes_eq}
use openlake.Records.{FileInfo}
use openlake.Consensus.Tally.{IsOrder}
use openlake.Consensus.Votes.{
  erasure_is_valid, declared_parity, common_parity, common_etag, parity_votes, etag_votes,
  read_quorum_of, etag_meta_key,
}
use openlake.Consensus.Votes.Unique.{
  common_parity_lem, common_parity-quorum, quorums-meet, votes_half, length-parity_votes, Describes,
}
use openlake.Consensus.Votes.Etag.{support, common_etag_iff}
use openlake.Consensus.Results.{dominant_error}
use openlake.Consensus.Contract.{decode_contract_hash}
use openlake.Consensus.Read.{
  Answer, meta_of, error_of, HashEntry, Orders, most_hashed, surfaced, count_hashes, agreed,
  after_etag, after_parity, after_errors, read_with_consensus,
}
use openlake.Consensus.Read.Hashes.{Backed, agreeing, count_hashes_lem, most_hashed-none, IsFair}
use openlake.Consensus.Read.Failures.{is_some, few_errors}
use openlake.Consensus.Read.Sound.{pick-Backed, get-etag}

module _ (blake3 : Bytes → Bytes) (etag : String) (h : Bytes) (n parity : ℕ) where
  -- The record is one of the write: it has the etag and the contract hash, its erasure fields are valid
  -- and it stands for the parity.
  abbrev pub holds : Option FileInfo → Bool
  holds none = false
  holds (some fi) =
      agreeing blake3 etag h (some fi)
      && (erasure_is_valid fi.erasure && declared_parity n fi == parity)

  holds-agreeing :
      (metas : List (Option FileInfo)) → count holds metas ≤ count (agreeing blake3 etag h) metas
  holds-agreeing [] = omega arith
  holds-agreeing (none ∷ metas) = omega (arith, holds-agreeing metas)
  holds-agreeing (some fi ∷ metas) = ground (arith, holds-agreeing metas)

  holds-parity_votes :
      (metas : List (Option FileInfo))
      → count holds metas ≤ count (nat_eq.beq parity) (parity_votes n metas)
  unfolding parity_votes
  holds-parity_votes [] = omega arith
  holds-parity_votes (none ∷ metas) = omega (arith, holds-parity_votes metas)
  holds-parity_votes (some fi ∷ metas) = ground (arith, holds-parity_votes metas)

  holds-support :
      (metas : List (Option FileInfo))
      → string_eq.beq etag "" ≡ false
      → count holds metas ≤ support etag metas
  unfolding etag_votes
  holds-support [] ne = omega arith
  holds-support (none ∷ metas) ne = omega (arith, holds-support metas ne)
  holds-support (some fi ∷ metas) ne = elim (Bool-cases (holds (some fi))) [
    | inl t ↦
        let here = get-etag fi etag (ground (arith, t)) in
        let self = (string_eq.beq_iff etag etag).1 refl in
        rw (t, support, etag_votes, here, ne, self) (omega (arith, holds-support metas ne))
    | inr f ↦ elim (Option-cases (get etag_meta_key fi.metadata)) [
      | inl m ↦ rw (f, support, etag_votes, m) (omega (arith, holds-support metas ne))
      | inr (e, m) ↦ rw (f, support, etag_votes, m) (ground (arith, holds-support metas ne))
    ]
  ]

-- Two contract hashes that a quorum of the records have each are one.
hashes-meet :
    (blake3 : Bytes → Bytes) (etag : String) (h k : Bytes) (metas : List (Option FileInfo))
    (quorum : ℕ)
    → length metas < quorum + quorum
    → quorum ≤ count (agreeing blake3 etag h) metas
    → quorum ≤ count (agreeing blake3 etag k) metas
    → h ≡ k
hashes-meet blake3 etag h k metas quorum few a b = elim (Bool-cases (bytes_eq.beq h k)) [
  | inl t ↦ (bytes_eq.beq_iff h k).0 t
  | inr f ↦ absurd (
      omega (
        arith,
        few,
        a,
        b,
        count-add-le-length (agreeing blake3 etag h) (agreeing blake3 etag k) (apart f) metas,
      ))
]
  where
    apart :
        bytes_eq.beq h k ≡ false
        → (m : Option FileInfo) → agreeing blake3 etag h m ≡ true
        → agreeing blake3 etag k m ≡ false
    apart f none t = refl
    apart f (some fi) t = ground (
      arith,
      bytes_eq.beq_iff (decode_contract_hash blake3 fi) h,
      bytes_eq.beq_iff (decode_contract_hash blake3 fi) k,
      bytes_eq.beq_iff h k,
    )

read_quorum_of_lem : (n p : ℕ) → p ≤ n → n < 2 ^ 64 → read_quorum_of n p ≡ n - p
read_quorum_of_lem n p le small = omega arith

module _ (blake3 : Bytes → Bytes) (bucket key : String) (metas : List (Option FileInfo))
    (etag : String) (h : Bytes) where
  -- The read returns a record of the write.
  abbrev pub Reads : Option (Result StorageError (ℕ × FileInfo)) → Type 0
  Reads r =
      (i : ℕ) × (fi : FileInfo) × (r ≡ some (ok (i, fi)))
      × (get_elem? metas i ≡ some (some fi))
      × (get etag_meta_key fi.metadata ≡ some etag)
      × (decode_contract_hash blake3 fi ≡ h)

  agreed-Reads :
      (order : List HashEntry → List HashEntry) (quorum : ℕ)
      → IsFair order
      → 0 < quorum
      → length metas < quorum + quorum
      → quorum ≤ count (agreeing blake3 etag h) metas
      → Reads (
          agreed bucket key metas quorum
            (most_hashed none (order (count_hashes blake3 etag 0 metas []))))
  agreed-Reads order quorum fair pos few enough =
      let es = count_hashes blake3 etag 0 metas [] in
      let (backed, counted) = count_hashes_lem blake3 etag metas in
      elim (most_hashed-none (Backed blake3 etag metas []) (order es)
        ((fair (Backed blake3 etag metas []) es).1 backed)) [
          | inl (empty, _) ↦
              let no_votes : All (λ e. e.times ≤ 0) es =
                (fair (λ e. e.times ≤ 0) es).0 (subst (All (λ e. e.times ≤ 0)) (sym empty) tt) in
              absurd (omega (arith, pos, enough, counted h 0 no_votes))
          | inr (w, won, b, most) ↦
              let most_of_all : count (agreeing blake3 etag h) metas ≤ w.times =
                counted h w.times ((fair (λ e. e.times ≤ w.times) es).0 most) in
              let (i, fi, got, (here, tagged, _), same) =
                pick-Backed blake3 bucket key metas etag quorum w b
                  (omega (arith, enough, most_of_all)) in
              let bound : quorum ≤ count (agreeing blake3 etag w.hash) metas =
                omega (arith, b.bound, enough, most_of_all) in
              (
                i,
                fi,
                ap (agreed bucket key metas quorum) won ∙ got,
                here,
                tagged,
                same ∙ hashes-meet blake3 etag w.hash h metas quorum few bound enough,
              )
        ]

-- The orders bring up the entries of the maps.
pub record AreFair (orders : Orders) : Type 1 where
  pub errors : IsFair orders.errors
  pub parities : IsOrder orders.parities
  pub etags : IsOrder orders.etags
  pub hashes : IsFair orders.hashes

-- Where each valid record describes a set of `n` drives, at least `n - parity` of the drives hold records
-- of one write (one etag, one contract hash, one parity, which is less than half of `n`), and fewer of
-- them than `max (n / 2) 1`, with `n / 2` rounded down, answer with an error, a read returns a record of
-- that write, whatever the others answer.
pub read_with_consensus-Reads :
    (blake3 : Bytes → Bytes) (orders : Orders) (bucket key : String) (results : List Answer)
    (etag : String) (h : Bytes) (parity : ℕ)
    → AreFair orders
    → length results < 2 ^ 64
    → All (Describes (length results)) (map meta_of results)
    → string_eq.beq etag "" ≡ false
    → parity + parity < length results
    → length results - parity
      ≤ count (holds blake3 etag h (length results) parity) (map meta_of results)
    → count is_some (map error_of results) < max (length results / 2) 1
    → Reads blake3 bucket key
        (map meta_of results)
        etag
        h
        (read_with_consensus blake3 orders bucket key results)
unfolding read_with_consensus
read_with_consensus-Reads blake3 orders bucket key results etag h parity fair small describe ne half
      enough few =
    subst Goal (sym (ap (after_errors blake3 orders bucket key n metas) quiet)) (
      subst Goal (sym (ap (after_parity blake3 orders bucket key n metas) voted)) (
        subst Goal (sym (ap (after_etag blake3 orders bucket key n metas quorum) tagged)) (
          agreed-Reads blake3 bucket key metas etag h orders.hashes quorum fair.hashes
            (omega (arith, quorum_is, half)) (omega (arith, quorum_is, half, all))
            (omega (arith, quorum_is, enough, holds-agreeing blake3 etag h n parity metas)))))
  where
    n : ℕ
    n = length results

    metas : List (Option FileInfo)
    metas = map meta_of results

    quorum : ℕ
    quorum = read_quorum_of n parity

    Goal : Option (Result StorageError (ℕ × FileInfo)) → Type 0
    Goal = Reads blake3 bucket key metas etag h

    all : length metas ≡ n
    all = length-map meta_of results

    quorum_is : quorum ≡ n - parity
    quorum_is = read_quorum_of_lem n parity (omega (arith, half)) small

    quiet : surfaced (max (n / 2) 1) (dominant_error orders.errors (map error_of results)) ≡ none
    quiet = few_errors orders.errors (map error_of results) (max (n / 2) 1) fair.errors few

    backing : quorum ≤ count (nat_eq.beq parity) (parity_votes n metas)
    backing = omega (arith, quorum_is, enough, holds-parity_votes blake3 etag h n parity metas)

    voted : common_parity orders.parities metas n ≡ some parity
    voted =
        let pos : 0 < count (nat_eq.beq parity) (parity_votes n metas) =
          omega (arith, quorum_is, half, backing) in
        let (q, e) =
          (common_parity_lem n metas orders.parities fair.parities).1 parity backing pos in
        let (backing_q, pos_q) = common_parity-quorum n orders.parities metas q fair.parities e in
        let same : parity ≡ q =
          quorums-meet n (parity_votes n metas) parity q
            (omega (arith, length-parity_votes n metas, all)) small (votes_half n metas describe)
            backing pos backing_q pos_q in
        e ∙ ap some (sym same)

    tagged : common_etag orders.etags metas quorum ≡ some etag
    tagged =
        (common_etag_iff orders.etags metas quorum etag fair.etags
            (omega (arith, quorum_is, half, all))).1
          (omega (arith, quorum_is, enough, holds-support blake3 etag h n parity metas ne))
