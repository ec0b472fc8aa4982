-- ===== src/Consensus/Read/Sound.antt =====
-- `read_with_consensus` never panics, and what it returns is backed by a quorum.
use openlake.Prelude.{
  ℕ, ◌≤◌, ◌/◌, max, ◌≡◌, sym, subst, ap, ◌∙◌, String, true, false, Option, none, some, List, [],
  length, map, get_elem?, count, arith, ltb, Bool-cases, Option-cases, inl, inr, string_eq, nat_eq,
}
use openlake.Prelude.Maps.{get}
use openlake.Erasure.Codec.{Bytes}
use openlake.Errors.{Result, ok, err, StorageError, inconsistent_meta}
use openlake.Kv.Slots.{bytes_eq}
use openlake.Records.{FileInfo}
use openlake.Consensus.Votes.{common_parity, common_etag, read_quorum_of, etag_meta_key}
use openlake.Consensus.Results.{dominant_error}
use openlake.Consensus.Contract.{is_etag, decode_contract_hash, record_etag_matches}
use openlake.Consensus.Read.{
  Answer, meta_of, error_of, HashEntry, Orders, most_hashed, surfaced, count_hashes, agreed,
  after_etag, after_parity, after_errors, read_with_consensus,
}
use openlake.Consensus.Read.Hashes.{Backed, agreeing, count_hashes_lem, most_hashed-none, IsFair}

pub get-etag :
    (fi : FileInfo) (etag : String)
    → record_etag_matches fi etag ≡ true
    → get etag_meta_key fi.metadata ≡ some etag
unfolding record_etag_matches
get-etag fi etag h = elim (Option-cases (get etag_meta_key fi.metadata)) [
  | inl n ↦ absurd (cc (subst (λ o. is_etag o etag ≡ true) n h))
  | inr (e, s) ↦
      let same : string_eq.beq e etag ≡ true = subst (λ o. is_etag o etag ≡ true) s h in
      s ∙ ap some ((string_eq.beq_iff e etag).0 same)
]

module _ (blake3 : Bytes → Bytes) (metas : List (Option FileInfo)) where
  -- Disk `i` answered the record, which has the etag, and `data_blocks` disks answered records with that
  -- etag and with its contract hash.
  abbrev pub Supports : String → ℕ → ℕ → FileInfo → Type 0
  Supports etag data_blocks i fi =
      (get_elem? metas i ≡ some (some fi))
      × (get etag_meta_key fi.metadata ≡ some etag)
      × (data_blocks ≤ count (agreeing blake3 etag (decode_contract_hash blake3 fi)) metas)

  module _ (parity_order : List (ℕ × ℕ) → List (ℕ × ℕ)) (n : ℕ) where
    -- What is returned is an answer of the disk that is named, and the read quorum of the parity that was
    -- voted for agrees with it on the etag and on the contract hash.
    abbrev pub IsSound : Result StorageError (ℕ × FileInfo) → Type 0
    IsSound (err e) = Unit
    IsSound (ok (i, fi)) =
        (parity : ℕ) × (etag : String) × (common_parity parity_order metas n ≡ some parity)
        × Supports etag (read_quorum_of n parity) i fi

module _ (blake3 : Bytes → Bytes) (bucket key : String) (metas : List (Option FileInfo)) where
  pub pick-Backed :
      (etag : String) (data_blocks : ℕ) (w : HashEntry)
      → Backed blake3 etag metas [] w
      → data_blocks ≤ w.times
      → (i : ℕ) × (fi : FileInfo) × (agreed bucket key metas data_blocks (some w)
          ≡ some (ok (i, fi)))
        × Supports blake3 metas etag data_blocks i fi
        × (decode_contract_hash blake3 fi ≡ w.hash)
  pick-Backed etag data_blocks w b le =
      let agrees : agreeing blake3 etag w.hash (some b.fi) ≡ true = b.agrees in
      let same : decode_contract_hash blake3 b.fi ≡ w.hash =
        (bytes_eq.beq_iff (decode_contract_hash blake3 b.fi) w.hash).0 (ground (arith, agrees)) in
      let bound : data_blocks ≤ count (agreeing blake3 etag w.hash) metas =
        omega (arith, b.bound, le) in
      let below : ltb w.times data_blocks ≡ false = ground (arith, le) in
      (
        b.first,
        b.fi,
        rw (below, b.disks_eq, b.here),
        (
          b.here,
          get-etag b.fi etag (ground (arith, agrees)),
          subst (λ h. data_blocks ≤ count (agreeing blake3 etag h) metas) (sym same) bound,
        ),
        same,
      )

  module _ (parity_order : List (ℕ × ℕ) → List (ℕ × ℕ)) (n : ℕ) where
    agreed-IsSound :
        (order : List HashEntry → List HashEntry) (parity : ℕ) (etag : String)
        → IsFair order
        → common_parity parity_order metas n ≡ some parity
        → (r : Result StorageError (ℕ × FileInfo)) × (agreed bucket key metas
              (read_quorum_of n parity)
              (most_hashed none (order (count_hashes blake3 etag 0 metas [])))
            ≡ some r)
          × IsSound blake3 metas parity_order n r
    agreed-IsSound order parity etag fair p =
        let es = count_hashes blake3 etag 0 metas [] in
        elim (most_hashed-none (Backed blake3 etag metas []) (order es)
          ((fair (Backed blake3 etag metas []) es).1 (count_hashes_lem blake3 etag metas).0)) [
            | inl (_, nobody) ↦
                (_, ap (agreed bucket key metas (read_quorum_of n parity)) nobody, tt)
            | inr (w, won, backed, _) ↦ elim (Bool-cases (ltb w.times (read_quorum_of n parity))) [
              | inl few ↦
                  (err (inconsistent_meta bucket key "decode-contract hash"), rw (won, few), tt)
              | inr f ↦
                  let (i, fi, got, supports, _) =
                    pick-Backed etag (read_quorum_of n parity) w backed (ground (arith, f)) in
                  (
                    ok (i, fi),
                    ap (agreed bucket key metas (read_quorum_of n parity)) won ∙ got,
                    (parity, etag, p, supports),
                  )
            ]
          ]

-- A read never panics, and what it returns is sound: the answer of the disk that is named, whose etag and
-- contract hash the disks agree on in the number that the parity they voted for asks for.
pub read_with_consensus-IsSound :
    (blake3 : Bytes → Bytes) (orders : Orders) (bucket key : String) (results : List Answer)
    → IsFair orders.hashes
    → (r : Result StorageError (ℕ × FileInfo)) × (read_with_consensus blake3 orders bucket key
          results
        ≡ some r)
      × IsSound blake3 (map meta_of results) orders.parities (length results) r
unfolding read_with_consensus
read_with_consensus-IsSound blake3 orders bucket key results fair =
    elim (Option-cases (
      surfaced (max (length results / 2) 1)
        (dominant_error orders.errors (map error_of results)))) [
          | inr (e, s) ↦
              (_, ap (after_errors blake3 orders bucket key (length results) metas) s, tt)
          | inl none' ↦
              let (r, h, sound) = by_parity in
              (
                r,
                ap (after_errors blake3 orders bucket key (length results) metas) none' ∙ h,
                sound,
              )
        ]
  where
    metas : List (Option FileInfo)
    metas = map meta_of results

    parity_vote : Option ℕ
    parity_vote = common_parity orders.parities metas (length results)

    by_parity :
        (r : Result StorageError (ℕ × FileInfo)) × (after_parity blake3 orders bucket key
            (length results)
            metas
            parity_vote
          ≡ some r)
        × IsSound blake3 metas orders.parities (length results) r
    by_parity = elim (Option-cases parity_vote) [
      | inl n ↦ (_, ap (after_parity blake3 orders bucket key (length results) metas) n, tt)
      | inr (p, voted) ↦
          let quorum = read_quorum_of (length results) p in
          let step = ap (after_parity blake3 orders bucket key (length results) metas) voted in
          elim (Option-cases (common_etag orders.etags metas quorum)) [
            | inl n ↦ (
              _,
              step ∙ ap (after_etag blake3 orders bucket key (length results) metas quorum) n,
              tt,
            )
            | inr (etag, e) ↦
                let (r, h, sound) =
                  agreed-IsSound blake3 bucket key metas orders.parities (length results)
                    orders.hashes p etag fair voted in
                (
                  r,
                  step
                      ∙ (ap (after_etag blake3 orders bucket key (length results) metas quorum) e
                          ∙ h),
                  sound,
                )
          ]
    ]
