-- ===== src/Consensus/Read/Hashes.antt =====
-- What `hash_counts` holds after the loop, and the entry that is picked of it.
use openlake.Prelude.{
  ℕ, suc, ◌+◌, ◌≤◌, ◌≡◌, refl, sym, subst, ap, ◌↔◌, ◌⊎◌, String, Bool, true, false, ◌&&◌, Option,
  none, some, List, [], ◌∷◌, ◌++◌, get_elem?, count, All, All-imp, arith, leb, if◌then◌else◌,
  if-elim, Bool-cases, inl, inr,
}
use openlake.Erasure.Codec.{Bytes}
use openlake.Kv.Slots.{bytes_eq}
use openlake.Records.{FileInfo}
use openlake.Consensus.Contract.{decode_contract_hash, record_etag_matches}
use openlake.Consensus.Read.{HashEntry, vote_hash, most_hashed, count_hashes}

-- How often the hash was counted.
times_of : Bytes → List HashEntry → ℕ
times_of h [] = 0
times_of h (e ∷ es) = if bytes_eq.beq e.hash h then e.times else times_of h es

times_of-vote_hash :
    (k h : Bytes) (i : ℕ) (es : List HashEntry)
    → times_of h (vote_hash k i es) ≡ (if bytes_eq.beq k h then 1 else 0) + times_of h es
unfolding times_of vote_hash
times_of-vote_hash k h i [] = ground arith
times_of-vote_hash k h i (e ∷ es) = ground (
  arith,
  times_of-vote_hash k h i es,
  bytes_eq.beq_iff e.hash k,
  bytes_eq.beq_iff e.hash h,
  bytes_eq.beq_iff k h,
)

times_of-bound :
    (n : ℕ) (h : Bytes) (es : List HashEntry) → All (λ e. e.times ≤ n) es → times_of h es ≤ n
unfolding times_of
times_of-bound n h [] a = omega arith
times_of-bound n h (e ∷ es) (a, rest) =
    if-elim (λ x. x ≤ n) (bytes_eq.beq e.hash h) e.times (times_of h es) (λ _. a)
      (λ _. times_of-bound n h es rest)

-- The entry picked has what every entry has, and none counts more.
most_hashed-some :
    (P : HashEntry → Type 0) (b : HashEntry) (es : List HashEntry)
    → P b
    → All P es
    → (w : HashEntry) × (most_hashed (some b) es ≡ some w)
      × P w
      × (b.times ≤ w.times)
      × All (λ e. e.times ≤ w.times) es
unfolding most_hashed
most_hashed-some P b [] p a = (b, refl, p, omega arith, tt)
most_hashed-some P b (e ∷ es) p (q, a) = elim (Bool-cases (leb b.times e.times)) [
  | inl t ↦
      let (w, h, pw, above, all) = most_hashed-some P e es q a in
      (w, rw (t, h), pw, ground (arith, t, above), (above, all))
  | inr f ↦
      let (w, h, pw, above, all) = most_hashed-some P b es p a in
      (w, rw (f, h), pw, above, (ground (arith, f, above), all))
]

pub most_hashed-none :
    (P : HashEntry → Type 0) (es : List HashEntry)
    → All P es
    → ((es ≡ []) × (most_hashed none es ≡ none))
      ⊎ ((w : HashEntry) × (most_hashed none es ≡ some w) × P w × All (λ e. e.times ≤ w.times) es)
unfolding most_hashed
most_hashed-none P [] a = inl (refl, refl)
most_hashed-none P (b ∷ es) (p, a) =
    let (w, h, pw, above, all) = most_hashed-some P b es p a in inr (w, h, pw, (above, all))

module _ (blake3 : Bytes → Bytes) (etag : String) where
  -- The record has the etag and the contract hash.
  abbrev pub agreeing : Bytes → Option FileInfo → Bool
  agreeing h none = false
  agreeing h (some fi) =
      record_etag_matches fi etag && bytes_eq.beq (decode_contract_hash blake3 fi) h

  times_of-count_hashes :
      (h : Bytes) (i : ℕ) (metas : List (Option FileInfo)) (es : List HashEntry)
      → times_of h (count_hashes blake3 etag i metas es) ≡ count (agreeing h) metas + times_of h es
  unfolding count_hashes
  times_of-count_hashes h i [] es = omega arith
  times_of-count_hashes h i (none ∷ metas) es =
      omega (arith, times_of-count_hashes h (suc i) metas es)
  times_of-count_hashes h i (some fi ∷ metas) es = elim (Bool-cases (record_etag_matches fi etag)) [
    | inl t ↦
        let k = decode_contract_hash blake3 fi in
        rw t (
          omega (
            arith,
            times_of-count_hashes h (suc i) metas (vote_hash k i es),
            times_of-vote_hash k h i es,
          ))
    | inr f ↦ rw f (omega (arith, times_of-count_hashes h (suc i) metas es))
  ]

  module _ (all : List (Option FileInfo)) where
    -- The entry's first disk has a record with its hash, and its count and the records that are left
    -- do not come to more than there are with its hash.
    pub record Backed (left : List (Option FileInfo)) (e : HashEntry) : Type 0 where
      pub first : ℕ
      pub others : List ℕ
      pub fi : FileInfo
      pub disks_eq : e.disks ≡ first ∷ others
      pub here : get_elem? all first ≡ some (some fi)
      pub agrees : agreeing e.hash (some fi) ≡ true
      pub bound : e.times + count (agreeing e.hash) left ≤ count (agreeing e.hash) all

    -- From `left` to a list that no count of a hash goes up in.
    Backed-fewer :
        (left fewer : List (Option FileInfo)) (es : List HashEntry)
        → ((h : Bytes) → count (agreeing h) fewer ≤ count (agreeing h) left)
        → All (Backed left) es
        → All (Backed fewer) es
    Backed-fewer left fewer es f a =
        All-imp
          (λ e b. record {
            first = b.first;
            others = b.others;
            fi = b.fi;
            disks_eq = b.disks_eq;
            here = b.here;
            agrees = b.agrees;
            bound = omega (arith, f e.hash, b.bound);
          })
          es a

    module _ (i : ℕ) (fi : FileInfo) (left : List (Option FileInfo))
        (t : record_etag_matches fi etag ≡ true) where
      hash_of : Bytes
      hash_of = decode_contract_hash blake3 fi

      agrees_self : agreeing hash_of (some fi) ≡ true
      unfolding hash_of
      agrees_self = rw t (
          (bytes_eq.beq_iff (decode_contract_hash blake3 fi) (decode_contract_hash blake3 fi)).1
            refl)

      Backed-more :
          (e : HashEntry)
          → Backed (some fi ∷ left) e
          → bytes_eq.beq e.hash hash_of ≡ true
          → Backed left (record e { times = e.times + 1; disks = e.disks ++ i ∷ [] })
      Backed-more e b s =
          let same : e.hash ≡ hash_of = (bytes_eq.beq_iff e.hash hash_of).0 s in
          let counted : agreeing e.hash (some fi) ≡ true =
            subst (λ h. agreeing h (some fi) ≡ true) (sym same) agrees_self in
          record {
            first = b.first;
            others = b.others ++ i ∷ [];
            fi = b.fi;
            disks_eq = ap (λ ds. ds ++ i ∷ []) b.disks_eq;
            here = b.here;
            agrees = b.agrees;
            bound = ground (arith, counted, b.bound);
          }

      vote_hash-Backed :
          (es : List HashEntry)
          → get_elem? all i ≡ some (some fi)
          → ((h : Bytes) → count (agreeing h) (some fi ∷ left) ≤ count (agreeing h) all)
          → All (Backed (some fi ∷ left)) es
          → All (Backed left) (vote_hash hash_of i es)
      unfolding vote_hash
      vote_hash-Backed [] here f a = (
        record {
          first = i;
          others = [];
          fi = fi;
          disks_eq = refl;
          here = here;
          agrees = agrees_self;
          bound = ground (arith, f hash_of, agrees_self);
        },
        tt,
      )
      vote_hash-Backed (e ∷ es) here f (b, a) =
          let fewer : (h : Bytes) → count (agreeing h) left ≤ count (agreeing h) (some fi ∷ left) =
            λ h. omega arith in
          elim (Bool-cases (bytes_eq.beq e.hash hash_of)) [
            | inl s ↦ rw s (Backed-more e b s, Backed-fewer (some fi ∷ left) left es fewer a)
            | inr n ↦ rw n (
              (Backed-fewer (some fi ∷ left) left (e ∷ []) fewer (b, tt)).0,
              vote_hash-Backed es here f a,
            )
          ]

    count_hashes-Backed :
        (i : ℕ) (left : List (Option FileInfo)) (es : List HashEntry)
        → ((n j : ℕ) → n ≡ i + j → get_elem? all n ≡ get_elem? left j)
        → ((h : Bytes) → count (agreeing h) left ≤ count (agreeing h) all)
        → All (Backed left) es
        → All (Backed []) (count_hashes blake3 etag i left es)
    unfolding count_hashes
    count_hashes-Backed i [] es at f a = a
    count_hashes-Backed i (none ∷ left) es at f a =
        count_hashes-Backed (suc i) left es (λ n j q. at n (suc j) (omega (arith, q)))
          (λ h. omega (arith, f h)) (Backed-fewer (none ∷ left) left es (λ h. omega arith) a)
    count_hashes-Backed i (some fi ∷ left) es at f a =
        elim (Bool-cases (record_etag_matches fi etag)) [
          | inl t ↦
              let counted : All (Backed left) (vote_hash (decode_contract_hash blake3 fi) i es) =
                unfold hash_of in vote_hash-Backed i fi left t es (at i 0 (omega arith)) f a in
              rw t (
                count_hashes-Backed (suc i) left _ (λ n j q. at n (suc j) (omega (arith, q)))
                  (λ h. omega (arith, f h)) counted)
          | inr n ↦ rw n (
              count_hashes-Backed (suc i) left es (λ n j q. at n (suc j) (omega (arith, q)))
                (λ h. omega (arith, f h))
                (Backed-fewer (some fi ∷ left) left es (λ h. omega arith) a))
        ]

  -- Every entry after the loop is backed by the records, and every hash was counted.
  pub count_hashes_lem :
      (metas : List (Option FileInfo))
      → All (Backed metas []) (count_hashes blake3 etag 0 metas [])
        × ((h : Bytes) (n : ℕ)
            → All (λ e. e.times ≤ n) (count_hashes blake3 etag 0 metas [])
            → count (agreeing h) metas ≤ n)
  count_hashes_lem metas = (
    count_hashes-Backed metas 0 metas [] (λ n j q. ap (get_elem? metas) (omega (arith, q)))
        (λ h. omega arith) tt,
    λ h n a. omega (arith, times_of-bound n h _ a, times_of-count_hashes h 0 metas []),
  )

-- The order in which the map is iterated brings up its entries, all of them and no other.
abbrev pub IsFair {ℓ} : {A : Type ℓ} → (List A → List A) → Type (ℓ ⊔ 1)
IsFair {A} order = (P : A → Type 0) (es : List A) → All P (order es) ↔ All P es
