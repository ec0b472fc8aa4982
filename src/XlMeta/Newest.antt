-- ===== src/XlMeta/Newest.antt =====
-- crates/openlake_io/src/xl_meta.rs: the order of the versions that are read, and the latest of them.
use openlake.Prelude.{
  ℕ, suc, ◌≤◌, ◌≡◌, refl, sym, subst, ap, ◌∙◌, true, false, not, Option, List, [], ◌∷◌, length, All,
  All-imp, arith, ltb, Bool-cases, inl, inr,
}
use openlake.Prelude.Int.{ℤ, pos}
use openlake.Erasure.Codec.{Bytes}
use openlake.Errors.{Result, ok, err, IoError, ok_or}
use openlake.XlMeta.Layout.{VersionRecord, OnDiskMeta, DecodedRecord}
use openlake.XlMeta.Checks.{corrupt, is_empty}
use openlake.XlMeta.Decode.{
  insert_newest, sort_newest, inline_of, decoded_of, decode_records, validate_versions, decode_body,
  unframe, decode_all, decode,
}
use openlake.XlMeta.RoundTrip.Validity.{bind_ok, guard_then}
use openlake.XlMeta.RoundTrip.Pairs.{length-sort_newest}

module _ {A : Type 0} (time : A → ℕ) where
  -- No element is newer than one before it.
  pub NewestFirst : List A → Type 0
  NewestFirst [] = Unit
  NewestFirst (x ∷ xs) = All (λ y. time y ≤ time x) xs × NewestFirst xs

  insert_newest-All :
      (P : A → Type 0) (x : A) (xs : List A) → P x → All P xs → All P (insert_newest time x xs)
  unfolding insert_newest
  insert_newest-All P x [] p h = (p, tt)
  insert_newest-All P x (y ∷ ys) p h = elim (Bool-cases (ltb (time x) (time y))) [
    | inl t ↦ rw t (h.0, insert_newest-All P x ys p h.1)
    | inr f ↦ rw f (p, h)
  ]

  insert_newest-NewestFirst :
      (x : A) (xs : List A) → NewestFirst xs → NewestFirst (insert_newest time x xs)
  unfolding insert_newest NewestFirst
  insert_newest-NewestFirst x [] h = (tt, tt)
  insert_newest-NewestFirst x (y ∷ ys) h = elim (Bool-cases (ltb (time x) (time y))) [
    | inl t ↦ rw t (
      insert_newest-All (λ z. time z ≤ time y) x ys (ground (arith, t)) h.0,
      insert_newest-NewestFirst x ys h.1,
    )
    | inr f ↦
        let older : time y ≤ time x = ground (arith, f) in
        rw f ((older, All-imp (λ z l. omega (arith, l, older)) ys h.0), h)
  ]

  pub sort_newest-NewestFirst : (xs : List A) → NewestFirst (sort_newest time xs)
  unfolding sort_newest NewestFirst
  sort_newest-NewestFirst [] = tt
  sort_newest-NewestFirst (x ∷ xs) = insert_newest-NewestFirst x _ (sort_newest-NewestFirst xs)

module _ (total : ℕ) (tail : Bytes) where
  decoded_of_lem :
      (v : VersionRecord) (r : DecodedRecord)
      → decoded_of total tail v ≡ ok r
      → (r.mod_time_ms ≡ v.mod_time) × (r.num_versions ≡ pos total)
  unfolding decoded_of
  decoded_of_lem v r h =
      let (frames, _, same) = bind_ok (inline_of tail v) _ r h in
      (ap mod_time_of (sym same), ap versions_of (sym same))
    where
      mod_time_of : Result IoError DecodedRecord → ℕ
      mod_time_of (ok d) = d.mod_time_ms
      mod_time_of (err e) = 0

      versions_of : Result IoError DecodedRecord → ℤ
      versions_of (ok d) = d.num_versions
      versions_of (err e) = pos 0

  Told : List VersionRecord → List DecodedRecord → Type 0
  Told vs rs =
      (length rs ≡ length vs)
      × All (λ r. r.num_versions ≡ pos total) rs
      × NewestFirst (λ r. r.mod_time_ms) rs
      × ((t : ℕ) → All (λ v. v.mod_time ≤ t) vs → All (λ r. r.mod_time_ms ≤ t) rs)

  decode_records-Told :
      (vs : List VersionRecord) (rs : List DecodedRecord)
      → decode_records total tail vs ≡ ok rs
      → NewestFirst (λ v. v.mod_time) vs
      → Told vs rs
  unfolding decode_records NewestFirst Told
  decode_records-Told [] [] h n = (refl, tt, tt, λ t a. tt)
  decode_records-Told [] (r ∷ rs) h n = absurd (cc h)
  decode_records-Told (v ∷ vs) rs h n =
      let (r, made, h1) = bind_ok (decoded_of total tail v) _ rs h in
      let (rest, made_rest, h2) = bind_ok (decode_records total tail vs) _ rs h1 in
      let (time, num) = decoded_of_lem v r made in
      let (len, nums, sorted, bound) = decode_records-Told vs rest made_rest n.1 in
      let same : r ∷ rest ≡ rs = cc h2 in
      subst (Told (v ∷ vs)) same (
        ap suc len,
        (num, nums),
        (subst (λ t. All (λ s. s.mod_time_ms ≤ t) rest) (sym time) (bound v.mod_time n.0), sorted),
        λ t a. (omega (arith, time, a.0), bound t a.1),
      )

decode_body_lem :
    (tail : Bytes) (m : OnDiskMeta) (rs : List DecodedRecord)
    → decode_body tail m ≡ ok rs
    → (is_empty rs ≡ false)
      × All (λ r. r.num_versions ≡ pos (length rs)) rs
      × NewestFirst (λ r. r.mod_time_ms) rs
unfolding decode_body Told
decode_body_lem tail m rs h =
    let vs = sort_newest (λ v. v.mod_time) m.versions in
    let (full, h1) = guard_then (not (is_empty m.versions)) _ _ rs h in
    let (u, valid, h2) = bind_ok (validate_versions vs) _ rs h1 in
    let (len, nums, sorted, _) =
      decode_records-Told (length vs) tail vs rs h2 (sort_newest-NewestFirst _ m.versions) in
    (
      kept m.versions rs full (len ∙ length-sort_newest _ m.versions),
      subst (λ n. All (λ r. r.num_versions ≡ pos n) rs) (sym len) nums,
      sorted,
    )
  where
    kept :
        (vs : List VersionRecord) (rs : List DecodedRecord)
        → not (is_empty vs) ≡ true
        → length rs ≡ length vs
        → is_empty rs ≡ false
    kept [] rs h l = absurd (cc h)
    kept (v ∷ vs) [] h l = absurd (omega (arith, l))
    kept (v ∷ vs) (r ∷ rs) h l = refl

module _ (from_slice : Bytes → Option OnDiskMeta) (xxh64 : Bytes → ℕ) where
  decode_all_body :
      (bytes : Bytes) (rs : List DecodedRecord)
      → decode_all from_slice xxh64 bytes ≡ ok rs
      → (tail : Bytes) × (m : OnDiskMeta) × (decode_body tail m ≡ ok rs)
  unfolding decode_all
  decode_all_body bytes rs h =
      let ((body, tail), _, h1) = bind_ok (unframe xxh64 bytes) _ rs h in
      let (m, _, h2) = bind_ok (ok_or (from_slice body) (corrupt "decode body")) _ rs h1 in
      (tail, m, h2)

  -- A file that is read holds a version; the versions come newest first and each says how many they
  -- are. What `decode` returns is the first of them, and none is newer.
  pub decode-newest :
      (bytes : Bytes) (rs : List DecodedRecord)
      → decode_all from_slice xxh64 bytes ≡ ok rs
      → NewestFirst (λ r. r.mod_time_ms) rs
        × All (λ r. r.num_versions ≡ pos (length rs)) rs
        × (r : DecodedRecord) × (rest : List DecodedRecord) × (rs ≡ r ∷ rest)
        × (decode from_slice xxh64 bytes ≡ ok r)
        × All (λ s. s.mod_time_ms ≤ r.mod_time_ms) rs
  unfolding decode NewestFirst
  decode-newest bytes rs h =
      let (tail, m, body) = decode_all_body bytes rs h in
      let (full, nums, sorted) = decode_body_lem tail m rs body in
      let (r, rest, same, decoded, best) = first rs h full sorted in
      (sorted, nums, r, rest, same, decoded, best)
    where
      first :
          (l : List DecodedRecord)
          → decode_all from_slice xxh64 bytes ≡ ok l
          → is_empty l ≡ false
          → NewestFirst (λ r. r.mod_time_ms) l
          → (r : DecodedRecord) × (rest : List DecodedRecord) × (l ≡ r ∷ rest)
            × (decode from_slice xxh64 bytes ≡ ok r)
            × All (λ s. s.mod_time_ms ≤ r.mod_time_ms) l
      first [] h full sorted = absurd (cc full)
      first (r ∷ l) h full (older, _) = (r, l, refl, rw h refl, (omega arith, older))
