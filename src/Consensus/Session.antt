-- ===== src/Consensus/Session.antt =====
-- crates/openlake_storage/src/engine.rs: `majority_key` and `read_session_fi`, the record of a multipart
-- upload that a majority of the drives agrees on.
use openlake.Prelude.{
  ℕ, ◌+◌, ◌/◌, ◌≤◌, ◌<◌, ◌≡◌, ◌≢◌, ◌⊎◌, refl, sym, subst, ap, ◌∙◌, ◌↔◌, String, Bool, true, false,
  ◌&&◌, Option, none, some, List, [], ◌∷◌, length, map, count, arith, leb, leb→le, ◌==◌,
  if◌then◌else◌, Eq, string_eq, nat_eq, Bool-cases, Option-cases, inl, inr,
}
use openlake.Prelude.Maps.{bump, entry_count, entry_count-bump}
use openlake.Errors.{Result, ok, err, IoError, StorageError, io_error, invalid_argument}
use openlake.Records.{FileInfo}
use openlake.Consensus.Read.{Answer}
use openlake.Consensus.Tally.{count-two-keys}

module _ {K : Type 0} ⦃e : Eq K⦄ where
  unfoldable pub majority_from : (threshold : ℕ) → List K → (counts : List (K × ℕ)) → Option K
  unfolding bump entry_count
  majority_from threshold [] counts = none
  majority_from threshold (k ∷ ks) counts =
      let rest = majority_from threshold ks (bump k counts) in
      if leb threshold (entry_count k (bump k counts)) then some k else rest

  unfoldable pub majority_key : List K → (threshold : ℕ) → Option K
  unfolding majority_from
  majority_key items threshold = majority_from threshold items []

  majority_from-some :
      (t : ℕ) (ks : List K) (m : List (K × ℕ)) (k : K)
      → majority_from t ks m ≡ some k
      → t ≤ count (e.beq k) ks + entry_count k m
  unfolding majority_from
  majority_from-some t [] m k h = absurd (cc h)
  majority_from-some t (j ∷ ks) m k h = elim (Bool-cases (leb t (entry_count j (bump j m)))) [
    | inl y ↦
        let same : j ≡ k = cc (rw y at h) in
        let here : t ≤ entry_count k (bump j m) =
          subst (λ x. t ≤ entry_count x (bump j m)) same (leb→le t _ y) in
        ground (arith, here, entry_count-bump j k m, e.beq_iff j k, e.beq_iff k j)
    | inr n ↦
        let later = majority_from-some t ks (bump j m) k (rw n at h) in
        ground (arith, later, entry_count-bump j k m, e.beq_iff j k, e.beq_iff k j)
  ]

  majority_from-total :
      (t : ℕ) (ks : List K) (m : List (K × ℕ)) (k : K)
      → t ≤ count (e.beq k) ks + entry_count k m
      → entry_count k m < t
      → (j : K) × (majority_from t ks m ≡ some j)
  unfolding majority_from
  majority_from-total t [] m k le l = absurd (omega (arith, le, l))
  majority_from-total t (j ∷ ks) m k le l = elim (Bool-cases (leb t (entry_count j (bump j m)))) [
    | inl y ↦ (j, rw y)
    | inr n ↦
        let (i, found) =
          majority_from-total t ks (bump j m) k
            (ground (arith, le, entry_count-bump j k m, e.beq_iff j k, e.beq_iff k j)) (below n) in
        (i, rw (n, found))
  ]
    where
      below : leb t (entry_count j (bump j m)) ≡ false → entry_count k (bump j m) < t
      below n = elim (Bool-cases (e.beq k j)) [
        | inl s ↦
            let same : j ≡ k = sym ((e.beq_iff k j).0 s) in
            subst (λ x. entry_count x (bump j m) < t) same (ground (arith, n))
        | inr d ↦
            let same =
              entry_count-bump j k m ∙ ap (λ b. (if b then 1 else 0) + entry_count k m) d in
            subst (λ x. x < t) (sym same) (omega (arith, l))
      ]

pub record SessionKey : Type 0 where
  pub data_dir : String
  pub data_blocks : ℕ
  pub parity_blocks : ℕ

abbrev session_key_beq : SessionKey → SessionKey → Bool
session_key_beq a b =
    string_eq.beq a.data_dir b.data_dir
    && (a.data_blocks == b.data_blocks && a.parity_blocks == b.parity_blocks)

pub session_key_beq_iff : (a b : SessionKey) → (session_key_beq a b ≡ true) ↔ (a ≡ b)
session_key_beq_iff a b = (
  λ h.
      let dir : a.data_dir ≡ b.data_dir =
        (string_eq.beq_iff a.data_dir b.data_dir).0 (ground (arith, h)) in
      let blocks : a.data_blocks ≡ b.data_blocks = ground (arith, h) in
      let parity : a.parity_blocks ≡ b.parity_blocks = ground (arith, h) in
      cc (dir, blocks, parity),
  λ h.
      subst (λ x. session_key_beq a x ≡ true) h
        (ground (arith, (string_eq.beq_iff a.data_dir a.data_dir).1 refl)),
)

instance abbrev pub session_key_eq : Eq SessionKey
session_key_eq = record { beq = session_key_beq; beq_iff = session_key_beq_iff }

-- `key_of`
abbrev pub key_of : FileInfo → SessionKey
key_of fi = record {
  data_dir = fi.data_dir;
  data_blocks = fi.erasure.data_blocks;
  parity_blocks = fi.erasure.parity_blocks;
}

unfoldable pub valid_of : List Answer → List FileInfo
valid_of [] = []
valid_of (ok fi ∷ rs) = fi ∷ valid_of rs
valid_of (err e ∷ rs) = valid_of rs

-- The last error, or the one that stands for none.
unfoldable pub last_error : IoError → List Answer → IoError
last_error e [] = e
last_error e (ok fi ∷ rs) = last_error e rs
last_error e (err d ∷ rs) = last_error d rs

-- The first record with the key; `none` is a panic.
unfoldable pub with_key : SessionKey → List FileInfo → Option (Result StorageError FileInfo)
with_key k [] = none
with_key k (fi ∷ fis) =
    let rest = with_key k fis in if session_key_eq.beq (key_of fi) k then some (ok fi) else rest

abbrev pub session_of : List Answer → Option SessionKey → Option (Result StorageError FileInfo)
session_of rs none =
    some (err (io_error (last_error (invalid_argument "no quorum on data_dir/erasure") rs)))
session_of rs (some k) = with_key k (valid_of rs)

-- `read_session_fi`, over what the backends answer.
unfoldable pub read_session_fi : List Answer → Option (Result StorageError FileInfo)
unfolding majority_key valid_of last_error with_key
read_session_fi rs = session_of rs (majority_key (map key_of (valid_of rs)) (length rs / 2 + 1))

-- The answer is a record with the key.
abbrev pub has_key : SessionKey → Answer → Bool
has_key k (ok fi) = session_key_eq.beq k (key_of fi)
has_key k (err e) = false

count-valid_of :
    (k : SessionKey) (rs : List Answer)
    → count (session_key_eq.beq k) (map key_of (valid_of rs)) ≡ count (has_key k) rs
unfolding valid_of
count-valid_of k [] = refl
count-valid_of k (ok fi ∷ rs) = omega (arith, count-valid_of k rs)
count-valid_of k (err e ∷ rs) = omega (arith, count-valid_of k rs)

length-valid_of : (rs : List Answer) → length (map key_of (valid_of rs)) ≤ length rs
unfolding valid_of
length-valid_of [] = omega arith
length-valid_of (ok fi ∷ rs) = omega (arith, length-valid_of rs)
length-valid_of (err e ∷ rs) = omega (arith, length-valid_of rs)

with_key-some :
    (k : SessionKey) (fis : List FileInfo)
    → 0 < count (session_key_eq.beq k) (map key_of fis)
    → (fi : FileInfo) × (with_key k fis ≡ some (ok fi)) × (key_of fi ≡ k)
unfolding with_key
with_key-some k [] h = absurd (omega (arith, h))
with_key-some k (fi ∷ fis) h = elim (Bool-cases (session_key_eq.beq (key_of fi) k)) [
  | inl t ↦ (fi, rw t, (session_key_eq.beq_iff (key_of fi) k).0 t)
  | inr f ↦
      let other : session_key_eq.beq k (key_of fi) ≡ false = flipped f in
      let (g, found, same) = with_key-some k fis (
        omega (
          arith,
          subst (λ b. 0 < (if b then 1 else 0) + count (session_key_eq.beq k) (map key_of fis))
              other h,
        )) in
      (g, rw (f, found), same)
]
  where
    flipped : session_key_eq.beq (key_of fi) k ≡ false → session_key_eq.beq k (key_of fi) ≡ false
    flipped f = elim (Bool-cases (session_key_eq.beq k (key_of fi))) [
      | inl t ↦
          let same : key_of fi ≡ k = sym ((session_key_eq.beq_iff k (key_of fi)).0 t) in
          absurd (cc (f, (session_key_eq.beq_iff (key_of fi) k).1 same))
      | inr g ↦ g
    ]

majority_count :
    (rs : List Answer) (k : SessionKey)
    → majority_key (map key_of (valid_of rs)) (length rs / 2 + 1) ≡ some k
    → length rs < count (has_key k) rs + count (has_key k) rs
unfolding majority_key entry_count
majority_count rs k h = omega (
  arith,
  majority_from-some (length rs / 2 + 1) (map key_of (valid_of rs)) [] k h,
  count-valid_of k rs,
)

-- The session's record is one whose data directory and shard counts more than half of the drives agree on;
-- and where more than half of the drives agree on them, the read gives such a record.
pub read_session_fi-verdict :
    (rs : List Answer) (k : SessionKey)
    → ((fi : FileInfo)
        → read_session_fi rs ≡ some (ok fi)
        → length rs < count (has_key (key_of fi)) rs + count (has_key (key_of fi)) rs)
      × (length rs < count (has_key k) rs + count (has_key k) rs
          → (fi : FileInfo) × (read_session_fi rs ≡ some (ok fi)) × (key_of fi ≡ k))
unfolding read_session_fi majority_key entry_count
read_session_fi-verdict rs k = (sound (Option-cases winner), total)
  where
    keys : List SessionKey
    keys = map key_of (valid_of rs)

    winner : Option SessionKey
    winner = majority_key keys (length rs / 2 + 1)

    picked :
        (j : SessionKey)
        → winner ≡ some j
        → (fi : FileInfo) × (session_of rs winner ≡ some (ok fi)) × (key_of fi ≡ j)
    picked j w =
        let (fi, found, same) =
          with_key-some j (valid_of rs)
            (omega (arith, majority_count rs j w, count-valid_of j rs)) in
        (fi, ap (session_of rs) w ∙ found, same)

    sound :
        (winner ≡ none) ⊎ ((j : SessionKey) × (winner ≡ some j))
        → (fi : FileInfo) → session_of rs winner ≡ some (ok fi)
        → length rs < count (has_key (key_of fi)) rs + count (has_key (key_of fi)) rs
    sound (inl n) fi h = absurd (cc (sym (ap (session_of rs) n) ∙ h))
    sound (inr (j, w)) fi h =
        let (g, found, same) = picked j w in
        let one : g ≡ fi = cc (found, h) in
        subst (λ x. length rs < count (has_key x) rs + count (has_key x) rs)
          (sym same ∙ ap key_of one) (majority_count rs j w)

    total :
        length rs < count (has_key k) rs + count (has_key k) rs
        → (fi : FileInfo) × (session_of rs winner ≡ some (ok fi)) × (key_of fi ≡ k)
    total most =
        let (j, w) =
          majority_from-total (length rs / 2 + 1) keys [] k
            (omega (arith, most, count-valid_of k rs)) (omega arith) in
        let (fi, found, same) = picked j w in
        (
          fi,
          found,
          same ∙ agree j (majority_count rs j w) most (Bool-cases (session_key_eq.beq j k)),
        )
      where
        agree :
            (j : SessionKey)
            → length rs < count (has_key j) rs + count (has_key j) rs
            → length rs < count (has_key k) rs + count (has_key k) rs
            → (session_key_eq.beq j k ≡ true) ⊎ (session_key_eq.beq j k ≡ false)
            → j ≡ k
        agree j a b (inl t) = (session_key_eq.beq_iff j k).0 t
        agree j a b (inr f) =
            let apart : j ≢ k = λ e. cc (f, (session_key_eq.beq_iff j k).1 e) in
            absurd (
              omega (
                arith,
                a,
                b,
                count-valid_of j rs,
                count-valid_of k rs,
                count-two-keys j k keys apart,
                length-valid_of rs,
              ))
