-- ===== src/Objects/Listing.antt =====
-- crates/openlake_storage/src/engine.rs: the record that a listing takes from those of the drives,
-- and what it shows of it.
use mathlib.Core.List.{append_assoc, append-nil}
use openlake.Prelude.{
  ℕ, ◌+◌, ◌≤◌, ◌≡◌, refl, String, Bool, true, false, ◌&&◌, Option, none, some, List, [], ◌∷◌, ◌++◌,
  count, count-append, All, arith, ◌==◌, leb, leb→le, if◌then◌else◌, if-elim, string_eq, subst, sym,
  ap, Option-cases, inl, inr,
}
use openlake.Prelude.Maps.{get}
use openlake.Prelude.Int.{ℤ, pos, negsuc}
use openlake.Records.{FileInfo}
use openlake.Consensus.Votes.{etag_meta_key}

abbrev pub content_type_meta_key : String
content_type_meta_key = "content-type"

pub data StorageClass : Type 0 where
  inline single : StorageClass

pub record ObjectInfo : Type 0 where
  pub bucket : String
  pub key : String
  pub size : ℕ
  pub etag : String
  pub storage_class : StorageClass
  pub modified_ms : ℕ
  pub content_type : Option String
  pub version_id : String
  pub is_delete_marker : Bool

abbrev pub or_default : Option String → String
or_default none = ""
or_default (some s) = s

-- `size.max(0) as u64`
abbrev pub clamped : ℤ → ℕ
clamped (pos n) = n
clamped (negsuc n) = 0

abbrev pub class_of {ℓ} : {A : Type ℓ} → Option A → StorageClass
class_of none = single
class_of (some a) = inline

unfoldable pub to_object_info : String → FileInfo → ObjectInfo
to_object_info bucket fi = record {
  bucket = bucket;
  key = fi.name;
  size = clamped fi.size;
  etag = or_default (get etag_meta_key fi.metadata);
  storage_class = class_of fi.inline_data;
  modified_ms = fi.mod_time_ms;
  content_type = get content_type_meta_key fi.metadata;
  version_id = fi.version_id;
  is_delete_marker = fi.deleted;
}

pub record Sig : Type 0 where
  pub etag : String
  pub mod_time_ms : ℕ
  pub version_id : String
  pub size : ℤ
  pub deleted : Bool

abbrev pub sig_of : FileInfo → Sig
sig_of fi = record {
  etag = or_default (get etag_meta_key fi.metadata);
  mod_time_ms = fi.mod_time_ms;
  version_id = fi.version_id;
  size = fi.size;
  deleted = fi.deleted;
}

abbrev int_beq : ℤ → ℤ → Bool
int_beq (pos m) (pos n) = m == n
int_beq (pos m) (negsuc n) = false
int_beq (negsuc m) (pos n) = false
int_beq (negsuc m) (negsuc n) = m == n

abbrev bool_beq : Bool → Bool → Bool
bool_beq true b = b
bool_beq false true = false
bool_beq false false = true

unfoldable pub sig_beq : Sig → Sig → Bool
sig_beq a b =
    string_eq.beq a.etag b.etag
    && (a.mod_time_ms == b.mod_time_ms
        && (string_eq.beq a.version_id b.version_id
            && (int_beq a.size b.size && bool_beq a.deleted b.deleted)))

pub record Entry : Type 0 where
  pub sig : Sig
  pub times : ℕ
  pub example : FileInfo

-- `entry(sig).or_insert_with(|| (0, fi.clone()))`, and one more vote.
unfoldable pub vote_for : FileInfo → List Entry → List Entry
unfolding sig_beq
vote_for fi [] = record { sig = sig_of fi; times = 1; example = fi } ∷ []
vote_for fi (e ∷ es) =
    let rest = vote_for fi es in
    if sig_beq e.sig (sig_of fi) then record e { times = e.times + 1 } ∷ es else e ∷ rest

unfoldable pub vote_all : List FileInfo → List Entry → List Entry
unfolding vote_for
vote_all [] es = es
vote_all (fi ∷ fis) es = vote_all fis (vote_for fi es)

-- The entries that reach the quorum, and of those the last with the most votes.
unfoldable pub most_voted : ℕ → Option Entry → List Entry → Option Entry
most_voted quorum best [] = best
most_voted quorum none (e ∷ es) = most_voted quorum (if leb quorum e.times then some e else none) es
most_voted quorum (some b) (e ∷ es) =
    most_voted quorum (if leb quorum e.times && leb b.times e.times then some e else some b) es

abbrev pub example_of : Option Entry → Option FileInfo
example_of none = none
example_of (some e) = some e.example

-- `order` is the order in which the `HashMap` is iterated.
unfoldable pub vote_fileinfo : (List Entry → List Entry) → List FileInfo → ℕ → Option FileInfo
unfolding vote_all most_voted
vote_fileinfo order candidates quorum =
    example_of (most_voted quorum none (order (vote_all candidates [])))

int_beq_refl : (a : ℤ) → int_beq a a ≡ true
int_beq_refl (pos n) = ground arith
int_beq_refl (negsuc n) = ground arith

bool_beq_refl : (b : Bool) → bool_beq b b ≡ true
bool_beq_refl true = refl
bool_beq_refl false = refl

sig_beq_refl : (s : Sig) → sig_beq s s ≡ true
unfolding sig_beq
sig_beq_refl s = ground (
  arith,
  (string_eq.beq_iff s.etag s.etag).1 refl,
  (string_eq.beq_iff s.version_id s.version_id).1 refl,
  int_beq_refl s.size,
  bool_beq_refl s.deleted,
)

-- How many candidates have the signature.
abbrev pub backers : Sig → List FileInfo → ℕ
backers s fis = count (λ g. sig_beq s (sig_of g)) fis

-- An entry counts no more than the candidates that have the signature of its example.
abbrev IsBacked : List FileInfo → Entry → Type 0
IsBacked done e = (sig_of e.example ≡ e.sig) × (e.times ≤ backers e.sig done)

backers-append :
    (s : Sig) (fi : FileInfo) (done : List FileInfo) → backers s done ≤ backers s (done ++ fi ∷ [])
backers-append s fi done = omega (arith, count-append (λ g. sig_beq s (sig_of g)) done (fi ∷ []))

All-IsBacked :
    (fi : FileInfo) (done : List FileInfo) (es : List Entry)
    → All (IsBacked done) es
    → All (IsBacked (done ++ fi ∷ [])) es
All-IsBacked fi done [] h = tt
All-IsBacked fi done (e ∷ es) (h, hs) =
    ((h.0, omega (arith, h.1, backers-append e.sig fi done)), All-IsBacked fi done es hs)

vote_for-IsBacked :
    (fi : FileInfo) (done : List FileInfo) (es : List Entry)
    → All (IsBacked done) es
    → All (IsBacked (done ++ fi ∷ [])) (vote_for fi es)
unfolding vote_for
vote_for-IsBacked fi done [] h = (
  (
    refl,
    ground (
      arith,
      count-append (λ g. sig_beq (sig_of fi) (sig_of g)) done (fi ∷ []),
      sig_beq_refl (sig_of fi),
    ),
  ),
  tt,
)
vote_for-IsBacked fi done (e ∷ es) (h, hs) =
    if-elim (All (IsBacked (done ++ fi ∷ []))) (sig_beq e.sig (sig_of fi))
      (record e { times = e.times + 1 } ∷ es) (e ∷ vote_for fi es)
      (λ t. (
        (h.0, ground (arith, h.1, count-append (λ g. sig_beq e.sig (sig_of g)) done (fi ∷ []))),
        All-IsBacked fi done es hs,
      ))
      (λ _.
        ((h.0, omega (arith, h.1, backers-append e.sig fi done)), vote_for-IsBacked fi done es hs))

vote_all-IsBacked :
    (fis done : List FileInfo) (es : List Entry)
    → All (IsBacked done) es
    → All (IsBacked (done ++ fis)) (vote_all fis es)
unfolding vote_all
vote_all-IsBacked [] done es h = subst (λ d. All (IsBacked d) es) (sym (append-nil done)) h
vote_all-IsBacked (fi ∷ fis) done es h =
    subst (λ d. All (IsBacked d) (vote_all fis (vote_for fi es))) (append_assoc done (fi ∷ []) fis)
      (vote_all-IsBacked fis (done ++ fi ∷ []) (vote_for fi es) (vote_for-IsBacked fi done es h))

-- The entry that `most_voted` picks has whatever every entry has, and reaches the quorum.
most_voted-IsBacked :
    (P : Entry → Type 0) (quorum : ℕ) (best : Option Entry) (es : List Entry)
    → ((b : Entry) → best ≡ some b → P b × (quorum ≤ b.times))
    → All P es
    → (b : Entry) → most_voted quorum best es ≡ some b
    → P b × (quorum ≤ b.times)
unfolding most_voted
most_voted-IsBacked P quorum best [] f h = f
most_voted-IsBacked P quorum none (e ∷ es) f (h, hs) =
    most_voted-IsBacked P quorum (if leb quorum e.times then some e else none) es
      (if-elim (λ z. (b : Entry) → z ≡ some b → P b × (quorum ≤ b.times)) (leb quorum e.times)
        (some e) none (λ t. taken t) (λ _ b q. absurd (cc q)))
      hs
  where
    taken : leb quorum e.times ≡ true → (b : Entry) → some e ≡ some b → P b × (quorum ≤ b.times)
    taken t b q =
        let same : e ≡ b = cc q in
        subst (λ k. P k × (quorum ≤ k.times)) same (h, leb→le quorum e.times t)
most_voted-IsBacked P quorum (some a) (e ∷ es) f (h, hs) =
    most_voted-IsBacked P quorum
      (if leb quorum e.times && leb a.times e.times then some e else some a) es
      (if-elim (λ z. (b : Entry) → z ≡ some b → P b × (quorum ≤ b.times))
        (leb quorum e.times && leb a.times e.times) (some e) (some a) (λ t. taken (ground arith))
        (λ _. f))
      hs
  where
    taken : leb quorum e.times ≡ true → (b : Entry) → some e ≡ some b → P b × (quorum ≤ b.times)
    taken t b q =
        let same : e ≡ b = cc q in
        subst (λ k. P k × (quorum ≤ k.times)) same (h, leb→le quorum e.times t)

-- The order in which the map is iterated brings up nothing that is not in the map.
abbrev pub IsFaithful : (List Entry → List Entry) → Type 1
IsFaithful order = (P : Entry → Type 0) (es : List Entry) → All P es → All P (order es)

-- The record that a listing takes is one whose etag, time, version, size and deletion mark at least a
-- quorum of the drives agree on, whatever the order in which the map is iterated.
pub vote_fileinfo-quorum :
    (order : List Entry → List Entry) (candidates : List FileInfo) (quorum : ℕ) (fi : FileInfo)
    → IsFaithful order
    → vote_fileinfo order candidates quorum ≡ some fi
    → quorum ≤ backers (sig_of fi) candidates
unfolding vote_fileinfo
vote_fileinfo-quorum order candidates quorum fi o e =
    elim (Option-cases (most_voted quorum none (order (vote_all candidates [])))) [
      | inl n ↦ absurd (cc (ap example_of n, e))
      | inr (b, w) ↦
          let ((s, le), q) =
            most_voted-IsBacked (IsBacked candidates) quorum none (order (vote_all candidates []))
              (λ b f. absurd (cc f))
              (o (IsBacked candidates) (vote_all candidates [])
                (vote_all-IsBacked candidates [] [] tt))
              b w in
          let same : b.example ≡ fi = cc (ap example_of w, e) in
          subst (λ k. quorum ≤ backers (sig_of k) candidates) same
            (subst (λ k. quorum ≤ backers k candidates) (sym s) (omega (arith, le, q)))
    ]
