-- ===== src/Consensus/Results.antt =====
-- crates/openlake_storage/src/engine.rs: one verdict from the results of all disks.
pub mod Verdict
use openlake.Prelude.{
  ℕ, zero, suc, ◌+◌, Bool, true, false, Option, none, some, List, [], ◌∷◌, ◌==◌, leb, if◌then◌else◌,
}
use openlake.Errors.{
  Result, ok, err, IoError, IoKind, connection_refused, connection_timed_out, unexpected_eof, other,
  volume_not_found, volume_exists, volume_not_empty, file_not_found, file_already_exists,
  file_version_not_found, corrupt_metadata, unsupported_metadata_version, bitrot_check_failed,
  invalid_argument, unsupported, encode_error, decode_error, io,
}

-- `std::mem::discriminant`, and the tag that `error_tag` gives: one number for each variant.
unfoldable pub error_tag : IoError → ℕ
error_tag (file_not_found v p) = 0
error_tag (file_already_exists v p) = 1
error_tag (file_version_not_found v p i) = 2
error_tag (volume_not_found v) = 3
error_tag (volume_exists v) = 4
error_tag (volume_not_empty v) = 5
error_tag (corrupt_metadata v p m) = 6
error_tag (unsupported_metadata_version f m) = 7
error_tag (bitrot_check_failed v p) = 8
error_tag (invalid_argument m) = 9
error_tag (unsupported m) = 10
error_tag (encode_error m) = 11
error_tag (decode_error m) = 12
error_tag (io k m) = 13

-- A variant that occurred, how often, and the first error of it.
pub record Bucket : Type 0 where
  pub tag : ℕ
  pub times : ℕ
  pub example : IoError

-- The bucket of the error counts it, or a new one is pushed.
unfoldable pub count_error : IoError → List Bucket → List Bucket
unfolding error_tag
count_error e [] = record { tag = error_tag e; times = 1; example = e } ∷ []
count_error e (b ∷ bs) =
    if b.tag == error_tag e then record b { times = b.times + 1 } ∷ bs else b ∷ count_error e bs

-- `max_by_key` over the buckets: of equal counts the last wins.
unfoldable pub modal : Option Bucket → List Bucket → Option Bucket
modal best [] = best
modal none (b ∷ bs) = modal (some b) bs
modal (some a) (b ∷ bs) = modal (if leb a.times b.times then some b else some a) bs

-- The loop over the results: the successes, and the buckets of the errors.
unfoldable pub sort_results {ℓ} :
    {A : Type ℓ} → (IoError → Bool) → List (Result IoError A) → ℕ → List Bucket → ℕ × List Bucket
unfolding count_error
sort_results benign [] oks bs = (oks, bs)
sort_results benign (ok a ∷ rs) oks bs = sort_results benign rs (oks + 1) bs
sort_results benign (err e ∷ rs) oks bs =
    sort_results benign rs (if benign e then oks + 1 else oks)
      (if benign e then bs else count_error e bs)

abbrev pub modal_error : Option Bucket → IoError
modal_error none = invalid_argument "no results"
modal_error (some b) = b.example

unfoldable pub require_quorum {ℓ} :
    {A : Type ℓ} → List (Result IoError A) → ℕ → (IoError → Bool) → Result IoError (Unit {0})
unfolding sort_results modal
require_quorum results quorum benign =
    let (oks, bs) = sort_results benign results 0 [] in
    if leb quorum oks then ok tt else err (modal_error (modal none bs))

-- The errors of a peer that did not answer do not vote.
abbrev pub is_noise : IoError → Bool
is_noise (io connection_refused m) = true
is_noise (io connection_timed_out m) = true
is_noise e = false

unfoldable pub tally_errors : List (Option IoError) → List Bucket → List Bucket
unfolding count_error
tally_errors [] bs = bs
tally_errors (none ∷ es) bs = tally_errors es bs
tally_errors (some e ∷ es) bs = tally_errors es (if is_noise e then bs else count_error e bs)

abbrev pub dominant : Option Bucket → ℕ × Option IoError
dominant none = (0, none)
dominant (some b) = (b.times, some b.example)

-- `order` is the order in which the `HashMap` of the tags is iterated.
unfoldable pub dominant_error :
    (List Bucket → List Bucket) → List (Option IoError) → ℕ × Option IoError
unfolding tally_errors modal
dominant_error order errs = dominant (modal none (order (tally_errors errs [])))
