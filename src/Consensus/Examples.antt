-- ===== src/Consensus/Examples.antt =====
-- Runs of the votes: three drives of a set, two of which hold the same record.
use openlake.Prelude.{
  ℕ, ◌≡◌, ◌≤◌, ◌<◌, Bool, true, false, Option, none, some, List, [], ◌∷◌, count, arith, ◌⊎◌, inl,
  inr, nat_eq,
}
use openlake.Prelude.Int.{pos}
use openlake.Errors.{IoError, Result, ok, err, file_not_found, bitrot_check_failed}
use openlake.Records.{FileInfo, default_file_info, default_erasure}
use openlake.Consensus.Tally.{IsOrder}
use openlake.Consensus.Votes.{common_etag}
use openlake.Consensus.Votes.Etag.{support, common_etag_iff}
use openlake.Prelude.{◌+◌}
use openlake.Consensus.Session.{read_session_fi, has_key, key_of, read_session_fi-verdict}
use openlake.Consensus.Results.{require_quorum, modal_error}
use openlake.Consensus.Results.Verdict.{is_good, is_bad, Worst, require_quorum_verdict}

abbrev whole_record : FileInfo
whole_record = record default_file_info {
  size = pos 700;
  metadata = ("etag", "e1") ∷ [];
  erasure = record default_erasure {
    data_blocks = 2;
    parity_blocks = 1;
    index = 1;
    distribution = 1 ∷ 2 ∷ 3 ∷ [];
  };
}

abbrev three_drives : List (Option FileInfo)
three_drives = some whole_record ∷ none ∷ some whole_record ∷ []

abbrev same_order : {K : Type 0} → List (K × ℕ) → List (K × ℕ)
same_order m = m

same_order-IsOrder : {K : Type 0} → IsOrder (same_order {K = K})
same_order-IsOrder m k c = (λ h. h, λ h. h)

-- Another order: the first two entries change places.
abbrev swapped_order : {K : Type 0} → List (K × ℕ) → List (K × ℕ)
swapped_order [] = []
swapped_order (a ∷ []) = a ∷ []
swapped_order (a ∷ b ∷ m) = b ∷ a ∷ m

swapped_order-IsOrder : {K : Type 0} → IsOrder (swapped_order {K = K})
swapped_order-IsOrder [] k c = (λ h. h, λ h. h)
swapped_order-IsOrder (a ∷ []) k c = (λ h. h, λ h. h)
swapped_order-IsOrder (a ∷ b ∷ m) k c = (swap, swap)
  where
    swap : {X Y Z : Type 0} → X ⊎ (Y ⊎ Z) → Y ⊎ (X ⊎ Z)
    swap (inl x) = inr (inl x)
    swap (inr (inl y)) = inl y
    swap (inr (inr z)) = inr (inr z)

common_etag_iff_example :
    (common_etag swapped_order three_drives 2 ≡ some "e1" → 2 ≤ support "e1" three_drives)
    × (2 ≤ support "e1" three_drives → common_etag swapped_order three_drives 2 ≡ some "e1")
common_etag_iff_example =
    common_etag_iff swapped_order three_drives 2 "e1" swapped_order-IsOrder (omega arith)

abbrev no_file : IoError → Bool
no_file (file_not_found v p) = true
no_file e = false

abbrev answers : List (Result IoError ℕ)
answers = ok 1 ∷ err (bitrot_check_failed "v" "p") ∷ err (file_not_found "v" "p") ∷ []

require_quorum_verdict_example :
    (3 ≤ count (is_good no_file) answers → require_quorum answers 3 no_file ≡ ok tt)
    × (count (is_good no_file) answers < 3
        → (e : IoError) × (require_quorum answers 3 no_file ≡ err e)
          × (Worst no_file e answers
              ⊎ ((e ≡ modal_error none) × ((t : ℕ) → count (is_bad no_file t) answers ≡ 0))))
require_quorum_verdict_example = require_quorum_verdict no_file answers 3

-- Two of three drives know the upload.
abbrev sessions : List (Result IoError FileInfo)
sessions = ok whole_record ∷ err (file_not_found "v" "p") ∷ ok whole_record ∷ []

read_session_fi-verdict_example :
    ((fi : FileInfo)
      → read_session_fi sessions ≡ some (ok fi)
      → 3 < count (has_key (key_of fi)) sessions + count (has_key (key_of fi)) sessions)
    × (3
          < count (has_key (key_of whole_record)) sessions
            + count (has_key (key_of whole_record)) sessions
        → (fi : FileInfo) × (read_session_fi sessions ≡ some (ok fi))
          × (key_of fi ≡ key_of whole_record))
read_session_fi-verdict_example = read_session_fi-verdict sessions (key_of whole_record)
