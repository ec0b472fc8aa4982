-- ===== src/Consensus/Votes.antt =====
-- crates/openlake_storage/src/engine.rs: the parity and the etag that the disks vote for.
pub mod Unique
pub mod Etag
use openlake.Prelude.{
  ℕ, zero, suc, ◌+◌, ◌-◌, ◌/◌, ◌%◌, ◌^◌, String, Bool, true, false, not, ◌&&◌, ◌||◌, Option, none,
  some, List, [], ◌∷◌, length, ◌==◌, leb, ltb, if◌then◌else◌, string_eq, nat_eq,
}
use openlake.Prelude.Maps.{get, tally}
use openlake.Prelude.Int.{is_zero}
use openlake.Records.{FileInfo, ErasureInfo}
use openlake.Consensus.Tally.{max_by_count}

abbrev pub etag_meta_key : String
etag_meta_key = "etag"

unfoldable pub erasure_is_valid : ErasureInfo → Bool
erasure_is_valid ei =
    let n = ei.data_blocks + ei.parity_blocks in
    if ei.data_blocks == 0
    then false
    else if ltb ei.data_blocks ei.parity_blocks
    then false
    else if not (length ei.distribution == n)
    then false
    else if ei.index == 0 || ltb n ei.index
    then false
    else true

-- `(n / 2) as u8` for a delete marker or an empty object.
unfoldable pub declared_parity : ℕ → FileInfo → ℕ
declared_parity n m = if m.deleted || is_zero m.size then n / 2 % 2 ^ 8 else m.erasure.parity_blocks

-- The votes on the parity, disk by disk.
unfoldable pub parity_votes : ℕ → List (Option FileInfo) → List ℕ
unfolding erasure_is_valid declared_parity
parity_votes n [] = []
parity_votes n (none ∷ metas) = parity_votes n metas
parity_votes n (some m ∷ metas) =
    let rest = parity_votes n metas in
    if erasure_is_valid m.erasure then declared_parity n m ∷ rest else rest

-- `n - p as usize`, which wraps at 64 bits in a release build; one that checks for overflow panics where
-- the parity passes `n`.
abbrev pub read_quorum_of : ℕ → ℕ → ℕ
read_quorum_of n p = (n + 2 ^ 64 - p) % 2 ^ 64

abbrev pub beats : ℕ → Option (ℕ × ℕ) → Bool
beats occ none = true
beats occ (some (p, prev)) = ltb prev occ

-- One round of the loop over `parity_counts`.
abbrev pub consider : ℕ → Option (ℕ × ℕ) → ℕ → ℕ → Option (ℕ × ℕ)
consider n best p occ =
    if ltb occ (read_quorum_of n p) then best else if beats occ best then some (p, occ) else best

unfoldable pub best_parity : ℕ → Option (ℕ × ℕ) → List (ℕ × ℕ) → Option (ℕ × ℕ)
best_parity n best [] = best
best_parity n best ((p, occ) ∷ counts) = best_parity n (consider n best p occ) counts

abbrev pub key_of {ℓ} : {K : Type ℓ} → Option (K × ℕ) → Option K
key_of none = none
key_of (some (k, c)) = some k

-- `order` is the order in which the map is iterated.
unfoldable pub common_parity : (List (ℕ × ℕ) → List (ℕ × ℕ)) → List (Option FileInfo) → ℕ → Option ℕ
unfolding parity_votes best_parity
common_parity order metas n = key_of (best_parity n none (order (tally (parity_votes n metas) [])))

-- The etags that are there and not empty.
unfoldable pub etag_votes : List (Option FileInfo) → List String
etag_votes [] = []
etag_votes (none ∷ metas) = etag_votes metas
etag_votes (some m ∷ metas) =
    let rest = etag_votes metas in
    elim (get etag_meta_key m.metadata) [
      | none ↦ rest
      | some e ↦ if string_eq.beq e "" then rest else e ∷ rest
    ]

abbrev pub reaching {ℓ} : {K : Type ℓ} → ℕ → Option (K × ℕ) → Option K
reaching quorum none = none
reaching quorum (some (k, c)) = if leb quorum c then some k else none

unfoldable pub common_etag :
    (List (String × ℕ) → List (String × ℕ)) → List (Option FileInfo) → ℕ → Option String
unfolding etag_votes max_by_count
common_etag order metas quorum =
    reaching quorum (max_by_count none (order (tally (etag_votes metas) [])))
