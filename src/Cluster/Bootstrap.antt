-- ===== src/Cluster/Bootstrap.antt =====
-- crates/openlake_storage/src/format.rs. What the backends answer, what the writes return and whether
-- the deadline has passed are given for each round of the loop: `Round`. `Uuid::new_v4` is the
-- argument `fresh`.
pub mod Majority
pub mod Settled
use openlake.Prelude.{
  ℕ, zero, suc, ◌+◌, ◌/◌, String, Bool, true, false, ◌&&◌, ◌||◌, Option, none, some, List, [], ◌∷◌,
  ◌++◌, length, count, ◌==◌, leb, if◌then◌else◌, nat_eq,
}
use openlake.Prelude.Maps.{tally}
use openlake.Errors.{IoError, Result, ok, err, map_err, ◌>>=◌, ◌>>◌}

-- `FormatJson` of crates/openlake_io/src/types.rs
pub record FormatJson : Type 0 where
  pub version : ℕ
  pub format : String
  pub id : ℕ
  pub set_drive_count : ℕ
  pub this_disk : ℕ

pub data FormatError : Type 0 where
  timeout : ℕ → FormatError
  quorum_disagreement local_disk_missing_format : FormatError
  local_disk_wrong_deployment_id : (local cluster : ℕ) → FormatError
  seed_unreachable : String → FormatError
  io : IoError → FormatError

abbrev pub Read : Type 0
Read = Result IoError (Option FormatJson)

-- `matches!(r, Ok(Some(_)))`
abbrev pub is_formatted : Read → Bool
is_formatted (ok (some f)) = true
is_formatted (ok none) = false
is_formatted (err e) = false

-- `matches!(r, Ok(None))`
abbrev pub is_blank : Read → Bool
is_blank (ok (some f)) = false
is_blank (ok none) = true
is_blank (err e) = false

unfoldable pub all_ok_none : List Read → Bool
all_ok_none [] = true
all_ok_none (r ∷ rs) = is_blank r && all_ok_none rs

unfoldable pub any_ok_none : List Read → Bool
any_ok_none [] = false
any_ok_none (r ∷ rs) = is_blank r || any_ok_none rs

unfoldable pub ids_of : List Read → List ℕ
ids_of [] = []
ids_of (ok (some f) ∷ rs) = f.id ∷ ids_of rs
ids_of (ok none ∷ rs) = ids_of rs
ids_of (err e ∷ rs) = ids_of rs

unfoldable pub sum_of_counts : List (ℕ × ℕ) → ℕ
sum_of_counts [] = 0
sum_of_counts ((id, n) ∷ m) = n + sum_of_counts m

unfoldable pub first_majority : ℕ → List (ℕ × ℕ) → Result FormatError ℕ
first_majority majority [] = err FormatError.quorum_disagreement
first_majority majority ((id, n) ∷ m) =
    let rest = first_majority majority m in if leb majority n then ok id else rest

-- `order` is the order in which the map is iterated.
unfoldable pub vote_majority :
    (List (ℕ × ℕ) → List (ℕ × ℕ)) → List Read → List Read → Result FormatError ℕ
unfolding ids_of sum_of_counts first_majority
vote_majority order local_fmts peer_fmts =
    let counts = tally (ids_of (local_fmts ++ peer_fmts)) [] in
    first_majority (sum_of_counts counts / 2 + 1) (order counts)

-- The loop over the local disks that looks for another id.
unfoldable pub check_local : ℕ → List Read → Result FormatError ℕ
check_local id [] = ok id
check_local id (ok (some f) ∷ rs) =
    let rest = check_local id rs in
    if f.id == id then rest else err (FormatError.local_disk_wrong_deployment_id f.id id)
check_local id (ok none ∷ rs) = check_local id rs
check_local id (err e ∷ rs) = check_local id rs

-- The slices `local_disk_offsets` and `peer_disk_offsets`, which are as long as those of the backends,
-- and `set_drive_count`.
pub record DiskSlots : Type 0 where
  pub local_disk_offsets : List ℕ
  pub peer_disk_offsets : List ℕ
  pub set_drive_count : ℕ

-- The format that the disk `this` is given.
abbrev pub format_of : ℕ → ℕ → ℕ → FormatJson
format_of id set_drive_count this = record {
  version = 1;
  format = "openlake";
  id = id;
  set_drive_count = set_drive_count;
  this_disk = this;
}

-- `write_format` of a backend; the backends are numbered, the local ones before the peers.
abbrev pub WriteFormat : Type 0
WriteFormat = ℕ → FormatJson → Result IoError (Unit {0})

-- One of the two loops, from the backend `i`: the first write that fails ends it.
unfoldable pub write_disks : WriteFormat → ℕ → ℕ → ℕ → List ℕ → Result FormatError (Unit {0})
write_disks write_format id set_drive_count i [] = ok tt
write_disks write_format id set_drive_count i (this ∷ offsets) =
    map_err FormatError.io (write_format i (format_of id set_drive_count this))
    >> write_disks write_format id set_drive_count (suc i) offsets

unfoldable pub write_all_disks : WriteFormat → ℕ → DiskSlots → Result FormatError (Unit {0})
unfolding write_disks
write_all_disks write_format id d =
    write_disks write_format id d.set_drive_count 0 d.local_disk_offsets
    >> write_disks write_format id d.set_drive_count (length d.local_disk_offsets)
        d.peer_disk_offsets

abbrev pub or_else {ℓ} : {A : Type ℓ} → Option A → Option A → Option A
or_else none rest = rest
or_else (some a) rest = some a

pub record Round : Type 0 where
  pub local_fmts : List Read
  pub peer_fmts : List Read
  pub write_format : WriteFormat
  pub past_deadline : Bool

abbrev pub is_fresh : Round → Bool
is_fresh r =
    count is_formatted (r.local_fmts ++ r.peer_fmts) == 0
    && (all_ok_none r.local_fmts && all_ok_none r.peer_fmts)

module _ (order : List (ℕ × ℕ) → List (ℕ × ℕ)) (am_seed : Bool) (quorum fresh wait : ℕ) where
  -- What follows the check for a fresh cluster.
  unfoldable pub settle : Round → Option (Result FormatError ℕ)
  unfolding vote_majority check_local any_ok_none
  settle r =
      if leb quorum (count is_formatted (r.local_fmts ++ r.peer_fmts))
      then some (
          if any_ok_none r.local_fmts
          then err FormatError.local_disk_missing_format
          else (vote_majority order r.local_fmts r.peer_fmts >>= λ id. check_local id r.local_fmts))
      else if r.past_deadline
      then some (err (FormatError.timeout wait))
      else none

  -- One round of the loop: `none` is a sleep.
  unfoldable pub poll : DiskSlots → Round → Option (Result FormatError ℕ)
  unfolding settle write_all_disks all_ok_none
  poll d r =
      if is_fresh r && am_seed
      then some (write_all_disks r.write_format fresh d >>= λ _. ok fresh)
      else settle r

  -- The rounds until the first that returns.
  unfoldable pub bootstrap : DiskSlots → List Round → Option (Result FormatError ℕ)
  unfolding poll
  bootstrap d [] = none
  bootstrap d (r ∷ rs) = or_else (poll d r) (bootstrap d rs)

unfoldable pub quorum_for : List Read → List Read → ℕ
quorum_for local peers = (length local + length peers) / 2 + 1
