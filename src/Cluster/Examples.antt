-- ===== src/Cluster/Examples.antt =====
-- Runs of the cluster's layout and of the bootstrap: two nodes of two disks, in sets of two.
use openlake.Prelude.{
  ℕ, ◌≡◌, ◌<◌, ◌+◌, refl, String, true, false, none, some, List, [], ◌∷◌, ◌++◌, inl, inr, ◌↔◌,
  count,
}
use openlake.Prelude.Maps.{tally}
use openlake.Errors.{Result, ok}
use openlake.Consensus.Tally.{IsOrder}
use openlake.Cluster.Topology.{ClusterConfig}
use openlake.Cluster.Bootstrap.{
  DiskSlots, FormatError, Read, Round, vote_majority, bootstrap, is_formatted,
}
use openlake.Cluster.Bootstrap.Majority.{vote_majority_iff, vote_majority-agree, holders}
use openlake.Cluster.Bootstrap.Settled.{Some, Leaves, bootstrap-Leaves, bootstrap_ends}

abbrev two_nodes : ClusterConfig
two_nodes = record {
  nodes = record { id = 4; disk_count = 2 } ∷ record { id = 7; disk_count = 2 } ∷ [];
  set_drive_count = 2;
  default_parity_count = 1;
}

abbrev fixed_hash : String → String → ℕ
fixed_hash bucket key = 13

abbrev any_order : List (ℕ × ℕ) → List (ℕ × ℕ)
any_order m = m

any_order-IsOrder : IsOrder any_order
any_order-IsOrder m k c = (λ h. h, λ h. h)

abbrev disk : ℕ → ℕ → Read
disk id this = ok (
    some
      (record { version = 1; format = "openlake"; id = id; set_drive_count = 3; this_disk = this }))

abbrev slots : DiskSlots
slots = record { local_disk_offsets = 1 ∷ []; peer_disk_offsets = 2 ∷ 3 ∷ []; set_drive_count = 3 }

abbrev early : Round
early = record {
  local_fmts = disk 9 1 ∷ [];
  peer_fmts = ok none ∷ ok none ∷ [];
  write_format = λ i f. ok tt;
  past_deadline = false;
}

abbrev late : Round
late = record {
  local_fmts = disk 9 1 ∷ [];
  peer_fmts = disk 9 2 ∷ disk 5 3 ∷ [];
  write_format = λ i f. ok tt;
  past_deadline = true;
}

vote_majority_iff_example : (vote_majority any_order late.local_fmts late.peer_fmts ≡ ok 9) ↔ (
    count is_formatted (late.local_fmts ++ late.peer_fmts)
    < holders 9 (late.local_fmts ++ late.peer_fmts) + holders 9 (late.local_fmts ++ late.peer_fmts))
vote_majority_iff_example =
    vote_majority_iff any_order late.local_fmts late.peer_fmts 9 any_order-IsOrder

vote_majority-agree_example :
    (vote_majority any_order late.local_fmts late.peer_fmts ≡ ok 9)
    ↔ (vote_majority any_order late.peer_fmts late.local_fmts ≡ ok 9)
vote_majority-agree_example =
    vote_majority-agree any_order any_order late.local_fmts late.peer_fmts 9 any_order-IsOrder
      any_order-IsOrder

bootstrap-Leaves_example : Some (Leaves false 2 0 slots 9) (early ∷ late ∷ [])
unfolding bootstrap tally
bootstrap-Leaves_example =
    bootstrap-Leaves any_order false 2 0 60 slots (early ∷ late ∷ []) 9 any_order-IsOrder refl

bootstrap_ends_example :
    (a : Result FormatError ℕ) × (bootstrap any_order false 3 0 60 slots (early ∷ late ∷ [])
      ≡ some a)
bootstrap_ends_example =
    bootstrap_ends any_order false 3 0 60 slots (early ∷ late ∷ []) (inr (inl refl))
