-- ===== src/Cluster/Topology.antt =====
-- crates/openlake_storage/src/cluster.rs. SipHash over the bytes of bucket, `/` and key is a
-- parameter, and so is the deployment id. The RPC address of a node plays no part here.
use openlake.Prelude.{
  ℕ, zero, suc, ◌+◌, ◌-◌, ◌*◌, ◌/◌, ◌%◌, String, Bool, false, ◌&&◌, ◌||◌, Option, none, some, List,
  [], ◌∷◌, ◌++◌, length, take, drop, max, ◌==◌, leb, if◌then◌else◌,
}

pub record DiskAddr : Type 0 where
  pub node_id : ℕ
  pub disk_idx : ℕ

pub record NodeAddr : Type 0 where
  pub id : ℕ
  pub disk_count : ℕ

pub record ClusterConfig : Type 0 where
  pub nodes : List NodeAddr
  pub set_drive_count : ℕ
  pub default_parity_count : ℕ

-- `flat`, whose `saturating_sub` is `-`.
unfoldable pub flat : List NodeAddr → ℕ → ClusterConfig
flat nodes replication = record {
  nodes = nodes;
  set_drive_count = replication;
  default_parity_count = max (replication - 1) 1;
}

unfoldable pub total_of : List NodeAddr → ℕ
total_of [] = 0
total_of (n ∷ ns) = n.disk_count + total_of ns

unfoldable pub total_disks : ClusterConfig → ℕ
unfolding total_of
total_disks c = total_of c.nodes

unfoldable pub num_sets : ClusterConfig → ℕ
unfolding total_disks
num_sets c = if total_disks c == 0 then 0 else total_disks c / c.set_drive_count

-- The disks `d`, …, `d + k - 1` of a node.
unfoldable pub node_disks : ℕ → ℕ → ℕ → List DiskAddr
node_disks id d zero = []
node_disks id d (suc k) = record { node_id = id; disk_idx = d } ∷ node_disks id (suc d) k

unfoldable pub disks_of : List NodeAddr → List DiskAddr
unfolding node_disks
disks_of [] = []
disks_of (n ∷ ns) = node_disks n.id 0 n.disk_count ++ disks_of ns

unfoldable pub all_disks : ClusterConfig → List DiskAddr
unfolding disks_of
all_disks c = disks_of c.nodes

-- `all[start..end]`, which panics unless the range lies within the list.
unfoldable pub slice {ℓ} : {A : Type ℓ} → ℕ → ℕ → List A → Option (List A)
slice start end' xs =
    if leb start end' && leb end' (length xs)
    then some (take (end' - start) (drop start xs))
    else none

unfoldable pub set_disks : ClusterConfig → ℕ → Option (List DiskAddr)
unfolding all_disks slice
set_disks c i =
    slice (i * c.set_drive_count) (i * c.set_drive_count + c.set_drive_count) (all_disks c)

unfoldable pub mem_id : ℕ → List ℕ → Bool
mem_id x [] = false
mem_id x (y ∷ ys) = y == x || mem_id x ys

-- The loop of `set_node_ids` over the disks, with the ids seen so far.
unfoldable pub unique_ids : List ℕ → List DiskAddr → List ℕ
unfolding mem_id
unique_ids seen [] = []
unique_ids seen (d ∷ ds) =
    let old = unique_ids seen ds in
    let new = d.node_id ∷ unique_ids (d.node_id ∷ seen) ds in
    if mem_id d.node_id seen then old else new

unfoldable pub node_ids_of : Option (List DiskAddr) → Option (List ℕ)
node_ids_of none = none
node_ids_of (some ds) = some (unique_ids [] ds)

unfoldable pub set_node_ids : ClusterConfig → ℕ → Option (List ℕ)
unfolding set_disks unique_ids node_ids_of
set_node_ids c i = node_ids_of (set_disks c i)

module _ (hash : String → String → ℕ) where
  unfoldable pub set_index_for : ClusterConfig → String → String → ℕ
  unfolding num_sets
  set_index_for c bucket key = hash bucket key % max (num_sets c) 1

  unfoldable pub disks_for : ClusterConfig → String → String → Option (List DiskAddr)
  unfolding set_index_for set_disks
  disks_for c bucket key = set_disks c (set_index_for c bucket key)

unfoldable pub write_quorum : ClusterConfig → ℕ
write_quorum c = c.set_drive_count

unfoldable pub read_quorum : ClusterConfig → ℕ
read_quorum c = 1
