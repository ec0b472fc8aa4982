-- ===== src/Cluster/Routing.antt =====
-- Every object is routed to one whole set, and the sets do not overlap.
use native.Mathlib.Nat.{mod-lt, zero-lt-suc, mul-le-mul_right, le-div_iff_mul-le}
use openlake.Prelude.{
  ℕ, zero, suc, ◌+◌, ◌-◌, ◌*◌, ◌/◌, ◌%◌, ◌≤◌, ◌<◌, String, ◌≡◌, ◌≢◌, refl, ap, ◌∙◌, true, ◌&&◌,
  Option, none, some, List, [], ◌∷◌, length, length-append, length-take, length-drop, take, drop,
  get_elem?, max, arith, ◌==◌, leb, if◌then◌else◌,
}
use openlake.Cluster.Topology.{
  DiskAddr, NodeAddr, ClusterConfig, total_of, total_disks, num_sets, node_disks, disks_of,
  all_disks, slice, set_disks, set_index_for, disks_for, write_quorum,
}

length-node_disks : (id d k : ℕ) → length (node_disks id d k) ≡ k
unfolding node_disks
length-node_disks id d zero = refl
length-node_disks id d (suc k) = ap suc (length-node_disks id (suc d) k)

length-disks_of : (ns : List NodeAddr) → length (disks_of ns) ≡ total_of ns
unfolding disks_of total_of
length-disks_of [] = refl
length-disks_of (n ∷ ns) = omega (
  arith,
  length-append (node_disks n.id 0 n.disk_count) (disks_of ns),
  length-node_disks n.id 0 n.disk_count,
  length-disks_of ns,
)

get_elem?-take {ℓ} :
    {A : Type ℓ} (n : ℕ) (xs : List A) (j : ℕ) → j < n → get_elem? (take n xs) j ≡ get_elem? xs j
get_elem?-take zero xs j h = absurd (omega (arith, h))
get_elem?-take (suc n) [] j h = refl
get_elem?-take (suc n) (x ∷ xs) zero h = refl
get_elem?-take (suc n) (x ∷ xs) (suc j) h = get_elem?-take n xs j (omega arith)

get_elem?-drop {ℓ} :
    {A : Type ℓ} (n : ℕ) (xs : List A) (j : ℕ) → get_elem? (drop n xs) j ≡ get_elem? xs (n + j)
get_elem?-drop zero xs j = ap (get_elem? xs) (omega arith)
get_elem?-drop (suc n) [] j = refl
get_elem?-drop (suc n) (x ∷ xs) j =
    let e : suc (n + j) ≡ suc n + j = omega arith in
    get_elem?-drop n xs j ∙ ap (get_elem? (x ∷ xs)) e

fits {ℓ} :
    {B : Type ℓ} (start k n : ℕ) (b : Option B)
    → start + k ≤ n
    → (if leb start (start + k) && leb (start + k) n then b else none) ≡ b
fits start k n b h = rw (low, high)
  where
    low : leb start (start + k) ≡ true
    low = ground arith

    high : leb (start + k) n ≡ true
    high = ground arith

slice_lem {ℓ} :
    {A : Type ℓ} (start k : ℕ) (xs : List A)
    → start + k ≤ length xs
    → (ys : List A) × (slice start (start + k) xs ≡ some ys)
      × (length ys ≡ k)
      × ((j : ℕ) → j < k → get_elem? ys j ≡ get_elem? xs (start + j))
unfolding slice
slice_lem start k xs h = (
  take (start + k - start) (drop start xs),
  fits start k (length xs) _ h,
  omega (arith, length-take (start + k - start) (drop start xs), length-drop start xs),
  λ j hj.
      get_elem?-take (start + k - start) (drop start xs) j (omega arith)
      ∙ get_elem?-drop start xs j,
)

set_fits : (i total s : ℕ) → i < total / s → i * s + s ≤ total
set_fits i total zero h = omega arith
set_fits i total (suc s) h = omega (arith, (le-div_iff_mul-le (zero-lt-suc s)).0 h)

sets_lem : (total s i : ℕ) → i < (if total == 0 then 0 else total / s) → i < total / s
sets_lem total s i h = ground arith

set_disks_room :
    (c : ClusterConfig) (i : ℕ)
    → i < num_sets c
    → i * c.set_drive_count + c.set_drive_count ≤ length (all_disks c)
unfolding num_sets total_disks all_disks
set_disks_room c i h = omega (
  arith,
  length-disks_of c.nodes,
  set_fits i (total_of c.nodes) c.set_drive_count
      (sets_lem (total_of c.nodes) c.set_drive_count i h),
)

-- The disks of a set below `num_sets` are there: `set_drive_count` of them, and the disk in slot `j`
-- of set `i` is number `i * set_drive_count + j` of the flat list.
pub set_disks_lem :
    (c : ClusterConfig) (i : ℕ)
    → i < num_sets c
    → (ds : List DiskAddr) × (set_disks c i ≡ some ds)
      × (length ds ≡ c.set_drive_count)
      × ((j : ℕ)
          → j < c.set_drive_count
          → get_elem? ds j ≡ get_elem? (all_disks c) (i * c.set_drive_count + j))
unfolding set_disks
set_disks_lem c i h =
    slice_lem (i * c.set_drive_count) c.set_drive_count (all_disks c) (set_disks_room c i h)

-- In a cluster with at least one whole set, every object is routed to `set_drive_count` disks, which
-- are those of one set below `num_sets`.
pub disks_for_total :
    (hash : String → String → ℕ) (c : ClusterConfig) (bucket key : String)
    → 0 < num_sets c
    → (set_index_for hash c bucket key < num_sets c)
      × (ds : List DiskAddr) × (disks_for hash c bucket key ≡ some ds)
      × (length ds ≡ write_quorum c)
unfolding disks_for set_index_for write_quorum
disks_for_total hash c bucket key h =
    let below : hash bucket key % max (num_sets c) 1 < num_sets c =
      omega (arith, mod-lt (hash bucket key) {m = max (num_sets c) 1} (omega (arith, h))) in
    let (ds, e, l, _) = set_disks_lem c (hash bucket key % max (num_sets c) 1) below in
    (below, ds, e, l)

apart : (s i j a b : ℕ) → i < j → a < s → i * s + a < j * s + b
apart s i j a b h ha = omega (arith, mul-le-mul_right s h)

-- Slots of two different sets are different disks of the flat list.
pub sets_disjoint :
    (c : ClusterConfig) (i j a b : ℕ)
    → i ≢ j
    → a < c.set_drive_count
    → b < c.set_drive_count
    → i * c.set_drive_count + a ≢ j * c.set_drive_count + b
sets_disjoint c i j a b ne ha hb =
    let below : i < j → i * c.set_drive_count + a ≢ j * c.set_drive_count + b =
      λ h e. omega (arith, e, apart c.set_drive_count i j a b h ha) in
    let above : j < i → i * c.set_drive_count + a ≢ j * c.set_drive_count + b =
      λ h e. omega (arith, e, apart c.set_drive_count j i b a h hb) in
    ground arith
