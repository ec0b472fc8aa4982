-- ===== src/Locks/Refresh.antt =====
-- crates/openlake_storage/src/dsync.rs: the guard of a held lock and its refresh task.
use openlake.Prelude.{
  ℕ, suc, ◌+◌, ◌≤◌, String, ◌≡◌, Bool, true, false, not, Option, none, some, List, [], ◌∷◌, length,
  count, All, arith, if◌then◌else◌, string_eq, refl,
}
use openlake.Prelude.Maps.{get, get-insert}
use openlake.Errors.{Result, ok, err, StorageError, lock_lost}
use openlake.Locks.Server.{LockServer, refresh, is_owner}
use openlake.Locks.Server.Keeps.{holds_since}
use openlake.Locks.Client.{
  Schedule, Message, Reply, delivered, is_denied, fan_out, servers, refresh_round, call,
  release_request, quorum_of,
}
use openlake.Locks.Client.Held.{IsSince, IsClear, release-IsClear}

-- The two flags of `LockState`, and the resource that `take` empties on drop.
pub record LockGuard : Type 0 where
  pub resource : Option String
  pub stop : Bool
  pub lost : Bool

abbrev or_default : Option String → String
or_default none = ""
or_default (some s) = s

-- The fence that an operation passes before it commits.
unfoldable pub check : LockGuard → Result StorageError (Unit {0})
check g = if g.lost then err (lock_lost (or_default g.resource)) else ok tt

-- The release that the drop of a guard, or its loss, sends to every peer.
unfoldable pub release_all : Schedule → String → String → List LockServer → List LockServer
unfolding fan_out
release_all sch resource uid peers = servers (fan_out (release_request resource uid) sch 0 peers)

-- One beat of the task: what `stop` reads before and after the pings, and the messages.
pub record Beat : Type 0 where
  pub stop_before : Bool
  pub stop_after : Bool
  pub pings : Schedule

-- The guard and the peers as the task leaves them. `releasing` says that it has spawned the detached
-- releases, of which none is served yet: what they do is `release_all` of the peers.
pub record Refreshed : Type 0 where
  pub guard : LockGuard
  pub peers : List LockServer
  pub releasing : Bool

-- The task to the end of the schedule; it returns when the guard is dropped or the lock is lost. The
-- flag is stored, then the releases are spawned.
unfoldable pub refresh_task :
    (quorum : ℕ) (resource uid : String) → List Beat → LockGuard → List LockServer → Refreshed
unfolding refresh_round
refresh_task quorum resource uid [] g peers = record { guard = g; peers = peers; releasing = false }
refresh_task quorum resource uid (b ∷ beats) g peers =
    let (results, lost) = refresh_round quorum b.pings resource uid peers in
    let again = refresh_task quorum resource uid beats g (servers results) in
    if b.stop_before
    then record { guard = g; peers = peers; releasing = false }
    else if b.stop_after
    then record { guard = g; peers = servers results; releasing = false }
    else if lost
    then record { guard = record g { lost = true }; peers = servers results; releasing = true }
    else again

abbrev pub is_failed : Reply → Bool
is_failed Reply.granted = false
is_failed Reply.denied = false
is_failed Reply.failed = true

module _ (r u : String) (t : ℕ) where
  refresh-holds :
      (m : Message) (s : LockServer)
      → t ≤ m.at
      → (refresh s m.at r u).1 ≡ true
      → holds_since r u t (refresh s m.at r u).0 ≡ true
  unfolding refresh
  refresh-holds m s le g = ground (
    arith,
    string_eq.beq_iff r r,
    string_eq.beq_iff u u,
    get-insert r r (record { uid = u; last_refresh = m.at }) s.locks,
  )

  held_or_not :
      (sch : Schedule) (i : ℕ) (ss : List LockServer)
      → IsSince t sch
      → let xs = fan_out (λ s now. refresh s now r u) sch i ss in
        length ss
        ≤ count (holds_since r u t) (servers xs)
          + count (λ x. is_denied x.1) xs
          + count (λ x. is_failed x.1) xs
  unfolding fan_out call
  held_or_not sch i [] le = omega arith
  held_or_not sch i (s ∷ ss) le =
      ground (arith, refresh-holds (sch i) s (le i), held_or_not sch (suc i) ss le)

-- A round that does not lose the lock leaves it held: where `quorum` does not pass the number of
-- nodes and no ping is served before `t`, the nodes that hold the resource for `u`, stamped at `t` or
-- later, and those whose ping failed are together a quorum.
pub refresh_round-kept :
    (quorum : ℕ) (r u : String) (t : ℕ) (sch : Schedule) (ss : List LockServer)
    → quorum ≤ length ss
    → IsSince t sch
    → (refresh_round quorum sch r u ss).1 ≡ false
    → let xs = (refresh_round quorum sch r u ss).0 in
      quorum ≤ count (holds_since r u t) (servers xs) + count (λ x. is_failed x.1) xs
unfolding refresh_round
refresh_round-kept quorum r u t sch ss le since h = ground (arith, held_or_not r u t sch 0 ss since)

-- The node holds the resource for someone else, or for no one.
abbrev pub is_foreign : String → String → LockServer → Bool
is_foreign r u s = not (is_owner u (get r s.locks))

foreign-denied :
    (r u : String) (sch : Schedule) (i : ℕ) (ss : List LockServer)
    → ((k : ℕ) → (sch k).delivery ≡ delivered)
    → count (λ x. is_denied x.1) (fan_out (λ s now. refresh s now r u) sch i ss)
      ≡ count (is_foreign r u) ss
unfolding fan_out call refresh
foreign-denied r u sch i [] d = refl
foreign-denied r u sch i (s ∷ ss) d = ground (arith, d i, foreign-denied r u sch (suc i) ss d)

-- A takeover is noticed: where all pings and their replies arrive, the round reports the lock lost
-- as soon as a majority of the nodes does not hold the resource for `u`.
pub refresh_round-lost :
    (r u : String) (sch : Schedule) (ss : List LockServer)
    → ((k : ℕ) → (sch k).delivery ≡ delivered)
    → quorum_of (length ss) ≤ count (is_foreign r u) ss
    → (refresh_round (quorum_of (length ss)) sch r u ss).1 ≡ true
unfolding refresh_round quorum_of
refresh_round-lost r u sch ss d h = ground (arith, foreign-denied r u sch 0 ss d)

released :
    (r u : String) (sch : Schedule) (i : ℕ) (ss : List LockServer)
    → ((k : ℕ) → (sch k).delivery ≡ delivered)
    → All (IsClear r u) (servers (fan_out (release_request r u) sch i ss))
unfolding fan_out call
released r u sch i [] d = tt
released r u sch i (s ∷ ss) d =
    (ground (arith, d i, release-IsClear r u s), released r u sch (suc i) ss d)

-- Where all the releases arrive, no node holds the resource for `u` any more.
pub release_all-IsClear :
    (r u : String) (sch : Schedule) (ss : List LockServer)
    → ((k : ℕ) → (sch k).delivery ≡ delivered)
    → All (IsClear r u) (release_all sch r u ss)
unfolding release_all
release_all-IsClear r u sch ss d = released r u sch 0 ss d

-- The guard is not dropped during the beat.
pub record IsHeld (b : Beat) : Type 0 where
  pub before : b.stop_before ≡ false
  pub after : b.stop_after ≡ false

-- The guard is marked as lost, the fence refuses, and the releases are on their way.
abbrev pub IsMarked : LockGuard → Refreshed → Type 0
IsMarked g x =
    (x.guard.lost ≡ true)
    × (x.releasing ≡ true)
    × (check x.guard ≡ err (lock_lost (or_default g.resource)))
