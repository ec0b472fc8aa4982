-- ===== src/Locks/Client/Held.antt =====
-- What the outcome of `DsyncClient::acquire` says of the nodes.
use openlake.Prelude.{
  ℕ, suc, ◌≤◌, String, ◌≡◌, ◌≢◌, Bool, true, false, ◌||◌, List, [], ◌∷◌, count, All, arith, leb,
  if◌then◌else◌, string_eq,
}
use openlake.Prelude.Maps.{get, get-remove}
use openlake.Locks.Server.{LockServer, acquire, release, is_owner}
use openlake.Locks.Server.Keeps.{holds_since, acquire-holds}
use openlake.Locks.Client.{
  Schedule, Message, delivered, Reply, Attempt, held, pending, is_granted, fan_out, servers, grants,
  votes, release_granted, acquire_lock, call, release_request,
}

-- Every message of the schedule is served at `t` or later.
abbrev pub IsSince : ℕ → Schedule → Type 0
IsSince t sch = (i : ℕ) → t ≤ (sch i).at

module _ (r u : String) (t : ℕ) where
  call-holds :
      (m : Message) (s : LockServer)
      → t ≤ m.at
      → is_granted (call (λ s now. acquire s now r u) m s).1 ≡ true
      → holds_since r u t (call (λ s now. acquire s now r u) m s).0 ≡ true
  unfolding call
  call-holds m s le g = ground (arith, acquire-holds r u t m.at s le)

  grants-le-holds :
      (sch : Schedule) (i : ℕ) (ss : List LockServer)
      → IsSince t sch
      → grants (fan_out (λ s now. acquire s now r u) sch i ss)
        ≤ count (holds_since r u t) (servers (fan_out (λ s now. acquire s now r u) sch i ss))
  unfolding fan_out
  grants-le-holds sch i [] le = omega arith
  grants-le-holds sch i (s ∷ ss) le =
      ground (arith, call-holds (sch i) s (le i), grants-le-holds sch (suc i) ss le)

-- If `acquire` returns a guard for `u`, and no other client acts on the nodes in the meantime, then at
-- least a quorum of the nodes holds the resource for
-- `u`, stamped at `t` or later, where no vote was served before `t`.
pub acquire_lock-held :
    (quorum : ℕ) (r u : String) (t deadline : ℕ) (rounds : List Attempt) (ss : List LockServer)
    → All (λ a. IsSince t a.vote) rounds
    → (acquire_lock quorum r deadline rounds ss).1 ≡ held u
    → quorum ≤ count (holds_since r u t) (acquire_lock quorum r deadline rounds ss).0
unfolding acquire_lock votes
acquire_lock-held quorum r u t deadline [] ss le h = ground arith
acquire_lock-held quorum r u t deadline (a ∷ rest) ss (le, les) h = ground (
  arith,
  grants-le-holds r a.uid t a.vote 0 ss le,
  acquire_lock-held quorum r u t deadline rest
      (release_granted a.undo r a.uid 0 (votes a.vote r a.uid ss)) les,
)

-- The guard's uid is `u` at no node.
abbrev pub IsClear : String → String → LockServer → Type 0
IsClear r u s = is_owner u (get r s.locks) ≡ false

module _ (r u : String) where
  pub release-IsClear : (s : LockServer) → IsClear r u (release s r u)
  unfolding release
  release-IsClear s = ground (arith, get-remove r r s.locks, string_eq.beq_iff r r)

  -- A peer of a round whose messages all arrive, after its vote.
  IsVote : LockServer × Reply → Type 0
  IsVote x = (is_granted x.1 ≡ false) → IsClear r u x.0

  IsVote-call :
      (m : Message) (s : LockServer)
      → m.delivery ≡ delivered
      → IsClear r u s
      → IsVote (call (λ s now. acquire s now r u) m s)
  unfolding IsVote call acquire
  IsVote-call m s d c g = ground arith

  undo-IsClear :
      (undo : Schedule) (i : ℕ) (x : LockServer × Reply)
      → (undo i).delivery ≡ delivered
      → IsVote x
      → IsClear r u (if is_granted x.1 then (call (release_request r u) (undo i) x.0).0 else x.0)
  unfolding IsVote call
  undo-IsClear undo i x d v = ground (arith, release-IsClear x.0)

  round-IsClear :
      (sch undo : Schedule) (i : ℕ) (ss : List LockServer)
      → ((k : ℕ) → (sch k).delivery ≡ delivered)
      → ((k : ℕ) → (undo k).delivery ≡ delivered)
      → All (IsClear r u) ss
      → All
          (IsClear r u)
          (release_granted undo r u i (fan_out (λ s now. acquire s now r u) sch i ss))
  unfolding release_granted fan_out
  round-IsClear sch undo i [] d e c = tt
  round-IsClear sch undo i (s ∷ ss) d e (c, cs) = (
    undo-IsClear undo i (call (λ s now. acquire s now r u) (sch i) s) (e i)
        (IsVote-call (sch i) s (d i) c),
    round-IsClear sch undo (suc i) ss d e cs,
  )

-- A round that fails leaves no stray grant: if the votes and the releases all arrive, and no node
-- held the resource for the round's fresh uid before, then none does after the releases.
pub release_granted-IsClear :
    (r u : String) (sch undo : Schedule) (ss : List LockServer)
    → ((k : ℕ) → (sch k).delivery ≡ delivered)
    → ((k : ℕ) → (undo k).delivery ≡ delivered)
    → All (IsClear r u) ss
    → All (IsClear r u) (release_granted undo r u 0 (votes sch r u ss))
unfolding votes
release_granted-IsClear r u sch undo ss d e c = round-IsClear r u sch undo 0 ss d e c

-- Some round ends at the deadline or later.
abbrev pub reaches : ℕ → List Attempt → Bool
reaches deadline [] = false
reaches deadline (a ∷ rest) = leb deadline a.done_at || reaches deadline rest

-- The loop ends: once a round ends past the deadline, `acquire` returns a guard or `LockTimeout`.
pub acquire_lock_ends :
    (quorum : ℕ) (r : String) (deadline : ℕ) (rounds : List Attempt) (ss : List LockServer)
    → reaches deadline rounds ≡ true
    → (acquire_lock quorum r deadline rounds ss).1 ≢ pending
unfolding acquire_lock
acquire_lock_ends quorum r deadline [] ss h = ground arith
acquire_lock_ends quorum r deadline (a ∷ rest) ss h = ground (
  arith,
  acquire_lock_ends quorum r deadline rest
      (release_granted a.undo r a.uid 0 (votes a.vote r a.uid ss)),
)
