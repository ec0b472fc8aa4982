-- ===== src/Locks/Client.antt =====
-- crates/openlake_storage/src/dsync.rs: `DsyncClient::acquire`, the refresh task and the guard.
-- What the network and the clock do to each message is a schedule: a request or its reply may be
-- lost (the peer's call then returns an error), and each request is served at its own time.
pub mod Held
use openlake.Prelude.{
  ℕ, suc, ◌+◌, ◌-◌, ◌/◌, String, Bool, true, false, List, [], ◌∷◌, length, count, map, ltb, leb,
  if◌then◌else◌,
}
use openlake.Locks.Server.{LockServer, acquire, refresh, release}

pub data Delivery : Type 0 where
  delivered lost_request lost_reply : Delivery

pub record Message : Type 0 where
  pub delivery : Delivery
  pub at : ℕ

-- What message `i` of a fan-out meets.
abbrev pub Schedule : Type 0
Schedule = ℕ → Message

-- `IoResult<bool>`: `Ok(true)`, `Ok(false)` and `Err`.
pub data Reply : Type 0 where
  granted denied failed : Reply

abbrev pub is_granted : Reply → Bool
is_granted granted = true
is_granted denied = false
is_granted failed = false

abbrev pub is_denied : Reply → Bool
is_denied granted = false
is_denied denied = true
is_denied failed = false

abbrev pub reply_of : Bool → Reply
reply_of true = granted
reply_of false = denied

-- One remote call: `serve` runs at the peer unless the request is lost.
unfoldable pub call :
    (LockServer → ℕ → LockServer × Bool) → Message → LockServer → LockServer × Reply
call serve m s =
    let served = serve s m.at in
    elim m.delivery [
      | delivered ↦ (served.0, reply_of served.1)
      | lost_request ↦ (s, failed)
      | lost_reply ↦ (served.0, failed)
    ]

-- `join_all` over the peers, the first of which has the index `i`.
unfoldable pub fan_out :
    (LockServer → ℕ → LockServer × Bool)
    → Schedule
    → ℕ
    → List LockServer
    → List (LockServer × Reply)
unfolding call
fan_out serve sch i [] = []
fan_out serve sch i (s ∷ ss) = call serve (sch i) s ∷ fan_out serve sch (suc i) ss

abbrev pub servers : List (LockServer × Reply) → List LockServer
servers = map (λ x. x.0)

abbrev pub grants : List (LockServer × Reply) → ℕ
grants = count (λ x. is_granted x.1)

-- `peers.len() / 2 + 1`
unfoldable pub quorum_of : ℕ → ℕ
quorum_of n = n / 2 + 1

unfoldable pub votes : Schedule → String → String → List LockServer → List (LockServer × Reply)
unfolding fan_out
votes sch resource uid peers = fan_out (λ s now. acquire s now resource uid) sch 0 peers

-- The request of a release; its `IoResult<()>` is ignored.
abbrev pub release_request : String → String → LockServer → ℕ → LockServer × Bool
release_request resource uid s now = (release s resource uid, true)

-- Releases the stray grants, one peer after the other.
unfoldable pub release_granted :
    Schedule → String → String → ℕ → List (LockServer × Reply) → List LockServer
unfolding call
release_granted sch resource uid i [] = []
release_granted sch resource uid i ((s, r) ∷ rest) =
    (if is_granted r then (call (release_request resource uid) (sch i) s).0 else s)
    ∷ release_granted sch resource uid (suc i) rest

-- One round of the loop: the fresh uid, the messages, and the time of the deadline test.
pub record Attempt : Type 0 where
  pub uid : String
  pub vote : Schedule
  pub undo : Schedule
  pub done_at : ℕ

-- `held` carries the guard's uid; `timed_out` is `LockTimeout`; `pending` says that the schedule
-- ends before the loop does.
pub data Outcome : Type 0 where
  held : String → Outcome
  timed_out pending : Outcome

-- The loop of `acquire`. What other clients do to the nodes in the meantime is not in it.
unfoldable pub acquire_lock :
    (quorum : ℕ)
    → String
    → (deadline : ℕ) → List Attempt
    → List LockServer
    → List LockServer × Outcome
unfolding votes release_granted
acquire_lock quorum resource deadline [] peers = (peers, pending)
acquire_lock quorum resource deadline (a ∷ rest) peers =
    let results = votes a.vote resource a.uid peers in
    let undone = release_granted a.undo resource a.uid 0 results in
    let again = acquire_lock quorum resource deadline rest undone in
    if leb quorum (grants results)
    then (servers results, held a.uid)
    else if leb deadline a.done_at
    then (undone, timed_out)
    else again

-- One round of the refresh task: the peers after it, and whether the lock is lost.
unfoldable pub refresh_round :
    (quorum : ℕ) → Schedule → String → String → List LockServer → List (LockServer × Reply) × Bool
unfolding fan_out
refresh_round quorum sch resource uid peers =
    let results = fan_out (λ s now. refresh s now resource uid) sch 0 peers in
    (results, ltb (length peers - quorum) (count (λ x. is_denied x.1) results))
