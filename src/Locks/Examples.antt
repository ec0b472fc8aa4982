-- ===== src/Locks/Examples.antt =====
-- Runs of the lock on three nodes.
use mathlib.Core.Bool.{false≢true}
use openlake.Prelude.{
  ℕ, zero, suc, ◌≤◌, ◌<◌, String, ◌≡◌, ◌≢◌, refl, false, some, List, [], ◌∷◌, count, All, arith,
  string_eq,
}
use openlake.Prelude.Maps.{get, insert}
use openlake.Locks.Server.{LockServer, acquire}
use openlake.Locks.Server.Keeps.{acquires, serve, holds_since}
use openlake.Locks.Client.{
  Schedule, delivered, lost_request, Attempt, pending, fan_out, votes, acquire_lock, quorum_of,
  call,
}
use openlake.Locks.Client.Held.{acquire_lock-held, acquire_lock_ends}
use openlake.Locks.Exclusion.{Peer, Event, IsQuiet, run, deliver, winner_count, exclusive}
use openlake.Locks.Refresh.{LockGuard, Beat}

abbrev node : LockServer
node = record { locks = []; validity = 60 }

abbrev nodes : List LockServer
nodes = node ∷ node ∷ node ∷ []

abbrev taken : LockServer
taken = record { locks = ("k", record { uid = "u1"; last_refresh = 10 }) ∷ []; validity = 60 }

abbrev clean : Peer
clean = record { server = node; winners = [] }

abbrev event : ℕ → ℕ → String → Event
event i now u = record { peer = i; at = now; request = acquires "k" u }

abbrev trace : List Event
trace = event 0 10 "u1" ∷ event 1 11 "u2" ∷ event 2 12 "u1" ∷ event 1 13 "u1" ∷ []

quiet :
    (u : String) (i now : ℕ) (v : String)
    → 10 ≤ now
    → now < 70
    → IsQuiet "k" u 10 60 (event i now v)
quiet u i now v a b = record { started = a; before = b; foreign = tt }

IsQuiet-trace : (u : String) → All (IsQuiet "k" u 10 60) trace
IsQuiet-trace u = (
  quiet u 0 10 "u1" (omega arith) (omega arith),
  (
    quiet u 1 11 "u2" (omega arith) (omega arith),
    (
      quiet u 2 12 "u1" (omega arith) (omega arith),
      (quiet u 1 13 "u1" (omega arith) (omega arith), tt),
    ),
  ),
)

abbrev peers : List Peer
peers = clean ∷ clean ∷ clean ∷ []

u1_wins : winner_count "u1" (run "k" trace peers) ≡ 2
unfolding winner_count run deliver serve acquire get insert
u1_wins = refl

exclusive_example : winner_count "u2" (run "k" trace peers) < quorum_of 3
exclusive_example =
    exclusive "k" "u1" "u2" 10 60 trace peers (λ e. false≢true ((string_eq.beq_iff "u1" "u2").1 e))
      (IsQuiet-trace "u1") (IsQuiet-trace "u2") ((refl, refl), ((refl, refl), ((refl, refl), tt)))
      (rw u1_wins (unfold quorum_of in omega arith))

-- Node 1 cannot be reached.
abbrev sends : Schedule
sends zero = record { delivery = delivered; at = 20 }
sends (suc zero) = record { delivery = lost_request; at = 20 }
sends (suc (suc i)) = record { delivery = delivered; at = 20 }

abbrev reaches_all : Schedule
reaches_all i = record { delivery = delivered; at = 20 }

sends-IsSince : (i : ℕ) → 10 ≤ (sends i).at
sends-IsSince zero = omega arith
sends-IsSince (suc zero) = omega arith
sends-IsSince (suc (suc i)) = omega arith

abbrev attempt : Attempt
attempt = record { uid = "u1"; vote = sends; undo = sends; done_at = 30 }

acquire_lock-held_example :
    2 ≤ count (holds_since "k" "u1" 10) (acquire_lock 2 "k" 25 (attempt ∷ []) nodes).0
unfolding acquire_lock votes fan_out call acquire get insert
acquire_lock-held_example =
    acquire_lock-held 2 "k" "u1" 10 25 (attempt ∷ []) nodes (sends-IsSince, tt) refl

acquire_lock_ends_example :
    (acquire_lock 2 "k" 25 (attempt ∷ []) (taken ∷ taken ∷ node ∷ [])).1 ≢ pending
acquire_lock_ends_example =
    acquire_lock_ends 2 "k" 25 (attempt ∷ []) (taken ∷ taken ∷ node ∷ []) refl

abbrev guard_u2 : LockGuard
guard_u2 = record { resource = some "k"; stop = false; lost = false }

-- No ping arrives in the first beat; all do in the second.
abbrev reaches_none : Schedule
reaches_none i = record { delivery = lost_request; at = 20 }

abbrev deaf_beat : Beat
deaf_beat = record { stop_before = false; stop_after = false; pings = reaches_none }

abbrev beat : Beat
beat = record { stop_before = false; stop_after = false; pings = reaches_all }
