-- ===== src/Locks/Server/Keeps.antt =====
-- What no request of another holder changes at one node.
use openlake.Prelude.{
  ℕ, ◌+◌, ◌≤◌, ◌<◌, String, ◌≡◌, ◌≢◌, refl, Bool, true, false, Option, none, some, List, [], ◌∷◌,
  arith, leb, string_eq, ◌&&◌,
}
use openlake.Prelude.Maps.{get, get-insert, get-remove}
use openlake.Locks.Server.{
  LockEntry, LockServer, is_live, is_owner, acquire, refresh, release, retain, expire_old,
}

-- The requests that a node serves, and the sweeper.
pub data Request : Type 0 where
  acquires refreshes releases : String → String → Request
  sweeps : Request

unfoldable pub serve : LockServer → ℕ → Request → LockServer
serve s now (acquires resource uid) = (acquire s now resource uid).0
serve s now (refreshes resource uid) = (refresh s now resource uid).0
serve s now (releases resource uid) = release s resource uid
serve s now sweeps = (expire_old s now).0

abbrev pub entry_since : String → ℕ → Option LockEntry → Bool
entry_since uid t none = false
entry_since uid t (some e) = string_eq.beq e.uid uid && leb t e.last_refresh

-- The node holds `resource` for `uid`, stamped at `t` or later.
abbrev pub holds_since : String → String → ℕ → LockServer → Bool
holds_since resource uid t s = entry_since uid t (get resource s.locks)

-- The request takes nothing from `uid`: it is no release of its own.
abbrev pub IsForeign : String → String → Request → Type 0
IsForeign resource uid (releases r u) = (r ≡ resource) → u ≢ uid
IsForeign resource uid (acquires r u) = Unit
IsForeign resource uid (refreshes r u) = Unit
IsForeign resource uid sweeps = Unit

get-retain :
    (validity now : ℕ) (r : String) (m : List (String × LockEntry)) (e : LockEntry)
    → get r m ≡ some e
    → is_live validity now e ≡ true
    → get r (retain validity now m) ≡ some e
unfolding get retain
get-retain validity now r [] e g l = ground arith
get-retain validity now r ((j, f) ∷ m) e g l =
    ground (arith, get-retain validity now r m e, string_eq.beq_iff j r)

owner_same :
    (u v : String) (t : ℕ) (o : Option LockEntry)
    → entry_since u t o ≡ true
    → is_owner v o ≡ true
    → u ≡ v
owner_same u v t none g h = ground arith
owner_same u v t (some e) g h = ground (arith, string_eq.beq_iff e.uid u, string_eq.beq_iff e.uid v)

retained :
    (r u : String) (t now : ℕ) (s : LockServer) (o : Option LockEntry)
    → get r s.locks ≡ o
    → now < t + s.validity
    → t ≤ now
    → entry_since u t o ≡ true
    → entry_since u t (get r (retain s.validity now s.locks)) ≡ true
retained r u t now s none e h le g = ground arith
retained r u t now s (some x) e h le g = ground (arith, get-retain s.validity now r s.locks x)

-- Whatever other holders ask before `t + validity`, the node goes on holding the resource.
pub serve-holds_since :
    (r u : String) (t now : ℕ) (s : LockServer) (q : Request)
    → now < t + s.validity
    → IsForeign r u q
    → t ≤ now
    → holds_since r u t s ≡ true
    → holds_since r u t (serve s now q) ≡ true
unfolding serve acquire refresh release expire_old
serve-holds_since r u t now s (acquires j v) h f le g =
    ground (
      arith,
      string_eq.beq_iff j r,
      get-insert j r (record { uid = v; last_refresh = now }) s.locks,
    )
serve-holds_since r u t now s (refreshes j v) h f le g = ground (
  arith,
  string_eq.beq_iff j r,
  string_eq.beq_iff v u,
  owner_same u v t (get j s.locks),
  get-insert j r (record { uid = v; last_refresh = now }) s.locks,
)
serve-holds_since r u t now s (releases j v) h f le g =
    ground (arith, string_eq.beq_iff j r, owner_same u v t (get j s.locks), get-remove j r s.locks)
serve-holds_since r u t now s sweeps h f le g = retained r u t now s (get r s.locks) refl h le g

pub validity-serve :
    (s : LockServer) (now : ℕ) (q : Request) → (serve s now q).validity ≡ s.validity
unfolding serve acquire refresh release expire_old
validity-serve s now (acquires j v) = ground arith
validity-serve s now (refreshes j v) = ground arith
validity-serve s now (releases j v) = ground arith
validity-serve s now sweeps = refl

-- While the node holds the resource for `u`, it denies every acquire and changes nothing.
pub acquire-denied :
    (r u v : String) (t now : ℕ) (s : LockServer)
    → now < t + s.validity
    → t ≤ now
    → holds_since r u t s ≡ true
    → acquire s now r v ≡ (s, false)
unfolding acquire
acquire-denied r u v t now s h le g = ground arith

-- A granted acquire leaves the node holding the resource for the caller.
pub acquire-holds :
    (r u : String) (t now : ℕ) (s : LockServer)
    → t ≤ now
    → (acquire s now r u).1 ≡ true
    → holds_since r u t (acquire s now r u).0 ≡ true
unfolding acquire
acquire-holds r u t now s le g = ground (
  arith,
  string_eq.beq_iff r r,
  string_eq.beq_iff u u,
  get-insert r r (record { uid = u; last_refresh = now }) s.locks,
)
