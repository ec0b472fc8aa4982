-- ===== src/Locks/Server.antt =====
-- crates/openlake_server/src/lock_server.rs: the votes of one node. The mutex makes each method
-- one step; `Instant::now()` is the argument `now`.
pub mod Keeps
use openlake.Prelude.{
  ℕ, ◌-◌, String, Bool, true, false, Option, none, some, List, [], ◌∷◌, length, Eq, ltb,
  if◌then◌else◌, string_eq,
}
use openlake.Prelude.Maps.{get, insert, remove}

pub record LockEntry : Type 0 where
  pub uid : String
  pub last_refresh : ℕ

pub record LockServer : Type 0 where
  pub locks : List (String × LockEntry)
  pub validity : ℕ

-- `now.saturating_duration_since(e.last_refresh) < self.validity`
abbrev pub is_live : ℕ → ℕ → LockEntry → Bool
is_live validity now e = ltb (now - e.last_refresh) validity

abbrev pub is_held : ℕ → ℕ → Option LockEntry → Bool
is_held validity now none = false
is_held validity now (some e) = is_live validity now e

abbrev pub is_owner : String → Option LockEntry → Bool
is_owner uid none = false
is_owner uid (some e) = string_eq.beq e.uid uid

unfoldable pub acquire : LockServer → ℕ → String → String → LockServer × Bool
acquire s now resource uid = if is_held s.validity now (get resource s.locks) then (s, false) else (
  record s { locks = insert resource (record { uid = uid; last_refresh = now }) s.locks },
  true,
)

unfoldable pub refresh : LockServer → ℕ → String → String → LockServer × Bool
refresh s now resource uid =
    if is_owner uid (get resource s.locks)
    then (
      record s { locks = insert resource (record { uid = uid; last_refresh = now }) s.locks },
      true,
    )
    else (s, false)

unfoldable pub release : LockServer → String → String → LockServer
release s resource uid =
    if is_owner uid (get resource s.locks) then record s { locks = remove resource s.locks } else s

-- `HashMap::retain` of the entries within validity.
unfoldable pub retain : ℕ → ℕ → List (String × LockEntry) → List (String × LockEntry)
retain validity now [] = []
retain validity now ((r, e) ∷ m) =
    let rest = retain validity now m in if is_live validity now e then (r, e) ∷ rest else rest

unfoldable pub expire_old : LockServer → ℕ → LockServer × ℕ
unfolding retain
expire_old s now =
    let kept = retain s.validity now s.locks in
    (record s { locks = kept }, length s.locks - length kept)
