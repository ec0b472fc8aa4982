-- ===== src/Locks/Exclusion.antt =====
-- Two coordinators and a majority: the pigeonhole on which crates/openlake_storage/src/dsync.rs
-- rests, over every interleaving of the requests of all clients.
use openlake.Prelude.{
  ℕ, zero, suc, ◌+◌, ◌≤◌, ◌<◌, String, ◌≡◌, ◌≢◌, refl, ◌∙◌, Bool, true, false, Option, none, some,
  List, [], ◌∷◌, length, count, All, arith, if◌then◌else◌, string_eq, ◌||◌, ◌&&◌, ◌⊎◌, inl, inr, ap,
}
use openlake.Prelude.Maps.{get}
use openlake.Locks.Server.{LockServer, LockEntry, acquire}
use openlake.Locks.Server.Keeps.{
  Request, acquires, refreshes, releases, sweeps, serve, holds_since, entry_since, IsForeign,
  serve-holds_since, validity-serve, acquire-holds,
}
use openlake.Locks.Client.{quorum_of}

-- A node beside the clients that it has granted `resource`, since the trace began.
pub record Peer : Type 0 where
  pub server : LockServer
  pub winners : List String

pub record Event : Type 0 where
  pub peer : ℕ
  pub at : ℕ
  pub request : Request

abbrev pub has : String → List String → Bool
has u [] = false
has u (w ∷ ws) = string_eq.beq w u || has u ws

-- The uid that a request wins `resource` for, put before the earlier ones.
unfoldable pub won : String → LockServer → ℕ → Request → List String → List String
won resource s now (acquires r u) ws =
    if string_eq.beq r resource && (acquire s now r u).1 then u ∷ ws else ws
won resource s now (refreshes r u) ws = ws
won resource s now (releases r u) ws = ws
won resource s now sweeps ws = ws

-- One event: the peer serves the request.
unfoldable pub deliver : String → List Peer → ℕ → ℕ → Request → List Peer
unfolding won
deliver resource [] i now q = []
deliver resource (p ∷ ps) zero now q =
    record { server = serve p.server now q; winners = won resource p.server now q p.winners } ∷ ps
deliver resource (p ∷ ps) (suc i) now q = p ∷ deliver resource ps i now q

unfoldable pub run : String → List Event → List Peer → List Peer
run resource [] ps = ps
run resource (e ∷ es) ps = run resource es (deliver resource ps e.peer e.at e.request)

-- The event lies in the window, and does not give `u`'s lock away.
pub record IsQuiet (r u : String) (t validity : ℕ) (e : Event) : Type 0 where
  pub started : t ≤ e.at
  pub before : e.at < t + validity
  pub foreign : IsForeign r u e.request

-- Who has won still holds.
pub record Keeps (r u : String) (t validity : ℕ) (p : Peer) : Type 0 where
  pub lease : p.server.validity ≡ validity
  pub holds : has u p.winners ≡ true → holds_since r u t p.server ≡ true

has-won :
    (r u j v : String) (s : LockServer) (now : ℕ) (ws : List String)
    → has u (won r s now (acquires j v) ws) ≡ true
    → (has u ws ≡ true) ⊎ ((j ≡ r) × (v ≡ u) × ((acquire s now r u).1 ≡ true))
unfolding won
has-won r u j v s now ws g = ground (arith, string_eq.beq_iff j r, string_eq.beq_iff v u)

module _ (r u : String) (t validity : ℕ) where
  won-holds :
      (s : LockServer) (now : ℕ) (q : Request) (ws : List String)
      → t ≤ now
      → now < t + s.validity
      → IsForeign r u q
      → (has u ws ≡ true → holds_since r u t s ≡ true)
      → has u (won r s now q ws) ≡ true
      → holds_since r u t (serve s now q) ≡ true
  unfolding won serve
  won-holds s now (acquires j v) ws le lt f h g = elim (has-won r u j v s now ws g) [
    | inl old ↦ serve-holds_since r u t now s (acquires j v) lt f le (h old)
    | inr (er, eu, w) ↦ rw (er, eu) (acquire-holds r u t now s le w)
  ]
  won-holds s now (refreshes j v) ws le lt f h g =
      serve-holds_since r u t now s (refreshes j v) lt f le (h g)
  won-holds s now (releases j v) ws le lt f h g =
      serve-holds_since r u t now s (releases j v) lt f le (h g)
  won-holds s now sweeps ws le lt f h g = serve-holds_since r u t now s sweeps lt f le (h g)

  deliver-Keeps :
      (ps : List Peer) (i now : ℕ) (q : Request)
      → t ≤ now
      → now < t + validity
      → IsForeign r u q
      → All (Keeps r u t validity) ps
      → All (Keeps r u t validity) (deliver r ps i now q)
  unfolding deliver
  deliver-Keeps [] i now q le lt f k = tt
  deliver-Keeps (p ∷ ps) zero now q le lt f (k, ks) = (
    record {
      lease = validity-serve p.server now q ∙ k.lease;
      holds = won-holds p.server now q p.winners le (omega (arith, k.lease)) f k.holds;
    },
    ks,
  )
  deliver-Keeps (p ∷ ps) (suc i) now q le lt f (k, ks) = (k, deliver-Keeps ps i now q le lt f ks)

  run-Keeps :
      (es : List Event) (ps : List Peer)
      → All (IsQuiet r u t validity) es
      → All (Keeps r u t validity) ps
      → All (Keeps r u t validity) (run r es ps)
  unfolding run
  run-Keeps [] ps qs k = k
  run-Keeps (e ∷ es) ps (q, qs) k =
      run-Keeps es (deliver r ps e.peer e.at e.request) qs
        (deliver-Keeps ps e.peer e.at e.request q.started q.before q.foreign k)

length-deliver :
    (r : String) (ps : List Peer) (i now : ℕ) (q : Request)
    → length (deliver r ps i now q) ≡ length ps
unfolding deliver
length-deliver r [] i now q = refl
length-deliver r (p ∷ ps) zero now q = refl
length-deliver r (p ∷ ps) (suc i) now q = ap suc (length-deliver r ps i now q)

length-run : (r : String) (es : List Event) (ps : List Peer) → length (run r es ps) ≡ length ps
unfolding run
length-run r [] ps = refl
length-run r (e ∷ es) ps =
    length-run r es (deliver r ps e.peer e.at e.request) ∙ length-deliver r ps e.peer e.at e.request

-- A fresh node: no one has won anything, and its lease is `validity`.
abbrev pub Fresh : ℕ → Peer → Type 0
Fresh validity p = (p.server.validity ≡ validity) × (p.winners ≡ [])

Fresh-Keeps :
    (r u : String) (t validity : ℕ) (ps : List Peer)
    → All (Fresh validity) ps
    → All (Keeps r u t validity) ps
Fresh-Keeps r u t validity [] f = tt
Fresh-Keeps r u t validity (p ∷ ps) (f, fs) =
    (record { lease = f.0; holds = λ h. cc (f.1, h) }, Fresh-Keeps r u t validity ps fs)

holds_one :
    (r u v : String) (t : ℕ) (o : LockServer)
    → holds_since r u t o ≡ true
    → holds_since r v t o ≡ true
    → u ≡ v
holds_one r u v t o h g = one (get r o.locks) h g
  where
    one : (x : Option LockEntry) → entry_since u t x ≡ true → entry_since v t x ≡ true → u ≡ v
    one none a b = ground arith
    one (some e) a b = ground (arith, string_eq.beq_iff e.uid u, string_eq.beq_iff e.uid v)

unfoldable pub winner_count : String → List Peer → ℕ
winner_count u = count λ p. has u p.winners

-- No node grants the resource to both.
winners-le-length :
    (r u v : String) (t validity : ℕ) (ps : List Peer)
    → u ≢ v
    → All (Keeps r u t validity) ps
    → All (Keeps r v t validity) ps
    → winner_count u ps + winner_count v ps ≤ length ps
unfolding winner_count
winners-le-length r u v t validity [] ne k l = omega arith
winners-le-length r u v t validity (p ∷ ps) ne (k, ks) (l, ls) = ground (
  arith,
  k.holds,
  l.holds,
  holds_one r u v t p.server,
  winners-le-length r u v t validity ps ne ks ls,
)

-- While no lease of the window runs out and neither of two uids releases, at most one of them wins a
-- majority of the nodes: in any trace of requests to fresh nodes, all served within `validity` of
-- `t`, if `u` has won `quorum_of` the nodes then another uid `v` has won fewer.
pub exclusive :
    (r u v : String) (t validity : ℕ) (es : List Event) (ps : List Peer)
    → u ≢ v
    → All (IsQuiet r u t validity) es
    → All (IsQuiet r v t validity) es
    → All (Fresh validity) ps
    → quorum_of (length ps) ≤ winner_count u (run r es ps)
    → winner_count v (run r es ps) < quorum_of (length ps)
unfolding quorum_of
exclusive r u v t validity es ps ne qu qv f most = omega (
  arith,
  length-run r es ps,
  winners-le-length r u v t validity (run r es ps) ne
      (run-Keeps r u t validity es ps qu (Fresh-Keeps r u t validity ps f))
      (run-Keeps r v t validity es ps qv (Fresh-Keeps r v t validity ps f)),
)
