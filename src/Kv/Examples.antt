-- ===== src/Kv/Examples.antt =====
-- Runs of the slots: a pool of three, one of them free, one reserved and one bound.
use openlake.Prelude.{
  ℕ, zero, suc, ◌-◌, ◌≡◌, ◌≢◌, ◌<◌, ◌⊎◌, refl, true, false, none, some, List, [], ◌∷◌, ◌++◌, length,
  drop, arith, nat_eq, get_elem?,
}
use openlake.Prelude.Maps.{get, remove}
use openlake.Kv.Slots.{
  SlotPool, KeyHash, bytes_eq, reserve_slots, commit, lookup, release, touch, nil,
}
use openlake.Kv.Order.{del, pred_of, succ_of}
use openlake.Kv.Lru.{Links}
use openlake.Kv.Lru.Moves.{Relinks, SameRest, touch-Links}
use openlake.Kv.Pool.{IsPool, Matched, lookup-IsPool}
use openlake.Kv.Release.{Frees, release-IsPool}
use openlake.Kv.Reserve.{taken, Grants, reserve_slots-IsPool}
use openlake.Kv.Commit.{slots_of, without, commit-IsPool}

abbrev ticks : ℕ → ℕ
ticks n = n

abbrev key : KeyHash
key = 7 ∷ []

abbrev pool : SlotPool
pool = record {
  free = 2 ∷ [];
  by_hash = (key, 1) ∷ [];
  by_slot = (1, key) ∷ [];
  pending = (0, 40) ∷ [];
  reserve_ttl = 30;
  lru_prev = nil ∷ nil ∷ nil ∷ [];
  lru_next = nil ∷ nil ∷ nil ∷ [];
  lru_head = 1;
  lru_tail = 1;
}

-- Each of the three slots.
three : (P : ℕ → Type 0) → P 0 → P 1 → P 2 → (y : ℕ) → y < 3 → P y
three P a b c zero h = a
three P a b c (suc zero) h = b
three P a b c (suc (suc zero)) h = c
three P a b c (suc (suc (suc y))) h = absurd (omega (arith, h))

pool-Links : Links 3 (1 ∷ []) pool
pool-Links = record {
  prev_length = refl;
  next_length = refl;
  small = omega arith;
  bounded = λ y m. ground arith;
  distinct = (refl, tt);
  head_is = refl;
  tail_is = refl;
  prev_is = three (λ y. get_elem? pool.lru_prev y ≡ some (pred_of nil (1 ∷ []) y)) refl refl refl;
  next_is = three (λ y. get_elem? pool.lru_next y ≡ some (succ_of (1 ∷ []) y)) refl refl refl;
}

pool-Matched : Matched pool.by_hash pool.by_slot
unfolding get
pool-Matched h y = ground (arith, bytes_eq.beq_iff key h)

pool-IsPool : IsPool 3 (1 ∷ []) pool
unfolding get
pool-IsPool = record {
  links = pool-Links;
  bound = λ y. ground arith;
  matched = pool-Matched;
  placed = λ y. ground arith;
}

touch-Links_example : Relinks 3 (del 1 (1 ∷ []) ++ 1 ∷ []) pool (touch pool 1)
touch-Links_example = touch-Links 3 pool (1 ∷ []) 1 pool-Links (omega arith)

abbrev free_slots : List ℕ
free_slots = 2 ∷ []

reserve_slots-IsPool_example :
    (q : SlotPool) × (reserve_slots ticks 2 pool [] ≡ some (q, [] ++ taken 2 free_slots (1 ∷ [])))
    × IsPool 3 (drop (2 - length free_slots) (1 ∷ [])) q
    × Grants ticks 2 (taken 2 free_slots (1 ∷ [])) pool q
reserve_slots-IsPool_example =
    reserve_slots-IsPool ticks 2 3 (1 ∷ []) free_slots pool [] pool-IsPool refl

commit-IsPool_example :
    ((commit pool 0 key ≡ some (pool, false))
      × (get 0 pool.by_slot ≢ some key)
      × (get 0 pool.pending ≡ none))
    ⊎ ((r : SlotPool) × (commit pool 0 key ≡ some (r, true))
        × IsPool 3 (without (get key pool.by_hash) (1 ∷ []) ++ 0 ∷ []) r
        × (get key r.by_hash ≡ some 0)
        × (r.pending ≡ remove 0 pool.pending)
        × (((get 0 pool.by_slot ≡ some key) × (r.free ≡ pool.free))
            ⊎ ((deadline : ℕ) × (get 0 pool.pending ≡ some deadline)
                × (r.free ≡ pool.free ++ slots_of (get key pool.by_hash)))))
commit-IsPool_example = commit-IsPool 3 pool (1 ∷ []) 0 key pool-IsPool

release-IsPool_example : Frees 3 pool (1 ∷ []) 1 (release pool 1)
release-IsPool_example = release-IsPool 3 pool (1 ∷ []) 1 pool-IsPool

lookup-IsPool_example :
    ((get key pool.by_hash ≡ none) × (lookup pool key ≡ some (pool, none)))
    ⊎ ((x : ℕ) × (q : SlotPool) × (get x pool.by_slot ≡ some key)
        × (lookup pool key ≡ some (q, some x))
        × IsPool 3 (del x (1 ∷ []) ++ x ∷ []) q
        × SameRest pool q)
lookup-IsPool_example = lookup-IsPool 3 pool (1 ∷ []) key pool-IsPool
