-- ===== src/Kv/Reserve.antt =====
-- `SlotPool::reserve` and `evict_one` of crates/openlake_io/src/kv.rs.
use mathlib.Core.List.{append-nil, append_assoc}
use openlake.Prelude.{
  ℕ, zero, suc, ◌+◌, ◌-◌, ◌≤◌, ◌<◌, ◌≡◌, refl, inl, inr, Bool, true, false, Option, none, some,
  List, [], ◌∷◌, ◌++◌, length, drop, count, ◌==◌, ltb, arith, if◌then◌else◌, Option-cases, sym,
  subst, ap, ◌∙◌, nat_eq,
}
use openlake.Prelude.Maps.{get, insert, remove, get-insert}
use openlake.Kv.Slots.{nil, bytes_eq, SlotPool, evict_slot, evict_one, take_slot, reserve_slots}
use openlake.Kv.Order.{mem, del}
use openlake.Kv.Lru.{Links}
use openlake.Kv.Pool.{
  is_some, Bound, Matched, Placed, places, IsPool, unbound-Bound, unbound-Matched, detach_unbound,
}

-- A pool from which the slot `x` was taken: it is in no place.
record IsTaken (n : ℕ) (l : List ℕ) (x : ℕ) (p : SlotPool) : Type 0 where
  links : Links n l p
  bound : Bound l p.by_slot
  matched : Matched p.by_hash p.by_slot
  placed : (y : ℕ) → places l p.free p.pending y ≡ (if x == y then 0 else if ltb y n then 1 else 0)
  small : x < n

-- Nothing but the free slots, the bindings and the links is changed.
abbrev KeepsReserved : SlotPool → SlotPool → Type 0
KeepsReserved p q = (q.pending ≡ p.pending) × (q.reserve_ttl ≡ p.reserve_ttl)

-- The slot taken is put among the reserved ones.
reserved-IsPool :
    (n : ℕ) (l : List ℕ) (x deadline : ℕ) (p : SlotPool)
    → IsTaken n l x p
    → IsPool n l (record p { pending = insert x deadline p.pending })
reserved-IsPool n l x deadline p t = record {
  links = t.links;
  bound = t.bound;
  matched = t.matched;
  placed = λ y. ground (arith, get-insert x y deadline p.pending, t.placed y, t.placed x, t.small);
}

taken_places :
    (n x : ℕ) (l free : List ℕ) (pending : List (ℕ × ℕ))
    → mem x l ≡ false
    → Placed n (x ∷ l) free pending
    → (y : ℕ) → places l free pending y ≡ (if x == y then 0 else if ltb y n then 1 else 0)
taken_places n x l free pending out h y = ground (arith, h y)

evict_head :
    (n : ℕ) (p : SlotPool) (x h : ℕ) (o : Option (SlotPool × Option ℕ))
    → h ≡ x
    → x < n
    → n ≤ nil
    → evict_slot p x ≡ o
    → (if h == nil then some (p, none) else evict_slot p h) ≡ o
evict_head n p x h o e lt le f =
    subst (λ k. (if k == nil then some (p, none) else evict_slot p k) ≡ o) (sym e)
      (ground (arith, f, lt, le))

-- The least recently used slot is the one evicted, and it has a binding.
evict_one-IsTaken :
    (n : ℕ) (l : List ℕ) (x : ℕ) (p : SlotPool)
    → IsPool n (x ∷ l) p
    → (q : SlotPool) × (evict_one p ≡ some (q, some x))
      × IsTaken n l x q
      × (q.free ≡ p.free)
      × KeepsReserved p q
unfolding evict_one evict_slot
evict_one-IsTaken n l x p i = elim (Option-cases (get x p.by_slot)) [
  | inl e ↦ absurd (ground (arith, i.bound x, ap is_some e))
  | inr (hash, e) ↦
      let (q, t, r, (a, b, c, d, f)) = detach_unbound n p (x ∷ l) x hash i e in
      let here : del x (x ∷ l) ≡ l = ground arith in
      (
        q,
        evict_head n p x p.lru_head (some (q, some x)) i.links.head_is room i.links.small
            (rw (e, t)),
        record {
          links = subst (λ k. Links n k q) here r;
          bound =
              subst (Bound l) (sym c) (
                subst (λ k. Bound k (remove x p.by_slot)) here
                  (unbound-Bound n p (x ∷ l) x hash i));
          matched =
              subst (λ k. Matched k q.by_slot) (sym b)
                (subst (Matched (remove hash p.by_hash)) (sym c)
                  (unbound-Matched n p (x ∷ l) x hash i e));
          placed = λ y.
              subst (λ k. places l k q.pending y ≡ (if x == y then 0 else if ltb y n then 1 else 0))
                (sym a)
                (subst (λ k. places l p.free k y ≡ (if x == y then 0 else if ltb y n then 1 else 0))
                  (sym d) (taken_places n x l p.free p.pending i.links.distinct.0 i.placed y));
          small = room;
        },
        a,
        (d, f),
      )
]
  where
    room : x < n
    room = i.links.bounded x (ground arith)

-- What `take_slot` does: a free slot, or else the least recently used one, or else none.
take_slot-free :
    (n : ℕ) (l rest : List ℕ) (x : ℕ) (p : SlotPool)
    → IsPool n l p
    → p.free ≡ x ∷ rest
    → (q : SlotPool) × (take_slot p ≡ some (q, some x))
      × IsTaken n l x q
      × (q.free ≡ rest)
      × KeepsReserved p q
unfolding take_slot
take_slot-free n l rest x p i e = (
  record p { free = rest },
  rw (take_slot, e),
  record {
    links = i.links;
    bound = i.bound;
    matched = i.matched;
    placed = λ y. once y (i.placed y);
    small = lt;
  },
  refl,
  (refl, refl),
)
  where
    split :
        (y : ℕ)
        → count (nat_eq.beq y) p.free ≡ (if y == x then 1 else 0) + count (nat_eq.beq y) rest
    split y = ap (count (nat_eq.beq y)) e

    lt : x < n
    lt = ground (arith, i.placed x, split x)

    once :
        (y : ℕ)
        → places l p.free p.pending y ≡ (if ltb y n then 1 else 0)
        → places l rest p.pending y ≡ (if x == y then 0 else if ltb y n then 1 else 0)
    once y h = ground (arith, split y, lt)

take_slot-evicts :
    (n : ℕ) (l : List ℕ) (x : ℕ) (p : SlotPool)
    → IsPool n (x ∷ l) p
    → p.free ≡ []
    → (q : SlotPool) × (take_slot p ≡ some (q, some x))
      × IsTaken n l x q
      × (q.free ≡ [])
      × KeepsReserved p q
unfolding take_slot
take_slot-evicts n l x p i e =
    let (q, t, k, f, r) = evict_one-IsTaken n l x p i in (q, rw (take_slot, e, t), k, f ∙ e, r)

take_slot-none : (n : ℕ) (p : SlotPool) → IsPool n [] p → p.free ≡ [] → take_slot p ≡ some (p, none)
unfolding take_slot evict_one
take_slot-none n p i e =
    ap
      (λ (k : List ℕ). elim k [
        | [] ↦ evict_one p
        | slot ∷ rest ↦ some (record p { free = rest }, some slot)
      ])
      e
    ∙ ap (λ k. if k == nil then some (p, none) else evict_slot p k) i.links.head_is

-- The slots that a reservation of `count` takes, and the list that it leaves: the free ones first,
-- then the least recently used.
abbrev pub taken : ℕ → List ℕ → List ℕ → List ℕ
taken zero free l = []
taken (suc c) [] [] = []
taken (suc c) [] (x ∷ l) = x ∷ taken c [] l
taken (suc c) (x ∷ free) l = x ∷ taken c free l

abbrev latest : Option ℕ → Option ℕ → Option ℕ
latest none o = o
latest (some d) o = some d

-- Until when the slots handed out are reserved, by the clock read for each, and `none` for the others.
abbrev pub deadline_of : (ℕ → ℕ) → ℕ → ℕ → List ℕ → ℕ → Option ℕ
deadline_of clock ttl c [] y = none
deadline_of clock ttl zero (x ∷ xs) y = none
deadline_of clock ttl (suc c) (x ∷ xs) y =
    latest (deadline_of clock ttl c xs y) (if x == y then some (clock c + ttl) else none)

-- What has become of the free and the reserved slots of `p` once the slots `xs` are handed out.
abbrev pub Grants : (ℕ → ℕ) → ℕ → List ℕ → SlotPool → SlotPool → Type 0
Grants clock c xs p q =
    (q.free ≡ drop c p.free)
    × (q.reserve_ttl ≡ p.reserve_ttl)
    × ((y : ℕ)
        → get y q.pending ≡ latest (deadline_of clock p.reserve_ttl c xs y) (get y p.pending))

-- The slot `x` is handed out, which leaves the pool `q`, and then the slots `xs`.
Grants-step :
    (clock : ℕ → ℕ) (c x : ℕ) (xs : List ℕ) (p q s : SlotPool)
    → KeepsReserved p q
    → drop (suc c) p.free ≡ drop c q.free
    → Grants clock c xs (record q { pending = insert x (clock c + q.reserve_ttl) q.pending }) s
    → Grants clock (suc c) (x ∷ xs) p s
Grants-step clock c x xs p q s (pending, ttl) free (a, b, r) = (
  a ∙ sym free,
  b ∙ ttl,
  λ y.
      r y
      ∙ ap (latest (deadline_of clock q.reserve_ttl c xs y))
          (get-insert x y (clock c + q.reserve_ttl) q.pending)
      ∙ ap
          (λ k.
            latest (deadline_of clock q.reserve_ttl c xs y)
              (if x == y then some (clock c + q.reserve_ttl) else get y k))
          pending
      ∙ ap
          (λ t.
            latest (deadline_of clock t c xs y)
              (if x == y then some (clock c + t) else get y p.pending))
          ttl
      ∙ regroup (deadline_of clock p.reserve_ttl c xs y) (x == y) (clock c + p.reserve_ttl)
          (get y p.pending),
)
  where
    regroup :
        (o : Option ℕ) (b : Bool) (d : ℕ) (k : Option ℕ)
        → latest o (if b then some d else k) ≡ latest (latest o (if b then some d else none)) k
    regroup none true d k = refl
    regroup none false d k = refl
    regroup (some e) b d k = refl

drop-nil : (k : ℕ) → drop {A = ℕ} k [] ≡ []
drop-nil zero = refl
drop-nil (suc k) = refl

-- On a pool with the invariant, the loop of `reserve` does not panic and hands out the free slots first and then the least recently
-- used ones, in that order. As many slots as were asked for leave the front of the queue of free ones,
-- or all of them; the list loses as many slots from its old end as were not free. The slots handed out
-- are reserved, each until `reserve_ttl` after the clock was read for it; the other reservations are the
-- same. Every slot stays in exactly one place.
pub reserve_slots-IsPool :
    (clock : ℕ → ℕ) (c n : ℕ) (l free : List ℕ) (p : SlotPool) (out : List ℕ)
    → IsPool n l p
    → p.free ≡ free
    → (q : SlotPool) × (reserve_slots clock c p out ≡ some (q, out ++ taken c free l))
      × IsPool n (drop (c - length free) l) q
      × Grants clock c (taken c free l) p q
unfolding reserve_slots
reserve_slots-IsPool clock zero n l free p out i e = (
  p,
  ap (λ k. some (p, k)) (sym (append-nil out)),
  subst (λ k. IsPool n (drop k l) p) (none_short (length free)) i,
  (refl, refl, λ y. none_handed_out (taken zero free l) y),
)
  where
    none_short : (k : ℕ) → 0 ≡ 0 - k
    none_short k = omega arith

    none_handed_out :
        (xs : List ℕ) (y : ℕ)
        → get y p.pending ≡ latest (deadline_of clock p.reserve_ttl zero xs y) (get y p.pending)
    none_handed_out [] y = refl
    none_handed_out (x ∷ xs) y = refl
reserve_slots-IsPool clock (suc c) n l (x ∷ rest) p out i e =
    let (q, t, k, f, r) = take_slot-free n l rest x p i e in
    let (s, u, v, w) =
      reserve_slots-IsPool clock c n l rest _ (out ++ x ∷ [])
        (reserved-IsPool n l x (clock c + q.reserve_ttl) q k) f in
    (
      s,
      rw (reserve_slots, t)
          (u ∙ ap (λ m. some (s, m)) (append_assoc out (x ∷ []) (taken c rest l))),
      subst (λ m. IsPool n (drop m l) s) (same c (length rest)) v,
      Grants-step clock c x (taken c rest l) p q s r (ap (drop (suc c)) e ∙ ap (drop c) (sym f)) w,
    )
  where
    same : (a b : ℕ) → a - b ≡ suc a - suc b
    same a b = omega arith
reserve_slots-IsPool clock (suc c) n (x ∷ l) [] p out i e =
    let (q, t, k, f, r) = take_slot-evicts n l x p i e in
    let (s, u, v, w) =
      reserve_slots-IsPool clock c n l [] _ (out ++ x ∷ [])
        (reserved-IsPool n l x (clock c + q.reserve_ttl) q k) f in
    (
      s,
      rw (reserve_slots, t) (u ∙ ap (λ m. some (s, m)) (append_assoc out (x ∷ []) (taken c [] l))),
      subst (λ m. IsPool n m s) (step c) v,
      Grants-step clock c x (taken c [] l) p q s r
          (ap (drop (suc c)) e ∙ sym (drop-nil c) ∙ ap (drop c) (sym f)) w,
    )
  where
    step : (a : ℕ) → drop (a - 0) l ≡ drop (suc a - 0) (x ∷ l)
    step a =
        let e0 : a - 0 ≡ a = omega arith in
        let e1 : suc a ≡ suc a - 0 = omega arith in
        ap (λ m. drop m l) e0 ∙ ap (λ m. drop m (x ∷ l)) e1
reserve_slots-IsPool clock (suc c) n [] [] p out i e = (
  p,
  rw (reserve_slots, take_slot-none n p i e) (ap (λ k. some (p, k)) (sym (append-nil out))),
  subst (λ m. IsPool n m p) (sym (drop-nil (suc c - 0))) i,
  (e ∙ sym (ap (drop (suc c)) e), refl, λ y. refl),
)
