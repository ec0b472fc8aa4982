-- ===== src/Kv/Pool.antt =====
-- The slots of a `SlotPool` of crates/openlake_io/src/kv.rs: each is free, reserved or bound, and the
-- bound ones are those of the linked list.
use openlake.Prelude.{
  ℕ, zero, suc, ◌+◌, ◌≤◌, ◌<◌, ◌≡◌, refl, ◌⊎◌, inl, inr, ◌↔◌, Bool, true, false, Option, none, some,
  List, [], ◌∷◌, ◌++◌, count, ltb, arith, if◌then◌else◌, Option-cases, sym, subst, ap, ◌∙◌, nat_eq,
}
use openlake.Prelude.Maps.{get, remove, get-remove}
use openlake.Kv.Slots.{nil, KeyHash, bytes_eq, SlotPool, new, lru_detach, touch, lookup, range}
use openlake.Kv.Order.{mem, del, mem-del, mem-append}
use openlake.Kv.Lru.{Links}
use openlake.Kv.Lru.Moves.{Relinks, SameRest, lru_detach-Links, touch-Links, new-Links}

abbrev pub is_some {ℓ} : {A : Type ℓ} → Option A → Bool
is_some none = false
is_some (some a) = true

-- The bound slots are those of the list.
abbrev pub Bound : List ℕ → List (ℕ × KeyHash) → Type 0
Bound l by_slot = (y : ℕ) → mem y l ≡ is_some (get y by_slot)

-- The two maps are inverse to each other.
abbrev pub Matched : List (KeyHash × ℕ) → List (ℕ × KeyHash) → Type 0
Matched by_hash by_slot =
    (h : KeyHash) (y : ℕ) → (get h by_hash ≡ some y) ↔ (get y by_slot ≡ some h)

-- How often a slot is free, reserved or bound.
abbrev pub places : List ℕ → List ℕ → List (ℕ × ℕ) → ℕ → ℕ
places l free pending y =
    count (nat_eq.beq y) free
    + ((if is_some (get y pending) then 1 else 0) + (if mem y l then 1 else 0))

abbrev pub Placed : ℕ → List ℕ → List ℕ → List (ℕ × ℕ) → Type 0
Placed n l free pending = (y : ℕ) → places l free pending y ≡ (if ltb y n then 1 else 0)

-- A pool of `n` slots: each is in exactly one place, and the links stand for the bound ones in the
-- order of `l`.
pub record IsPool (n : ℕ) (l : List ℕ) (p : SlotPool) : Type 0 where
  pub links : Links n l p
  pub bound : Bound l p.by_slot
  pub matched : Matched p.by_hash p.by_slot
  pub placed : Placed n l p.free p.pending

mem-lt :
    (n : ℕ) (l free : List ℕ) (pending : List (ℕ × ℕ)) (y : ℕ)
    → Placed n l free pending
    → mem y l ≡ true
    → y < n
mem-lt n l free pending y h m = ground (arith, h y)

pub Bound-mem :
    (l : List ℕ) (by_slot : List (ℕ × KeyHash)) (x : ℕ) (h : KeyHash)
    → Bound l by_slot
    → get x by_slot ≡ some h
    → mem x l ≡ true
Bound-mem l by_slot x h b e = b x ∙ ap is_some e

-- A bound slot that becomes the most recently used one stays bound, and the others stay where they
-- are.
pub IsPool-touch :
    (n : ℕ) (p : SlotPool) (l : List ℕ) (x : ℕ)
    → IsPool n l p
    → mem x l ≡ true
    → (q : SlotPool) × (touch p x ≡ some q) × IsPool n (del x l ++ x ∷ []) q × SameRest p q
IsPool-touch n p l x i m =
    let (q, e, r, (a, b, c, d, f)) =
      touch-Links n p l x i.links (mem-lt n l p.free p.pending x i.placed m) in
    (
      q,
      e,
      record {
        links = r;
        bound = subst (Bound (del x l ++ x ∷ [])) (sym c) (λ y. same y ∙ i.bound y);
        matched =
            subst (λ k. Matched k q.by_slot) (sym b) (subst (Matched p.by_hash) (sym c) i.matched);
        placed =
            subst (λ k. Placed n (del x l ++ x ∷ []) k q.pending) (sym a)
              (subst (Placed n (del x l ++ x ∷ []) p.free) (sym d) (λ y.
                ap
                  (λ k.
                    count (nat_eq.beq y) p.free
                    + ((if is_some (get y p.pending) then 1 else 0) + (if k then 1 else 0)))
                  (same y)
                ∙ i.placed y));
      },
      (a, b, c, d, f),
    )
  where
    same : (y : ℕ) → mem y (del x l ++ x ∷ []) ≡ mem y l
    same y = ground (arith, mem-append x y (del x l), mem-del x y l i.links.distinct)

count-range :
    (y i k : ℕ)
    → count (nat_eq.beq y) (range i k) ≡ (if ltb y i then 0 else if ltb y (i + k) then 1 else 0)
unfolding range
count-range y i zero = ground arith
count-range y i (suc k) = ground (arith, count-range y (suc i) k)

-- The slots of a new pool are all free.
pub new-IsPool : (n ttl : ℕ) → n ≤ nil → IsPool n [] (new n ttl)
unfolding new get
new-IsPool n ttl h = record {
  links = new-Links n ttl h;
  bound = λ y. refl;
  matched = λ k y. (λ e. absurd (cc e), λ e. absurd (cc e));
  placed = λ y. ground (arith, count-range y 0 n);
}

-- On a pool with the invariant, a lookup that finds its key makes the key's slot the most recently used one and changes nothing but
-- the links: the free slots, the reserved ones with their deadlines and both maps are the same. A lookup
-- that does not find it changes nothing. It does not panic.
pub lookup-IsPool :
    (n : ℕ) (p : SlotPool) (l : List ℕ) (key : KeyHash)
    → IsPool n l p
    → ((get key p.by_hash ≡ none) × (lookup p key ≡ some (p, none)))
      ⊎ ((x : ℕ) × (q : SlotPool) × (get x p.by_slot ≡ some key)
          × (lookup p key ≡ some (q, some x))
          × IsPool n (del x l ++ x ∷ []) q
          × SameRest p q)
unfolding lookup
lookup-IsPool n p l key i = elim (Option-cases (get key p.by_hash)) [
  | inl e ↦ inl (e, rw (lookup, e))
  | inr (x, e) ↦
      let b = (i.matched key x).0 e in
      let (q, t, r, same) = IsPool-touch n p l x i (Bound-mem l p.by_slot x key i.bound b) in
      inr (x, q, b, rw (lookup, e, t), r, same)
]

-- The slot `x`, bound to `hash`, leaves the list and the maps.
module _ (n : ℕ) (p : SlotPool) (l : List ℕ) (x : ℕ) (hash : KeyHash) where
  abbrev pub unbound : SlotPool
  unbound = record p { by_slot = remove x p.by_slot; by_hash = remove hash p.by_hash }

  pub unbound-Bound : IsPool n l p → Bound (del x l) (remove x p.by_slot)
  unbound-Bound i y =
      ground (arith, mem-del x y l i.links.distinct, get-remove x y p.by_slot, i.bound y)

  pub unbound-Matched :
      IsPool n l p
      → get x p.by_slot ≡ some hash
      → Matched (remove hash p.by_hash) (remove x p.by_slot)
  unbound-Matched i e h y = ground (
    arith,
    get-remove hash h p.by_hash,
    get-remove x y p.by_slot,
    bytes_eq.beq_iff hash h,
    i.matched h y,
    i.matched hash y,
    i.matched h x,
    i.matched hash x,
  )

  pub detach_unbound :
      IsPool n l p
      → get x p.by_slot ≡ some hash
      → Relinks n (del x l) unbound (lru_detach unbound x)
  detach_unbound i e =
      lru_detach-Links n unbound l x i.links
        (mem-lt n l p.free p.pending x i.placed (Bound-mem l p.by_slot x hash i.bound e))
