-- ===== src/Kv/Commit.antt =====
-- `SlotPool::commit` of crates/openlake_io/src/kv.rs.
use mathlib.Core.List.{append-nil}
use openlake.Prelude.{
  ℕ, ◌<◌, ◌≡◌, ◌≢◌, ◌⊎◌, inl, inr, Bool, true, false, Option, none, some, List, [], ◌∷◌, ◌++◌,
  count, count-append, arith, Bool-cases, Option-cases, sym, subst, ap, ◌∙◌, nat_eq,
}
use openlake.Prelude.Maps.{get, insert, remove, get-remove, get-insert}
use openlake.Kv.Slots.{KeyHash, bytes_eq, SlotPool, commit, bind_slot, unbind_previous, is_bound_to}
use openlake.Kv.Order.{mem, del, mem-del, mem-append}
use openlake.Kv.Lru.Moves.{lru_detach-Links, lru_attach_tail-Links}
use openlake.Kv.Pool.{Bound, Matched, Placed, IsPool, IsPool-touch, Bound-mem}

-- The slot of a key, if it is bound, as a list, and the order without it.
abbrev pub slots_of : Option ℕ → List ℕ
slots_of none = []
slots_of (some y) = y ∷ []

abbrev pub without : Option ℕ → List ℕ → List ℕ
without none l = l
without (some y) l = del y l

module _ (n : ℕ) (p : SlotPool) (l : List ℕ) (x : ℕ) (key : KeyHash) (deadline : ℕ)
    (i : IsPool n l p) (d : get x p.pending ≡ some deadline) where
  -- A reserved slot is below the count, and neither bound nor free.
  reserved_place : (x < n) × (mem x l ≡ false) × (count (nat_eq.beq x) p.free ≡ 0)
  reserved_place =
      (ground (arith, i.placed x, d), ground (arith, i.placed x, d), ground (arith, i.placed x, d))

  fresh_key :
      get key p.by_hash ≡ none
      → Bound (l ++ x ∷ []) (insert x key p.by_slot)
        × Matched (insert key x p.by_hash) (insert x key p.by_slot)
        × Placed n (l ++ x ∷ []) p.free (remove x p.pending)
  fresh_key e = (
    λ y. ground (arith, mem-append x y l, get-insert x y key p.by_slot, i.bound y),
    λ h y. ground (
      arith,
      get-insert x y key p.by_slot,
      get-insert key h x p.by_hash,
      bytes_eq.beq_iff key h,
      i.matched h y,
      i.matched key y,
      i.matched h x,
      i.bound x,
      reserved_place.1,
    ),
    λ y.
        ground (arith, mem-append x y l, get-remove x y p.pending, i.placed y, d, reserved_place.1),
  )

  rebound_key :
      (prev : ℕ)
      → get key p.by_hash ≡ some prev
      → Bound (del prev l ++ x ∷ []) (remove prev (insert x key p.by_slot))
        × Matched (insert key x p.by_hash) (remove prev (insert x key p.by_slot))
        × Placed n (del prev l ++ x ∷ []) (p.free ++ prev ∷ []) (remove x p.pending)
  rebound_key prev e = (
    λ y. ground (
      arith,
      mem-append x y (del prev l),
      mem-del prev y l i.links.distinct,
      get-remove prev y (insert x key p.by_slot),
      get-insert x y key p.by_slot,
      i.bound y,
      other,
      reserved_place.1,
    ),
    λ h y. ground (
      arith,
      get-remove prev y (insert x key p.by_slot),
      get-insert x y key p.by_slot,
      get-insert key h x p.by_hash,
      bytes_eq.beq_iff key h,
      i.matched h y,
      i.matched key y,
      i.matched h prev,
      i.matched key prev,
      i.matched h x,
      i.bound x,
      other,
      reserved_place.1,
    ),
    λ y. ground (
      arith,
      mem-append x y (del prev l),
      mem-del prev y l i.links.distinct,
      count-append (nat_eq.beq y) p.free (prev ∷ []),
      get-remove x y p.pending,
      i.placed y,
      d,
      reserved_place.1,
      inside,
      other,
    ),
  )
    where
      inside : mem prev l ≡ true
      inside = Bound-mem l p.by_slot prev key i.bound ((i.matched key prev).0 e)

      other : prev ≢ x
      other = λ q. ground (arith, inside, reserved_place.1, ap (λ k. mem k l) q)

  -- The new binding is the most recently used one; the slot is no longer reserved, and the slot that
  -- the key was bound to before is free.
  abbrev pub Binds : Option (SlotPool × Bool) → Type 0
  Binds o =
      (r : SlotPool) × (o ≡ some (r, true))
      × IsPool n (without (get key p.by_hash) l ++ x ∷ []) r
      × (get key r.by_hash ≡ some x)
      × (r.pending ≡ remove x p.pending)
      × (r.free ≡ p.free ++ slots_of (get key p.by_hash))

  found : get key (insert key x p.by_hash) ≡ some x
  found = ground (arith, get-insert key key x p.by_hash, bytes_eq.beq_iff key key)

  bind_slot-fresh : get key p.by_hash ≡ none → Binds (bind_slot p x key)
  unfolding bind_slot unbind_previous
  bind_slot-fresh e =
      let (bound, matched, placed) = fresh_key e in
      let (r, t, links, (a, b, c, f, g)) =
        lru_attach_tail-Links n
          (record p {
            pending = remove x p.pending;
            by_slot = insert x key p.by_slot;
            by_hash = insert key x p.by_hash;
          })
          l x i.links reserved_place.0 reserved_place.1 in
      (
        r,
        rw (bind_slot, e, unbind_previous, t),
        subst (λ o. IsPool n (without o l ++ x ∷ []) r) (sym e)
            record {
              links = links;
              bound = subst (Bound (l ++ x ∷ [])) (sym c) bound;
              matched =
                  subst (λ k. Matched k r.by_slot) (sym b)
                    (subst (Matched (insert key x p.by_hash)) (sym c) matched);
              placed =
                  subst (λ k. Placed n (l ++ x ∷ []) k r.pending) (sym a)
                    (subst (Placed n (l ++ x ∷ []) p.free) (sym f) placed);
            },
        ap (get key) b ∙ found,
        f,
        a ∙ sym (append-nil p.free) ∙ ap (λ o. p.free ++ slots_of o) (sym e),
      )

  bind_slot-rebound : (prev : ℕ) → get key p.by_hash ≡ some prev → Binds (bind_slot p x key)
  unfolding bind_slot unbind_previous
  bind_slot-rebound prev e =
      let (bound, matched, placed) = rebound_key prev e in
      let inside : mem prev l ≡ true =
        Bound-mem l p.by_slot prev key i.bound ((i.matched key prev).0 e) in
      let (q, t, mid, (a, b, c, f, g)) =
        lru_detach-Links n
          (record p {
            pending = remove x p.pending;
            by_slot = remove prev (insert x key p.by_slot);
            by_hash = insert key x p.by_hash;
          })
          l prev i.links (i.links.bounded prev inside) in
      let (r, t', links, (a', b', c', f', g')) =
        lru_attach_tail-Links n (record q { free = q.free ++ prev ∷ [] }) (del prev l) x mid
          reserved_place.0 (ground (arith, mem-del prev x l i.links.distinct, reserved_place.1)) in
      (
        r,
        rw (bind_slot, e, unbind_previous, t, t'),
        subst (λ o. IsPool n (without o l ++ x ∷ []) r) (sym e)
            record {
              links = links;
              bound = subst (Bound (del prev l ++ x ∷ [])) (sym (c' ∙ c)) bound;
              matched =
                  subst (λ k. Matched k r.by_slot) (sym (b' ∙ b))
                    (subst (Matched (insert key x p.by_hash)) (sym (c' ∙ c)) matched);
              placed =
                  subst (λ k. Placed n (del prev l ++ x ∷ []) k r.pending)
                    (sym (a' ∙ ap (λ k. k ++ prev ∷ []) a))
                    (subst (Placed n (del prev l ++ x ∷ []) (p.free ++ prev ∷ [])) (sym (f' ∙ f))
                      placed);
            },
        ap (get key) (b' ∙ b) ∙ found,
        f' ∙ f,
        a' ∙ ap (λ k. k ++ prev ∷ []) a ∙ ap (λ o. p.free ++ slots_of o) (sym e),
      )

  pub bind_slot-Binds : Binds (bind_slot p x key)
  bind_slot-Binds = elim (Option-cases (get key p.by_hash)) [
    | inl e ↦ bind_slot-fresh e
    | inr (prev, e) ↦ bind_slot-rebound prev e
  ]

is_bound_to-some : (key : KeyHash) (o : Option KeyHash) → is_bound_to key o ≡ true → o ≡ some key
is_bound_to-some key none h = absurd (cc h)
is_bound_to-some key (some k) h = ap some ((bytes_eq.beq_iff k key).0 h)

-- A commit to a pool with the invariant does not panic, and keeps every slot in exactly one place. Where the slot is neither bound
-- to the key nor reserved, it fails and changes nothing. Where the slot is bound to the key, it becomes
-- the most recently used one, and the free slots are the same. Where it is reserved, the key is bound
-- to it as the most recently used one, and the slot that the key was bound to before, if any, is put
-- behind the free ones. After a success the slot is not reserved, and of the other reserved slots none
-- changes.
pub commit-IsPool :
    (n : ℕ) (p : SlotPool) (l : List ℕ) (x : ℕ) (key : KeyHash)
    → IsPool n l p
    → ((commit p x key ≡ some (p, false)) × (get x p.by_slot ≢ some key) × (get x p.pending ≡ none))
      ⊎ ((r : SlotPool) × (commit p x key ≡ some (r, true))
          × IsPool n (without (get key p.by_hash) l ++ x ∷ []) r
          × (get key r.by_hash ≡ some x)
          × (r.pending ≡ remove x p.pending)
          × (((get x p.by_slot ≡ some key) × (r.free ≡ p.free))
              ⊎ ((deadline : ℕ) × (get x p.pending ≡ some deadline)
                  × (r.free ≡ p.free ++ slots_of (get key p.by_hash)))))
unfolding commit
commit-IsPool n p l x key i = elim (Bool-cases (is_bound_to key (get x p.by_slot))) [
  | inl t ↦
      let e = is_bound_to-some key (get x p.by_slot) t in
      let m = Bound-mem l p.by_slot x key i.bound e in
      let here : get key p.by_hash ≡ some x = (i.matched key x).1 e in
      let (q, u, r, (a, b, c, d, f)) =
        IsPool-touch n (record p { pending = remove x p.pending }) l x (settled m) m in
      inr (
        q,
        rw (commit, t, u),
        subst (λ o. IsPool n (without o l ++ x ∷ []) q) (sym here) r,
        ap (get key) b ∙ here,
        d,
        inl (e, a),
      )
  | inr f ↦ elim (Option-cases (get x p.pending)) [
    | inl d ↦ inl (rw (commit, f, d), unlike f, d)
    | inr (deadline, d) ↦
        let (r, u, j, g, v, w) = bind_slot-Binds n p l x key deadline i d in
        inr (r, rw (commit, f, d, u), j, g, v, inr (deadline, d, w))
  ]
]
  where
    unlike : is_bound_to key (get x p.by_slot) ≡ false → get x p.by_slot ≢ some key
    unlike f e = ground (arith, ap (is_bound_to key) e, f, bytes_eq.beq_iff key key)

    settled : mem x l ≡ true → IsPool n l (record p { pending = remove x p.pending })
    settled m = record {
      links = i.links;
      bound = i.bound;
      matched = i.matched;
      placed = λ y. ground (arith, get-remove x y p.pending, i.placed y, m);
    }
