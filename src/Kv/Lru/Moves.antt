-- ===== src/Kv/Lru/Moves.antt =====
-- What the operations on the linked list of `SlotPool` in crates/openlake_io/src/kv.rs do to the list
-- of slots.
use openlake.Prelude.{
  ℕ, zero, suc, ◌≤◌, ◌<◌, ◌≡◌, ◌≢◌, refl, inl, inr, true, false, not, ◌&&◌, Option, some, List, [],
  ◌∷◌, ◌++◌, get_elem?, replicate, length-replicate, ◌==◌, arith, Bool-cases, sym, subst, ◌∙◌,
}
use openlake.Kv.Slots.{nil, SlotPool, new, lru_attach_tail, lru_detach, touch}
use openlake.Kv.Order.{mem, first, pred_of, succ_of, del, pred_of-absent, mem-pred_of, mem-del}
use openlake.Kv.Lru.{
  Links, attached, attach_ok, attached-Links, unlinked, unlink_ok, unlinked-Links,
}

-- Everything but the links is the same.
abbrev pub SameRest : SlotPool → SlotPool → Type 0
SameRest p q =
    (q.free ≡ p.free)
    × (q.by_hash ≡ p.by_hash)
    × (q.by_slot ≡ p.by_slot)
    × (q.pending ≡ p.pending)
    × (q.reserve_ttl ≡ p.reserve_ttl)

-- The operation `o` returns a pool with the list `l`, and changes nothing but the links.
abbrev pub Relinks : ℕ → List ℕ → SlotPool → Option SlotPool → Type 0
Relinks n l p o = (q : SlotPool) × (o ≡ some q) × Links n l q × SameRest p q

pub del-absent : (x : ℕ) (l : List ℕ) → mem x l ≡ false → del x l ≡ l
del-absent x [] h = refl
del-absent x (z ∷ zs) h = ground (arith, del-absent x zs)

first_of_no_pred :
    (x : ℕ) (l : List ℕ) → mem nil l ≡ false → mem x l ≡ true → pred_of nil l x ≡ nil → first l ≡ x
first_of_no_pred x [] n i e = absurd (cc i)
first_of_no_pred x (z ∷ zs) n i e = ground (arith, mem-pred_of z zs x)

first_absent : (x : ℕ) (l : List ℕ) → x ≢ nil → mem x l ≡ false → first l ≢ x
first_absent x [] ne h = λ e. ne (sym e)
first_absent x (z ∷ zs) ne h = ground arith

module _ (n : ℕ) where
  pub lru_attach_tail-Links :
      (p : SlotPool) (l : List ℕ) (x : ℕ)
      → Links n l p
      → x < n
      → mem x l ≡ false
      → Relinks n (l ++ x ∷ []) p (lru_attach_tail p x)
  unfolding attached
  lru_attach_tail-Links p l x r h out = (
    attached n p x,
    attach_ok n p l x r h,
    attached-Links n p l x r h out,
    (refl, refl, refl, refl, refl),
  )

  pub lru_detach-Links :
      (p : SlotPool) (l : List ℕ) (x : ℕ)
      → Links n l p
      → x < n
      → Relinks n (del x l) p (lru_detach p x)
  unfolding lru_detach unlinked
  lru_detach-Links p l x r h = elim (Bool-cases (mem x l)) [
    | inl i ↦
        let stays : pred_of nil l x == nil && not (p.lru_head == x) ≡ false =
          ground (arith, first_of_no_pred x l nil_out i, r.head_is) in
        (
          unlinked n p x (pred_of nil l x) (succ_of l x),
          rw (r.prev_is x h, stays, r.next_is x h, unlink_ok n p l x r h),
          unlinked-Links n p l x r i,
          (refl, refl, refl, refl, refl),
        )
    | inr out ↦
        let gone : pred_of nil l x == nil && not (p.lru_head == x) ≡ true =
          ground (arith, pred_of-absent nil l x out, first_absent x l, r.small, r.head_is) in
        (
          p,
          rw (r.prev_is x h, gone),
          subst (λ k. Links n k p) (sym (del-absent x l out)) r,
          (refl, refl, refl, refl, refl),
        )
  ]
    where
      nil_out : mem nil l ≡ false
      nil_out = ground (arith, r.bounded nil, r.small)

-- `touch` of a slot makes it the most recently used one, and leaves the order of the others: it does
-- not panic, and changes nothing but the links.
pub touch-Links :
    (n : ℕ) (p : SlotPool) (l : List ℕ) (x : ℕ)
    → Links n l p
    → x < n
    → Relinks n (del x l ++ x ∷ []) p (touch p x)
unfolding touch
touch-Links n p l x r h =
    let (q, e, rq, (a, b, c, d, f)) = lru_detach-Links n p l x r h in
    let (s, e', rs, (a', b', c', d', f')) =
      lru_attach_tail-Links n q (del x l) x rq h (ground (arith, mem-del x x l r.distinct)) in
    (s, rw (e, e'), rs, (a' ∙ a, b' ∙ b, c' ∙ c, d' ∙ d, f' ∙ f))

-- A new pool has an empty list.
pub new-Links : (n ttl : ℕ) → n ≤ nil → Links n [] (new n ttl)
unfolding new
new-Links n ttl h = record {
  prev_length = length-replicate n nil;
  next_length = length-replicate n nil;
  small = h;
  bounded = λ y m. absurd (cc m);
  distinct = tt;
  head_is = refl;
  tail_is = refl;
  prev_is = λ y hy. get_elem?-replicate n nil y hy;
  next_is = λ y hy. get_elem?-replicate n nil y hy;
}
  where
    get_elem?-replicate : (n v y : ℕ) → y < n → get_elem? (replicate n v) y ≡ some v
    get_elem?-replicate zero v y h = absurd (omega (arith, h))
    get_elem?-replicate (suc n) v zero h = refl
    get_elem?-replicate (suc n) v (suc y) h = get_elem?-replicate n v y (omega (arith, h))
