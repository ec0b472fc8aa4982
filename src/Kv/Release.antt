-- ===== src/Kv/Release.antt =====
-- `SlotPool::release` of crates/openlake_io/src/kv.rs.
use mathlib.Core.List.{append-nil}
use openlake.Prelude.{
  ℕ, ◌≡◌, refl, ◌==◌, ==_iff, Bool, Bool-cases, ◌||◌, if◌then◌else◌, Option, inl, inr, true, false,
  none, some, List, [], ◌∷◌, ◌++◌, count-append, arith, Option-cases, sym, subst, ap, ◌∙◌, nat_eq,
}
use openlake.Prelude.Maps.{get, remove, get-remove}
use openlake.Kv.Slots.{KeyHash, bytes_eq, SlotPool, release}
use openlake.Kv.Order.{mem, del, mem-del}
use openlake.Kv.Lru.Moves.{del-absent}
use openlake.Kv.Pool.{
  is_some, Bound, Matched, Placed, IsPool, Bound-mem, unbound-Bound, unbound-Matched,
  detach_unbound,
}

-- The slot is bound or reserved.
abbrev pub is_used : SlotPool → ℕ → Bool
is_used p x = is_some (get x p.by_slot) || is_some (get x p.pending)

-- The operation returns a pool in which `x` is neither bound nor reserved, but free if it was one of
-- them, and of any other slot nothing has changed.
abbrev pub Frees : ℕ → SlotPool → List ℕ → ℕ → Option SlotPool → Type 0
Frees n p l x o =
    (q : SlotPool) × (o ≡ some q)
    × IsPool n (del x l) q
    × (q.free ≡ p.free ++ (if is_used p x then x ∷ [] else []))
    × ((y : ℕ) → get y q.pending ≡ (if x == y then none else get y p.pending))
    × ((y : ℕ) → get y q.by_slot ≡ (if x == y then none else get y p.by_slot))

-- A slot that is absent from a map is as if removed from it.
absent :
    {A : Type 0} (x : ℕ) (m : List (ℕ × A))
    → get x m ≡ none
    → (y : ℕ) → get y m ≡ (if x == y then none else get y m)
absent x m e y = elim (Bool-cases (x == y)) [
  | inl t ↦ rw t (ap (λ k. get k m) (sym ((==_iff x y).0 t)) ∙ e)
  | inr f ↦ rw f refl
]

module _ (n : ℕ) (p : SlotPool) (l : List ℕ) (x : ℕ) where
  bound-not_reserved : IsPool n l p → mem x l ≡ true → get x p.pending ≡ none
  bound-not_reserved i m = elim (Option-cases (get x p.pending)) [
    | inl e ↦ e
    | inr (deadline, d) ↦ absurd (ground (arith, i.placed x, d, m))
  ]

  freed-Placed : IsPool n l p → mem x l ≡ true → Placed n (del x l) (p.free ++ x ∷ []) p.pending
  freed-Placed i m y = ground (
    arith,
    count-append (nat_eq.beq y) p.free (x ∷ []),
    mem-del x y l i.links.distinct,
    i.placed y,
  )

  -- A bound slot is freed.
  release-bound :
      (hash : KeyHash) → IsPool n l p → get x p.by_slot ≡ some hash → Frees n p l x (release p x)
  unfolding release
  release-bound hash i e =
      let (q, t, r, (a, b, c, d, f)) = detach_unbound n p l x hash i e in
      (
        record q { free = q.free ++ x ∷ [] },
        rw (release, e, t),
        record {
          links = r;
          bound = subst (Bound (del x l)) (sym c) (unbound-Bound n p l x hash i);
          matched =
              subst (λ k. Matched k q.by_slot) (sym b)
                (subst (Matched (remove hash p.by_hash)) (sym c)
                  (unbound-Matched n p l x hash i e));
          placed =
              subst (λ k. Placed n (del x l) (k ++ x ∷ []) q.pending) (sym a)
                (subst (Placed n (del x l) (p.free ++ x ∷ [])) (sym d)
                  (freed-Placed i (Bound-mem l p.by_slot x hash i.bound e)));
        },
        ap (λ k. k ++ x ∷ []) a
            ∙ ap (λ b. p.free ++ (if b || is_some (get x p.pending) then x ∷ [] else []))
                (sym (ap is_some e)),
        λ y.
            ap (get y) d
            ∙ absent x p.pending (bound-not_reserved i (Bound-mem l p.by_slot x hash i.bound e)) y,
        λ y. ap (get y) c ∙ get-remove x y p.by_slot,
      )

  -- A reserved slot is freed.
  release-reserved :
      (deadline : ℕ)
      → IsPool n l p
      → get x p.by_slot ≡ none
      → get x p.pending ≡ some deadline
      → Frees n p l x (release p x)
  unfolding release
  release-reserved deadline i e d =
      let out : mem x l ≡ false = i.bound x ∙ ap is_some e in
      (
        record p { pending = remove x p.pending; free = p.free ++ x ∷ [] },
        rw (release, e, d),
        subst (λ k. IsPool n k (record p { pending = remove x p.pending; free = p.free ++ x ∷ [] }))
            (sym (del-absent x l out))
            (record {
              links = i.links;
              bound = i.bound;
              matched = i.matched;
              placed = λ y. ground (
                arith,
                count-append (nat_eq.beq y) p.free (x ∷ []),
                get-remove x y p.pending,
                i.placed y,
                d,
              );
            }),
        rw (e, d) refl,
        λ y. get-remove x y p.pending,
        absent x p.by_slot e,
      )

-- A release on a pool with the invariant does not panic and keeps every slot in exactly one place. The slot, if it was bound or
-- reserved, is put behind the free ones and is neither bound nor reserved afterwards; the order of the
-- other bound slots is kept, and so is what each other slot is bound to or reserved until. The release
-- of a slot that was neither leaves the free ones as they are.
pub release-IsPool :
    (n : ℕ) (p : SlotPool) (l : List ℕ) (x : ℕ) → IsPool n l p → Frees n p l x (release p x)
unfolding release
release-IsPool n p l x i = elim (Option-cases (get x p.by_slot)) [
  | inr (hash, e) ↦ release-bound n p l x hash i e
  | inl e ↦ elim (Option-cases (get x p.pending)) [
    | inr (deadline, d) ↦ release-reserved n p l x deadline i e d
    | inl d ↦ (
      p,
      rw (release, e, d),
      subst (λ k. IsPool n k p) (sym (del-absent x l (i.bound x ∙ ap is_some e))) i,
      rw (e, d) (sym (append-nil p.free)),
      absent x p.pending d,
      absent x p.by_slot e,
    )
  ]
]
