-- ===== src/Kv/Lru.antt =====
-- The linked list of `SlotPool` in crates/openlake_io/src/kv.rs, `lru_prev`, `lru_next`, `lru_head`
-- and `lru_tail`, as the list of slots that it stands for.
pub mod Moves
use openlake.Prelude.{
  ℕ, zero, suc, ◌+◌, ◌-◌, ◌≤◌, ◌<◌, ◌≡◌, ◌≢◌, refl, ◌⊎◌, inl, inr, Bool, true, false, not, ◌&&◌,
  ◌||◌, Option, none, some, List, [], ◌∷◌, ◌++◌, length, get_elem?, set, replicate,
  length-replicate, ◌==◌, ltb, arith, if◌then◌else◌, if-elim, ==_iff, Bool-cases, sym, subst, ap,
  ◌∙◌,
}
use openlake.Prelude.Maps.{get, remove}
use openlake.Kv.Slots.{
  nil, SlotPool, new, store, ◌>>=◌, lru_attach_tail, unlink, lru_detach, touch, evict_slot,
  evict_one,
}
use openlake.Kv.Order.{
  mem, Distinct, first, final, pred_of, succ_of, del, pred_of-absent, succ_of-absent, mem-pred_of,
  succ_of-cases, mem-final, mem-append, Distinct-append, final-append, first-append, succ_of-attach,
  pred_of-append, succ_of-append, mem-del, Distinct-del, pred_of-del, first-del, final-del,
  succ_of-del,
}

-- The links of a pool of `n` slots stand for the list `l`, least recently used first. A slot that is
-- not in the list has no neighbours.
pub record IsLru (n : ℕ) (l : List ℕ) (prev next : List ℕ) (head tail : ℕ) : Type 0 where
  pub prev_length : length prev ≡ n
  pub next_length : length next ≡ n
  pub small : n ≤ nil
  pub bounded : (y : ℕ) → mem y l ≡ true → y < n
  pub distinct : Distinct l
  pub head_is : head ≡ first l
  pub tail_is : tail ≡ final nil l
  pub prev_is : (y : ℕ) → y < n → get_elem? prev y ≡ some (pred_of nil l y)
  pub next_is : (y : ℕ) → y < n → get_elem? next y ≡ some (succ_of l y)

abbrev pub Links : ℕ → List ℕ → SlotPool → Type 0
Links n l p = IsLru n l p.lru_prev p.lru_next p.lru_head p.lru_tail

length-set : {A : Type 0} (xs : List A) (i : ℕ) (v : A) → length (set xs i v) ≡ length xs
length-set [] i v = refl
length-set (x ∷ xs) zero v = refl
length-set (x ∷ xs) (suc i) v = ap suc (length-set xs i v)

get_elem?-set :
    {A : Type 0} (xs : List A) (i : ℕ) (v : A) (y : ℕ)
    → i < length xs
    → get_elem? (set xs i v) y ≡ (if i == y then some v else get_elem? xs y)
get_elem?-set [] i v y h = absurd (omega (arith, h))
get_elem?-set (x ∷ xs) zero v zero h = refl
get_elem?-set (x ∷ xs) zero v (suc y) h = ground arith
get_elem?-set (x ∷ xs) (suc i) v zero h = ground arith
get_elem?-set (x ∷ xs) (suc i) v (suc y) h = ground (arith, get_elem?-set xs i v y (omega arith))

store_ok : (xs : List ℕ) (i v : ℕ) → i < length xs → store xs i v ≡ some (set xs i v)
store_ok xs i v h = ground arith

-- A write of `v` at `i`, or at no place where `i` is `NIL`.
abbrev write_at : List ℕ → ℕ → ℕ → List ℕ
write_at xs i v = if i == nil then xs else set xs i v

write_at_ok :
    (n : ℕ) (xs : List ℕ) (i v : ℕ)
    → length xs ≡ n
    → (i ≡ nil) ⊎ (i < n)
    → (if not (i == nil) then store xs i v else some xs) ≡ some (write_at xs i v)
write_at_ok n xs i v e (inl h) = ground arith
write_at_ok n xs i v e (inr h) = ground (arith, store_ok xs i v)

length-write_at : (xs : List ℕ) (i v : ℕ) → length (write_at xs i v) ≡ length xs
length-write_at xs i v = ground (arith, length-set xs i v)

get_elem?-write_at :
    (n : ℕ) (xs : List ℕ) (i v y : ℕ)
    → length xs ≡ n
    → n ≤ nil
    → (i ≡ nil) ⊎ (i < n)
    → y < n
    → get_elem? (write_at xs i v) y ≡ (if i == y then some v else get_elem? xs y)
get_elem?-write_at n xs i v y e le (inl h) hy = ground arith
get_elem?-write_at n xs i v y e le (inr h) hy = ground (arith, get_elem?-set xs i v y)

module _ (n : ℕ) where
  final-bounded :
      (l : List ℕ) → ((y : ℕ) → mem y l ≡ true → y < n) → (final nil l ≡ nil) ⊎ (final nil l < n)
  final-bounded [] b = inl refl
  final-bounded (z ∷ zs) b = inr (b (final z zs) (mem-final z zs))

  -- What `lru_attach_tail` leaves.
  unfoldable pub attached : SlotPool → ℕ → SlotPool
  attached p x = record p {
    lru_prev = set p.lru_prev x p.lru_tail;
    lru_next = write_at (set p.lru_next x nil) p.lru_tail x;
    lru_head = if p.lru_tail == nil then x else p.lru_head;
    lru_tail = x;
  }

  pub attach_ok :
      (p : SlotPool) (l : List ℕ) (x : ℕ)
      → Links n l p
      → x < n
      → lru_attach_tail p x ≡ some (attached p x)
  unfolding lru_attach_tail attached
  attach_ok p l x r h = elim (Bool-cases (p.lru_tail == nil)) [
    | inl t ↦ rw (in_prev, in_next, t)
    | inr f ↦ rw (in_prev, in_next, f, at_tail f)
  ]
    where
      in_prev : store p.lru_prev x p.lru_tail ≡ some (set p.lru_prev x p.lru_tail)
      in_prev = store_ok p.lru_prev x p.lru_tail (omega (arith, h, r.prev_length))

      in_next : store p.lru_next x nil ≡ some (set p.lru_next x nil)
      in_next = store_ok p.lru_next x nil (omega (arith, h, r.next_length))

      at_tail :
          p.lru_tail == nil ≡ false
          → store (set p.lru_next x nil) p.lru_tail x
            ≡ some (set (set p.lru_next x nil) p.lru_tail x)
      at_tail f = store_ok (set p.lru_next x nil) p.lru_tail x (
          ground (
            arith,
            length-set p.lru_next x nil,
            r.next_length,
            r.tail_is,
            final-bounded l r.bounded,
          ))

  pub attached-Links :
      (p : SlotPool) (l : List ℕ) (x : ℕ)
      → Links n l p
      → x < n
      → mem x l ≡ false
      → Links n (l ++ x ∷ []) (attached p x)
  unfolding attached
  attached-Links p l x r h out = record {
    prev_length = length-set p.lru_prev x p.lru_tail ∙ r.prev_length;
    next_length =
        length-write_at (set p.lru_next x nil) p.lru_tail x
        ∙ length-set p.lru_next x nil
        ∙ r.next_length;
    small = r.small;
    bounded = λ y m. ground (arith, mem-append x y l, r.bounded y);
    distinct = Distinct-append x l out r.distinct;
    head_is = ground (arith, r.head_is, r.tail_is, first-append x l nil_out);
    tail_is = sym (final-append nil x l);
    prev_is = λ y hy. ground (
      arith,
      get_elem?-set p.lru_prev x p.lru_tail y,
      r.prev_length,
      r.prev_is y hy,
      r.tail_is,
      pred_of-append nil x l y out,
    );
    next_is = λ y hy. ground (
      arith,
      get_elem?-write_at n (set p.lru_next x nil) p.lru_tail x y,
      length-set p.lru_next x nil,
      get_elem?-set p.lru_next x nil y,
      r.next_length,
      r.next_is y hy,
      r.tail_is,
      r.small,
      final-bounded l r.bounded,
      succ_of-attach x l y out r.distinct,
    );
  }
    where
      nil_out : mem nil l ≡ false
      nil_out = ground (arith, r.bounded nil, r.small)

  -- What `unlink` leaves, where `before` and `after` are the neighbours.
  unfoldable pub unlinked : SlotPool → (x before after : ℕ) → SlotPool
  unlinked p x before after = record p {
    lru_prev = set (write_at p.lru_prev after before) x nil;
    lru_next = set (write_at p.lru_next before after) x nil;
    lru_head = if not (before == nil) then p.lru_head else after;
    lru_tail = if not (after == nil) then p.lru_tail else before;
  }

  pred_of-bounded :
      (l : List ℕ) (x : ℕ)
      → ((y : ℕ) → mem y l ≡ true → y < n)
      → (pred_of nil l x ≡ nil) ⊎ (pred_of nil l x < n)
  pred_of-bounded [] x b = inl refl
  pred_of-bounded (z ∷ zs) x b = elim (Bool-cases (mem x zs)) [
    | inl t ↦ ground (arith, mem-pred_of z zs x t, b (pred_of z zs x))
    | inr f ↦ ground (arith, pred_of-absent z zs x f)
  ]

  succ_of-bounded :
      (l : List ℕ) (x : ℕ)
      → ((y : ℕ) → mem y l ≡ true → y < n)
      → (succ_of l x ≡ nil) ⊎ (succ_of l x < n)
  succ_of-bounded l x b = elim (succ_of-cases l x) [
    | inl e ↦ inl e
    | inr m ↦ inr (b (succ_of l x) m)
  ]

  pub unlink_ok :
      (p : SlotPool) (l : List ℕ) (x : ℕ)
      → Links n l p
      → x < n
      → unlink p x (pred_of nil l x) (succ_of l x)
        ≡ some (unlinked p x (pred_of nil l x) (succ_of l x))
  unfolding unlink unlinked
  unlink_ok p l x r h = rw (
    write_at_ok n p.lru_next (pred_of nil l x) (succ_of l x) r.next_length
        (pred_of-bounded l x r.bounded),
    write_at_ok n p.lru_prev (succ_of l x) (pred_of nil l x) r.prev_length
        (succ_of-bounded l x r.bounded),
    store_ok (write_at p.lru_prev (succ_of l x) (pred_of nil l x)) x nil (
        omega
          (arith, h, length-write_at p.lru_prev (succ_of l x) (pred_of nil l x), r.prev_length)),
    store_ok (write_at p.lru_next (pred_of nil l x) (succ_of l x)) x nil (
        omega
          (arith, h, length-write_at p.lru_next (pred_of nil l x) (succ_of l x), r.next_length)),
  )

  pub unlinked-Links :
      (p : SlotPool) (l : List ℕ) (x : ℕ)
      → Links n l p
      → mem x l ≡ true
      → Links n (del x l) (unlinked p x (pred_of nil l x) (succ_of l x))
  unfolding unlinked
  unlinked-Links p l x r i = record {
    prev_length = length-set prev x nil ∙ length-write_at p.lru_prev after before ∙ r.prev_length;
    next_length = length-set next x nil ∙ length-write_at p.lru_next before after ∙ r.next_length;
    small = r.small;
    bounded = λ y m. ground (arith, mem-del x y l r.distinct, r.bounded y);
    distinct = Distinct-del x l r.distinct;
    head_is = ground (arith, r.head_is, first-del nil x l nil_out i);
    tail_is = ground (arith, r.tail_is, final-del nil x l nil_out i);
    prev_is = λ y hy. ground (
      arith,
      get_elem?-set prev x nil y,
      length-write_at p.lru_prev after before,
      get_elem?-write_at n p.lru_prev after before y r.prev_length r.small
          (succ_of-bounded l x r.bounded) hy,
      r.bounded x i,
      r.prev_is y hy,
      r.prev_length,
      pred_of-del nil x l y nil_out nil_out r.distinct i,
      r.small,
    );
    next_is = λ y hy. ground (
      arith,
      get_elem?-set next x nil y,
      length-write_at p.lru_next before after,
      get_elem?-write_at n p.lru_next before after y r.next_length r.small
          (pred_of-bounded l x r.bounded) hy,
      r.bounded x i,
      r.next_is y hy,
      r.next_length,
      succ_of-del nil x l y nil_out r.distinct i,
      r.small,
    );
  }
    where
      before : ℕ
      before = pred_of nil l x

      after : ℕ
      after = succ_of l x

      prev : List ℕ
      prev = write_at p.lru_prev after before

      next : List ℕ
      next = write_at p.lru_next before after

      nil_out : mem nil l ≡ false
      nil_out = ground (arith, r.bounded nil, r.small)
