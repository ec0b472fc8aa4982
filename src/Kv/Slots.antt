-- ===== src/Kv/Slots.antt =====
-- crates/openlake_io/src/kv.rs: `SlotPool`. `none` is a panic, of an index out of range or of an
-- `expect`. The clock and the order in which `pending` is iterated are arguments.
use openlake.Prelude.{
  ℕ, zero, suc, ◌+◌, ◌-◌, ◌^◌, ◌≡◌, Bool, true, false, not, ◌&&◌, Option, none, some, List, [], ◌∷◌,
  ◌++◌, length, get_elem?, set, replicate, ◌==◌, ltb, if◌then◌else◌, Eq, nat_eq, refl, ◌↔◌, ==_iff,
}
use openlake.Prelude.Maps.{get, insert, remove}

-- `[u8; 54]`
abbrev pub KeyHash : Type 0
KeyHash = List ℕ

abbrev bytes_beq : List ℕ → List ℕ → Bool
bytes_beq [] [] = true
bytes_beq [] (y ∷ ys) = false
bytes_beq (x ∷ xs) [] = false
bytes_beq (x ∷ xs) (y ∷ ys) = x == y && bytes_beq xs ys

and_true : (a b : Bool) → (a && b ≡ true) ↔ ((a ≡ true) × (b ≡ true))
and_true true b = (λ h. (refl, h), λ h. h.1)
and_true false b = (λ h. absurd (cc h), λ h. h.0)

pub bytes_beq_iff : (xs ys : List ℕ) → (bytes_beq xs ys ≡ true) ↔ (xs ≡ ys)
bytes_beq_iff [] [] = (λ _. refl, λ _. refl)
bytes_beq_iff [] (y ∷ ys) = (λ h. absurd (cc h), λ h. absurd (cc h))
bytes_beq_iff (x ∷ xs) [] = (λ h. absurd (cc h), λ h. absurd (cc h))
bytes_beq_iff (x ∷ xs) (y ∷ ys) =
    let (split, join) = and_true (x == y) (bytes_beq xs ys) in
    let (to, fro) = bytes_beq_iff xs ys in
    let (head_to, head_fro) = ==_iff x y in
    (
      λ h. let (a, b) = split h in cc (head_to a, to b),
      λ h. let same : x ≡ y = cc h in let rest : xs ≡ ys = cc h in join (head_fro same, fro rest),
    )

instance abbrev pub bytes_eq : Eq (List ℕ)
bytes_eq = record { beq = bytes_beq; beq_iff = bytes_beq_iff }

-- `NIL`, which is `u32::MAX`
abbrev pub nil : ℕ
nil = 2 ^ 32 - 1

pub record SlotPool : Type 0 where
  pub free : List ℕ
  pub by_hash : List (KeyHash × ℕ)
  pub by_slot : List (ℕ × KeyHash)
  pub pending : List (ℕ × ℕ)
  pub reserve_ttl : ℕ
  pub lru_prev : List ℕ
  pub lru_next : List ℕ
  pub lru_head : ℕ
  pub lru_tail : ℕ

-- `(i..i + n).collect()`
unfoldable pub range : ℕ → ℕ → List ℕ
range i zero = []
range i (suc n) = i ∷ range (suc i) n

unfoldable pub new : ℕ → ℕ → SlotPool
unfolding range
new slot_count reserve_ttl = record {
  free = range 0 slot_count;
  by_hash = [];
  by_slot = [];
  pending = [];
  reserve_ttl = reserve_ttl;
  lru_prev = replicate slot_count nil;
  lru_next = replicate slot_count nil;
  lru_head = nil;
  lru_tail = nil;
}

unfoldable pub clear : SlotPool → SlotPool
unfolding range
clear p = record p {
  free = range 0 (length p.lru_prev);
  by_hash = [];
  by_slot = [];
  pending = [];
  lru_prev = replicate (length p.lru_prev) nil;
  lru_next = replicate (length p.lru_next) nil;
  lru_head = nil;
  lru_tail = nil;
}

-- `xs[i] = v`
abbrev pub store : List ℕ → ℕ → ℕ → Option (List ℕ)
store xs i v = if ltb i (length xs) then some (set xs i v) else none

infixl 5 ◌>>=◌
abbrev pub ◌>>=◌ {ℓ κ} : {A : Type ℓ} {B : Type κ} → Option A → (A → Option B) → Option B
none >>= f = none
some a >>= f = f a

unfoldable pub lru_attach_tail : SlotPool → ℕ → Option SlotPool
lru_attach_tail p slot = do
  prev ← store p.lru_prev slot p.lru_tail
  next ← store p.lru_next slot nil
  if not (p.lru_tail == nil)
      then (store next p.lru_tail slot >>= λ linked.
          some (record p { lru_prev = prev; lru_next = linked; lru_tail = slot }))
      else some (record p { lru_prev = prev; lru_next = next; lru_head = slot; lru_tail = slot })

-- The rest of `lru_detach`, after its early return: `before` and `after` are the neighbours.
unfoldable pub unlink : SlotPool → ℕ → ℕ → ℕ → Option SlotPool
unlink p slot before after = do
  next ← (if not (before == nil) then store p.lru_next before after else some p.lru_next)
  let head = if not (before == nil) then p.lru_head else after
  prev ← (if not (after == nil) then store p.lru_prev after before else some p.lru_prev)
  let tail = if not (after == nil) then p.lru_tail else before
  prev' ← store prev slot nil
  next' ← store next slot nil
  some (record p { lru_prev = prev'; lru_next = next'; lru_head = head; lru_tail = tail })

unfoldable pub lru_detach : SlotPool → ℕ → Option SlotPool
unfolding unlink
lru_detach p slot = do
  before ← get_elem? p.lru_prev slot
  if before == nil && not (p.lru_head == slot)
      then some p
      else (get_elem? p.lru_next slot >>= λ after. unlink p slot before after)

unfoldable pub touch : SlotPool → ℕ → Option SlotPool
touch p slot = lru_detach p slot >>= λ q. lru_attach_tail q slot

-- `self.by_slot.remove(&slot).expect("lru slot has a binding")`, and what follows it.
unfoldable pub evict_slot : SlotPool → ℕ → Option (SlotPool × Option ℕ)
unfolding lru_detach
evict_slot p slot = do
  hash ← get slot p.by_slot
  q ←
      lru_detach (record p { by_slot = remove slot p.by_slot; by_hash = remove hash p.by_hash })
        slot
  some (q, some slot)

unfoldable pub evict_one : SlotPool → Option (SlotPool × Option ℕ)
unfolding evict_slot
evict_one p = if p.lru_head == nil then some (p, none) else evict_slot p p.lru_head

-- The slots of the entries that `retain` drops, in the order in which it drops them.
unfoldable pub expired : ℕ → List (ℕ × ℕ) → List ℕ
expired now [] = []
expired now ((slot, deadline) ∷ m) =
    let rest = expired now m in if ltb now deadline then rest else slot ∷ rest

unfoldable pub live : ℕ → List (ℕ × ℕ) → List (ℕ × ℕ)
live now [] = []
live now ((slot, deadline) ∷ m) =
    let rest = live now m in if ltb now deadline then (slot, deadline) ∷ rest else rest

-- `order` is the order in which `pending` is iterated.
unfoldable pub reclaim_expired : (List (ℕ × ℕ) → List (ℕ × ℕ)) → ℕ → SlotPool → SlotPool
unfolding expired live
reclaim_expired order now p = record p {
  free = p.free ++ expired now (order p.pending);
  pending = live now (order p.pending);
}

-- `self.free.pop_front().or_else(|| self.evict_one())`
unfoldable pub take_slot : SlotPool → Option (SlotPool × Option ℕ)
unfolding evict_one
take_slot p = elim p.free [
  | [] ↦ evict_one p
  | slot ∷ rest ↦ some (record p { free = rest }, some slot)
]

-- The loop of `reserve`: `clock n` is read when `n` slots are still wanted after this one.
unfoldable pub reserve_slots : (ℕ → ℕ) → ℕ → SlotPool → List ℕ → Option (SlotPool × List ℕ)
unfolding take_slot
reserve_slots clock zero p out = some (p, out)
reserve_slots clock (suc n) p out = take_slot p >>= λ taken. elim taken.1 [
  | none ↦ some (taken.0, out)
  | some slot ↦
      reserve_slots clock n
        (record taken.0 { pending = insert slot (clock n + taken.0.reserve_ttl) taken.0.pending })
        (out ++ slot ∷ [])
]

unfoldable pub reserve :
    (List (ℕ × ℕ) → List (ℕ × ℕ)) → ℕ → (ℕ → ℕ) → ℕ → SlotPool → Option (SlotPool × List ℕ)
unfolding reserve_slots reclaim_expired
reserve order now clock count p =
    reserve_slots clock count (if ltb (length p.free) count then reclaim_expired order now p else p)
      []

-- A key that was bound before leaves its slot free.
unfoldable pub unbind_previous : Option ℕ → SlotPool → Option SlotPool
unfolding lru_detach
unbind_previous none p = some p
unbind_previous (some prev_slot) p =
    lru_detach (record p { by_slot = remove prev_slot p.by_slot }) prev_slot >>= λ q.
    some (record q { free = q.free ++ prev_slot ∷ [] })

abbrev pub is_bound_to : KeyHash → Option KeyHash → Bool
is_bound_to key_hash none = false
is_bound_to key_hash (some h) = bytes_eq.beq h key_hash

unfoldable pub bind_slot : SlotPool → ℕ → KeyHash → Option (SlotPool × Bool)
unfolding unbind_previous lru_attach_tail
bind_slot p slot_idx key_hash = do
  q ← unbind_previous (get key_hash p.by_hash) (record p {
    pending = remove slot_idx p.pending;
    by_slot = insert slot_idx key_hash p.by_slot;
    by_hash = insert key_hash slot_idx p.by_hash;
  })
  r ← lru_attach_tail q slot_idx
  some (r, true)

unfoldable pub commit : SlotPool → ℕ → KeyHash → Option (SlotPool × Bool)
unfolding bind_slot touch
commit p slot_idx key_hash =
    if is_bound_to key_hash (get slot_idx p.by_slot)
    then (touch (record p { pending = remove slot_idx p.pending }) slot_idx >>= λ q. some (q, true))
    else elim (get slot_idx p.pending) [
      | none ↦ some (p, false)
      | some deadline ↦ bind_slot p slot_idx key_hash
    ]

unfoldable pub lookup : SlotPool → KeyHash → Option (SlotPool × Option ℕ)
unfolding touch
lookup p key_hash = elim (get key_hash p.by_hash) [
  | none ↦ some (p, none)
  | some slot ↦ touch p slot >>= λ q. some (q, some slot)
]

unfoldable pub release : SlotPool → ℕ → Option SlotPool
unfolding lru_detach
release p slot_idx = elim (get slot_idx p.by_slot) [
  | none ↦ elim (get slot_idx p.pending) [
    | none ↦ some p
    | some deadline ↦
        some (record p { pending = remove slot_idx p.pending; free = p.free ++ slot_idx ∷ [] })
  ]
  | some hash ↦
      lru_detach (record p { by_slot = remove slot_idx p.by_slot; by_hash = remove hash p.by_hash })
        slot_idx
      >>= λ q. some (record q { free = q.free ++ slot_idx ∷ [] })
]
