-- ===== src/Kv/Order.antt =====
-- Lists of slots from the least to the most recently used, and the neighbours in them. The linked
-- list of `SlotPool` in crates/openlake_io/src/kv.rs stands for such a list.
use openlake.Prelude.{
  ℕ, ◌≡◌, ◌≢◌, refl, ◌⊎◌, inl, Bool, true, false, ◌||◌, List, [], ◌∷◌, ◌++◌, ◌==◌, arith,
  if◌then◌else◌, if-elim,
}
use openlake.Kv.Slots.{nil}

abbrev pub mem : ℕ → List ℕ → Bool
mem x [] = false
mem x (y ∷ ys) = y == x || mem x ys

abbrev pub Distinct : List ℕ → Type 0
Distinct [] = Unit
Distinct (x ∷ xs) = (mem x xs ≡ false) × Distinct xs

abbrev pub first : List ℕ → ℕ
first [] = nil
first (x ∷ xs) = x

-- The last slot, or `p` if there is none.
abbrev pub final : ℕ → List ℕ → ℕ
final p [] = p
final p (x ∷ xs) = final x xs

-- The slot before `y`, where `p` comes before the list, and the slot after it.
abbrev pub pred_of : ℕ → List ℕ → ℕ → ℕ
pred_of p [] y = nil
pred_of p (x ∷ xs) y = if x == y then p else pred_of x xs y

abbrev pub succ_of : List ℕ → ℕ → ℕ
succ_of [] y = nil
succ_of (x ∷ xs) y = if x == y then first xs else succ_of xs y

abbrev pub del : ℕ → List ℕ → List ℕ
del x [] = []
del x (z ∷ zs) = if z == x then zs else z ∷ del x zs

pub pred_of-absent : (p : ℕ) (l : List ℕ) (y : ℕ) → mem y l ≡ false → pred_of p l y ≡ nil
pred_of-absent p [] y h = refl
pred_of-absent p (x ∷ xs) y h = ground (arith, pred_of-absent x xs y)

pub succ_of-absent : (l : List ℕ) (y : ℕ) → mem y l ≡ false → succ_of l y ≡ nil
succ_of-absent [] y h = refl
succ_of-absent (x ∷ xs) y h = ground (arith, succ_of-absent xs y)

pub mem-pred_of : (z : ℕ) (l : List ℕ) (x : ℕ) → mem x l ≡ true → mem (pred_of z l x) (z ∷ l) ≡ true
mem-pred_of z [] x h = absurd (cc h)
mem-pred_of z (w ∷ ws) x h = ground (arith, mem-pred_of w ws x)

pub succ_of-cases : (l : List ℕ) (x : ℕ) → (succ_of l x ≡ nil) ⊎ (mem (succ_of l x) l ≡ true)
succ_of-cases [] x = inl refl
succ_of-cases (z ∷ []) x = ground arith
succ_of-cases (z ∷ w ∷ ws) x = ground (arith, succ_of-cases (w ∷ ws) x)

pub mem-final : (z : ℕ) (l : List ℕ) → mem (final z l) (z ∷ l) ≡ true
mem-final z [] = ground arith
mem-final z (w ∷ ws) = ground (arith, mem-final w ws)

pub mem-append : (x y : ℕ) (l : List ℕ) → mem y (l ++ x ∷ []) ≡ mem y l || x == y
mem-append x y [] = ground arith
mem-append x y (z ∷ zs) = ground (arith, mem-append x y zs)

pub Distinct-append : (x : ℕ) (l : List ℕ) → mem x l ≡ false → Distinct l → Distinct (l ++ x ∷ [])
Distinct-append x [] h d = (refl, tt)
Distinct-append x (z ∷ zs) h (a, d) =
    (ground (arith, mem-append x z zs), Distinct-append x zs (ground arith) d)

pub pred_of-append :
    (p x : ℕ) (l : List ℕ) (y : ℕ)
    → mem x l ≡ false
    → pred_of p (l ++ x ∷ []) y ≡ (if x == y then final p l else pred_of p l y)
pred_of-append p x [] y h = refl
pred_of-append p x (z ∷ zs) y h = ground (arith, pred_of-append z x zs y)

pub succ_of-append :
    (x z : ℕ) (l : List ℕ) (y : ℕ)
    → mem x (z ∷ l) ≡ false
    → Distinct (z ∷ l)
    → succ_of (z ∷ l ++ x ∷ []) y
      ≡ (if x == y then nil else if final z l == y then x else succ_of (z ∷ l) y)
succ_of-append x z [] y h d = ground arith
succ_of-append x z (w ∷ ws) y h (a, d) =
    ground (arith, succ_of-append x w ws y (ground arith) d, mem-final w ws)

pub final-append : (p x : ℕ) (l : List ℕ) → final p (l ++ x ∷ []) ≡ x
final-append p x [] = refl
final-append p x (z ∷ zs) = final-append z x zs

pub first-append :
    (x : ℕ) (l : List ℕ)
    → mem nil l ≡ false
    → first (l ++ x ∷ []) ≡ (if final nil l == nil then x else first l)
first-append x [] n = refl
first-append x (z ∷ zs) n = ground (arith, mem-final z zs)

-- The same of any list, at a slot `y` other than `NIL`.
pub succ_of-attach :
    (x : ℕ) (l : List ℕ) (y : ℕ)
    → mem x l ≡ false
    → Distinct l
    → y ≢ nil
    → succ_of (l ++ x ∷ []) y
      ≡ (if final nil l == y then x else if x == y then nil else succ_of l y)
succ_of-attach x [] y h d ne = ground arith
succ_of-attach x (z ∷ zs) y h d ne = ground (arith, succ_of-append x z zs y h d, mem-final z zs)

pub mem-del :
    (x y : ℕ) (l : List ℕ) → Distinct l → mem y (del x l) ≡ (if x == y then false else mem y l)
mem-del x y [] d = ground arith
mem-del x y (z ∷ zs) (a, d) = ground (arith, mem-del x y zs d)

pub Distinct-del : (x : ℕ) (l : List ℕ) → Distinct l → Distinct (del x l)
Distinct-del x [] d = tt
Distinct-del x (z ∷ zs) (a, d) =
    if-elim Distinct (z == x) zs (z ∷ del x zs) (λ _. d)
      (λ ne. (ground (arith, mem-del x z zs d), Distinct-del x zs d))

pub pred_of-del :
    (p x : ℕ) (l : List ℕ) (y : ℕ)
    → mem nil l ≡ false
    → mem p l ≡ false
    → Distinct l
    → mem x l ≡ true
    → y ≢ nil
    → pred_of p (del x l) y
      ≡ (if x == y then nil else if succ_of l x == y then pred_of p l x else pred_of p l y)
pred_of-del p x [] y n h d i ne = absurd (cc i)
pred_of-del p x (z ∷ []) y n h (a, d) i ne = ground arith
pred_of-del p x (z ∷ w ∷ ws) y n h (a, d) i ne = ground (
  arith,
  pred_of-del z x (w ∷ ws) y (ground arith) a d,
  pred_of-absent w ws y,
  succ_of-cases (w ∷ ws) x,
)

pub first-del :
    (p x : ℕ) (l : List ℕ)
    → mem p l ≡ false
    → mem x l ≡ true
    → first (del x l) ≡ (if pred_of p l x == p then succ_of l x else first l)
first-del p x [] h i = absurd (cc i)
first-del p x (z ∷ zs) h i = ground (arith, mem-pred_of z zs x)

pub final-del :
    (p x : ℕ) (l : List ℕ)
    → mem nil l ≡ false
    → mem x l ≡ true
    → final p (del x l) ≡ (if succ_of l x == nil then pred_of p l x else final p l)
final-del p x [] n i = absurd (cc i)
final-del p x (z ∷ []) n i = ground arith
final-del p x (z ∷ w ∷ ws) n i = ground (arith, final-del z x (w ∷ ws) (ground arith))

pub succ_of-del :
    (p x : ℕ) (l : List ℕ) (y : ℕ)
    → mem p l ≡ false
    → Distinct l
    → mem x l ≡ true
    → y ≢ p
    → succ_of (del x l) y
      ≡ (if x == y then nil else if pred_of p l x == y then succ_of l x else succ_of l y)
succ_of-del p x [] y h d i ne = absurd (cc i)
succ_of-del p x (z ∷ zs) y h (a, d) i ne =
    ground (arith, succ_of-del z x zs y a d, succ_of-absent zs y, first-del z x zs a)
