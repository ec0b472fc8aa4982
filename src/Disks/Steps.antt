-- ===== src/Disks/Steps.antt =====
-- What a chain of steps of I/O leaves, whichever of them fails.
use openlake.Prelude.{◌≡◌, refl, String, ◌||◌, Option, none, some, if-elim}
use openlake.Erasure.Codec.{Bytes}
use openlake.Errors.{Result, ok, err, IoError}
use openlake.Disks.State.{
  Disk, Fault, Faults, Io, and_then, ◌>>=◌, attempt, untorn, best_effort, require_vol,
  is_system_vol, contains, stat_volume,
}

-- Where a step ends: `Q` with its value, or `E` where it fails.
abbrev pub Ends :
    {A : Type 0} → (A → Disk → Type 0) → (Disk → Type 0) → Result IoError A × Disk → Type 0
Ends Q E (ok a, d) = Q a d
Ends Q E (err e, d) = E d

-- From a disk with `P`, the step ends so.
abbrev pub Runs :
    {A : Type 0} → (Disk → Type 0) → Io A → (A → Disk → Type 0) → (Disk → Type 0) → Type 0
Runs P m Q E = (d : Disk) → P d → Ends Q E (m d)

module _ {A B : Type 0} (Q : A → Disk → Type 0) (R : B → Disk → Type 0) (E : Disk → Type 0) where
  pub and_then-Ends :
      (x : Result IoError A × Disk) (f : A → Io B)
      → Ends Q E x
      → ((a : A) → Runs (Q a) (f a) R E)
      → Ends R E (and_then x f)
  and_then-Ends (ok a, d) f h g = g a d h
  and_then-Ends (err e, d) f h g = h

  pub bind-Runs :
      (P : Disk → Type 0) (m : Io A) (f : A → Io B)
      → Runs P m Q E
      → ((a : A) → Runs (Q a) (f a) R E)
      → Runs P (m >>= f) R E
  bind-Runs P m f h g d p = and_then-Ends (m d) f (h d p) g

module _ (P Q E : Disk → Type 0) where
  pub attempt-Runs :
      (x : Option Fault) (torn : Bytes → Disk → Disk) (f : Disk → Disk)
      → ((d : Disk) → P d → Q (f d))
      → ((left : Bytes) (d : Disk) → P d → E (torn left d))
      → Runs P (attempt x torn f) (λ _. Q) E
  attempt-Runs none torn f h g d p = h d p
  attempt-Runs (some x) torn f h g d p = g x.left d p

  pub best_effort-Runs :
      (x : Option Fault) (f : Disk → Disk)
      → ((d : Disk) → P d → Q (f d))
      → ((d : Disk) → P d → Q d)
      → Runs P (best_effort x f) (λ _. Q) E
  best_effort-Runs none f h g d p = h d p
  best_effort-Runs (some x) f h g d p = g d p

module _ {A B : Type 0} (R : B → Disk → Type 0) (E : Disk → Type 0) where
  -- A value that is computed without I/O.
  pub lift-Ends :
      (r : Result IoError A) (d : Disk) (f : A → Io B)
      → ((a : A) → r ≡ ok a → Ends R E (f a d))
      → E d
      → Ends R E (and_then (r, d) f)
  lift-Ends (ok a) d f h g = h a refl
  lift-Ends (err e) d f h g = g

-- The disk is as it was.
abbrev pub Same : {A : Type 0} → Disk → A → Disk → Type 0
Same d a d' = d' ≡ d

pub attempt-Same :
    (x : Option Fault) (d : Disk) → Ends (Same d) (λ d'. d' ≡ d) (attempt x untorn (λ d. d) d)
attempt-Same none d = refl
attempt-Same (some x) d = refl

pub require_vol-Same :
    (fault : Faults) (volume : String) (d : Disk)
    → Ends (Same d) (λ d'. d' ≡ d) (require_vol fault volume d)
unfolding require_vol
require_vol-Same fault volume d =
    and_then-Ends (Same d) (Same d) (λ d'. d' ≡ d) (attempt (fault stat_volume) untorn (λ d. d) d) _
      (attempt-Same (fault stat_volume) d)
      (λ _ d' s.
        if-elim {A = Result IoError (Unit {0})} (λ r. Ends (Same d) (λ d'. d' ≡ d) (r, d'))
          (is_system_vol volume || contains volume d'.volumes) _ _ (λ _. s) (λ _. s))
