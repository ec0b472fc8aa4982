-- ===== src/Cluster/Bootstrap/Settled.antt =====
-- What a node that leaves the loop of `bootstrap_format` has seen.
use openlake.Prelude.{
  ℕ, suc, All-append, sym, length, arith, ◌+◌, ◌≤◌, ◌<◌, ◌≡◌, refl, subst, ap, ◌∙◌, ◌⊎◌, inl, inr,
  Bool, true, false, ◌&&◌, none, some, List, [], ◌∷◌, ◌++◌, count, All, ◌==◌, ==_iff, leb, leb→le,
  if-elim, Option-cases,
}
use openlake.Errors.{IoError, Result, ok, err, map_err, ◌>>=◌, ◌>>◌}
use openlake.Consensus.Tally.{IsOrder}
use openlake.Cluster.Bootstrap.{
  FormatError, Read, is_formatted, any_ok_none, vote_majority, check_local, Round, is_fresh, settle,
  poll, bootstrap, or_else, write_disks, write_all_disks, DiskSlots, WriteFormat, format_of,
  all_ok_none,
}
use openlake.Cluster.Bootstrap.Majority.{holders, vote_majority_iff}

-- A local disk that answered carries the id.
abbrev pub Carries : ℕ → Read → Type 0
Carries id (ok (some f)) = f.id ≡ id
Carries id (ok none) = ⊥
Carries id (err e) = Unit

-- A quorum has a format, most of those carry `id`, and each local disk that answered does.
abbrev pub Agrees : ℕ → ℕ → Round → Type 0
Agrees quorum id r =
    (quorum ≤ count is_formatted (r.local_fmts ++ r.peer_fmts))
    × (count is_formatted (r.local_fmts ++ r.peer_fmts)
        < holders id (r.local_fmts ++ r.peer_fmts) + holders id (r.local_fmts ++ r.peer_fmts))
    × All (Carries id) r.local_fmts

-- Each disk, from the backend `i` on, has taken the format with the id and its own offset.
abbrev pub Formats : WriteFormat → ℕ → ℕ → ℕ → List ℕ → Type 0
Formats write_format id set_drive_count i [] = Unit
Formats write_format id set_drive_count i (this ∷ offsets) =
    (write_format i (format_of id set_drive_count this) ≡ ok tt)
    × Formats write_format id set_drive_count (suc i) offsets

-- The round at which the loop returns `id`.
abbrev pub Leaves : Bool → ℕ → ℕ → DiskSlots → ℕ → Round → Type 0
Leaves am_seed quorum fresh d id r =
    Agrees quorum id r
    ⊎ (All (λ x. x ≡ ok none) (r.local_fmts ++ r.peer_fmts)
        × (am_seed ≡ true)
        × Formats r.write_format id d.set_drive_count 0
            (d.local_disk_offsets ++ d.peer_disk_offsets)
        × (id ≡ fresh))

-- One of the rounds has the property.
abbrev pub Some : (Round → Type 0) → List Round → Type 0
Some P [] = ⊥
Some P (r ∷ rs) = P r ⊎ Some P rs

check_local-Carries :
    (id k : ℕ) (rs : List Read)
    → any_ok_none rs ≡ false
    → check_local id rs ≡ ok k
    → (id ≡ k) × All (Carries id) rs
unfolding check_local any_ok_none
check_local-Carries id k [] = λ _ e. (cc e, tt)
check_local-Carries id k (ok (some f) ∷ rs) = λ a.
    if-elim (λ z. z ≡ ok k → (id ≡ k) × All (Carries id) (ok (some f) ∷ rs)) (f.id == id)
      (check_local id rs) (err (FormatError.local_disk_wrong_deployment_id f.id id))
      (λ t e. let (x, y) = check_local-Carries id k rs a e in (x, ((==_iff f.id id).0 t, y)))
      (λ _ e. absurd (cc e))
check_local-Carries id k (ok none ∷ rs) = λ a _. absurd (cc a)
check_local-Carries id k (err e ∷ rs) =
    λ a f. let (x, y) = check_local-Carries id k rs a f in (x, (tt, y))

module _ (write_format : WriteFormat) (id set_drive_count : ℕ) where
  write_disks-Formats :
      (i : ℕ) (offsets : List ℕ) (k : Result FormatError (Unit {0}))
      → (write_disks write_format id set_drive_count i offsets >> k) ≡ ok tt
      → Formats write_format id set_drive_count i offsets × (k ≡ ok tt)
  unfolding write_disks
  write_disks-Formats i [] k e = (tt, e)
  write_disks-Formats i (this ∷ offsets) k e =
      took (write_format i (format_of id set_drive_count this)) refl
        (write_disks-Formats (suc i) offsets k) e
    where
      took :
          (w : Result IoError (Unit {0}))
          → write_format i (format_of id set_drive_count this) ≡ w
          → ((write_disks write_format id set_drive_count (suc i) offsets >> k) ≡ ok tt
              → Formats write_format id set_drive_count (suc i) offsets × (k ≡ ok tt))
          → ((map_err FormatError.io w
                >> write_disks write_format id set_drive_count (suc i) offsets)
              >> k)
            ≡ ok tt
          → Formats write_format id set_drive_count i (this ∷ offsets) × (k ≡ ok tt)
      took (ok u) w ih h = let (rest, l) = ih h in ((w, rest), l)
      took (err f) w ih h = absurd (cc h)

  Formats-append :
      (i j : ℕ) (ls ps : List ℕ)
      → j ≡ i + length ls
      → Formats write_format id set_drive_count i ls
      → Formats write_format id set_drive_count j ps
      → Formats write_format id set_drive_count i (ls ++ ps)
  Formats-append i j [] ps e _ h =
      let same : j ≡ i = omega (arith, e) in
      subst (λ k. Formats write_format id set_drive_count k ps) same h
  Formats-append i j (l ∷ ls) ps e (w, ws) h =
      (w, Formats-append (suc i) j ls ps (omega (arith, e)) ws h)

write_all_disks-Formats :
    (write_format : WriteFormat) (id : ℕ) (d : DiskSlots)
    → write_all_disks write_format id d ≡ ok tt
    → Formats write_format id d.set_drive_count 0 (d.local_disk_offsets ++ d.peer_disk_offsets)
unfolding write_all_disks
write_all_disks-Formats write_format id d e =
    let (mine, rest) =
      write_disks-Formats write_format id d.set_drive_count 0 d.local_disk_offsets _ e in
    let (theirs, _) =
      write_disks-Formats write_format id d.set_drive_count (length d.local_disk_offsets)
        d.peer_disk_offsets (ok tt) (subst (λ w. (w >> ok tt) ≡ ok tt) (sym rest) refl) in
    Formats-append write_format id d.set_drive_count 0 (length d.local_disk_offsets)
      d.local_disk_offsets d.peer_disk_offsets (omega arith) mine theirs

all_ok_none-All : (rs : List Read) → all_ok_none rs ≡ true → All (λ x. x ≡ ok none) rs
unfolding all_ok_none
all_ok_none-All [] h = tt
all_ok_none-All (ok none ∷ rs) h = (refl, all_ok_none-All rs h)
all_ok_none-All (ok (some f) ∷ rs) h = absurd (cc h)
all_ok_none-All (err e ∷ rs) h = absurd (cc h)

and_true : (a b : Bool) → a && b ≡ true → (a ≡ true) × (b ≡ true)
and_true true b h = (refl, h)
and_true false b h = absurd (cc h)

fresh-All : (r : Round) → is_fresh r ≡ true → All (λ x. x ≡ ok none) (r.local_fmts ++ r.peer_fmts)
fresh-All r h =
    let (_, blank) = and_true _ _ h in
    let (l, p) = and_true (all_ok_none r.local_fmts) _ blank in
    All-append _ r.local_fmts r.peer_fmts (all_ok_none-All r.local_fmts l)
      (all_ok_none-All r.peer_fmts p)

module _ (order : List (ℕ × ℕ) → List (ℕ × ℕ)) (o : IsOrder order) (quorum wait : ℕ) where
  judge :
      (l : List Read) (v : Result FormatError ℕ) (id : ℕ)
      → any_ok_none l ≡ false
      → (v >>= λ k. check_local k l) ≡ ok id
      → (v ≡ ok id) × All (Carries id) l
  judge l (ok k) id a e =
      let (x, y) = check_local-Carries k id l a e in (ap ok x, subst (λ i. All (Carries i) l) x y)
  judge l (err k) id a e = absurd (cc e)

  settle-Agrees :
      (am_seed : Bool) (fresh : ℕ) (r : Round) (id : ℕ)
      → settle order am_seed quorum fresh wait r ≡ some (ok id)
      → Agrees quorum id r
  unfolding settle
  settle-Agrees am_seed fresh r id =
      if-elim (λ z. z ≡ some (ok id) → Agrees quorum id r)
        (leb quorum (count is_formatted (r.local_fmts ++ r.peer_fmts))) _ _
        (λ t.
          if-elim (λ z. some z ≡ some (ok id) → Agrees quorum id r) (any_ok_none r.local_fmts) _ _
            (λ _ e. absurd (cc e))
            (λ a e.
              let (v, c) =
                judge r.local_fmts (vote_majority order r.local_fmts r.peer_fmts) id a (cc e) in
              (leb→le _ _ t, (vote_majority_iff order r.local_fmts r.peer_fmts id o).0 v, c)))
        (λ _.
          if-elim (λ z. z ≡ some (ok id) → Agrees quorum id r) r.past_deadline _ _
            (λ _ e. absurd (cc e)) (λ _ e. absurd (cc e)))

  poll-Leaves :
      (am_seed : Bool) (fresh : ℕ) (d : DiskSlots) (r : Round) (id : ℕ)
      → poll order am_seed quorum fresh wait d r ≡ some (ok id)
      → Leaves am_seed quorum fresh d id r
  unfolding poll write_all_disks
  poll-Leaves am_seed fresh d r id =
      if-elim (λ z. z ≡ some (ok id) → Leaves am_seed quorum fresh d id r) (is_fresh r && am_seed) _
        _
        (λ t e.
          let (x, y) = and_true (is_fresh r) am_seed t in
          let (w, q) = wrote (write_all_disks r.write_format fresh d) id (cc e) in
          let formats = write_all_disks-Formats r.write_format fresh d w in
          inr (
            fresh-All r x,
            y,
            subst
                (λ k.
                  Formats r.write_format k d.set_drive_count 0
                    (d.local_disk_offsets ++ d.peer_disk_offsets))
                (sym q) formats,
            q,
          ))
        (λ _ e. inl (settle-Agrees am_seed fresh r id e))
    where
      wrote :
          (w : Result FormatError (Unit {0})) (id : ℕ)
          → (w >>= λ _. ok fresh) ≡ ok id
          → (w ≡ ok tt) × (id ≡ fresh)
      wrote (ok u) id e = (refl, cc e)
      wrote (err f) id e = absurd (cc e)

  bootstrap_returns :
      (am_seed : Bool) (fresh : ℕ) (d : DiskSlots) (rs : List Round) (id : ℕ)
      → bootstrap order am_seed quorum fresh wait d rs ≡ some (ok id)
      → Some (Leaves am_seed quorum fresh d id) rs
  unfolding bootstrap
  bootstrap_returns am_seed fresh d [] id e = absurd (cc e)
  bootstrap_returns am_seed fresh d (r ∷ rs) id e =
      elim (Option-cases (poll order am_seed quorum fresh wait d r)) [
        | inl n ↦ inr (
            bootstrap_returns am_seed fresh d rs id (
              subst (λ z. or_else z (bootstrap order am_seed quorum fresh wait d rs) ≡ some (ok id))
                n e))
        | inr (a, p) ↦ inl (
            poll-Leaves am_seed fresh d r id (
              p
              ∙ subst
                  (λ z. or_else z (bootstrap order am_seed quorum fresh wait d rs) ≡ some (ok id)) p
                  e))
      ]

-- The loop returns an id only at a round of one of two kinds. Either at least `quorum` disks had a
-- format, more than half of those carried the id, and every local disk that answered carried it; or
-- the node is the seed, every disk was blank, the id is the fresh one, and every disk, local or of a peer,
-- has taken a format with that id and its own offset.
pub bootstrap-Leaves :
    (order : List (ℕ × ℕ) → List (ℕ × ℕ)) (am_seed : Bool) (quorum fresh wait : ℕ) (d : DiskSlots)
    (rs : List Round) (id : ℕ)
    → IsOrder order
    → bootstrap order am_seed quorum fresh wait d rs ≡ some (ok id)
    → Some (Leaves am_seed quorum fresh d id) rs
bootstrap-Leaves order am_seed quorum fresh wait d rs id o =
    bootstrap_returns order o quorum wait am_seed fresh d rs id

settle_ends :
    (order : List (ℕ × ℕ) → List (ℕ × ℕ)) (am_seed : Bool) (quorum fresh wait : ℕ) (r : Round)
    → r.past_deadline ≡ true
    → (a : Result FormatError ℕ) × (settle order am_seed quorum fresh wait r ≡ some a)
unfolding settle
settle_ends order am_seed quorum fresh wait r h =
    if-elim (λ z. (a : Result FormatError ℕ) × (z ≡ some a))
      (leb quorum (count is_formatted (r.local_fmts ++ r.peer_fmts))) _ _ (λ _. (_, refl))
      (λ _. (err (FormatError.timeout wait), rw h))

-- The loop returns by the first round that the deadline has passed in.
pub bootstrap_ends :
    (order : List (ℕ × ℕ) → List (ℕ × ℕ)) (am_seed : Bool) (quorum fresh wait : ℕ) (d : DiskSlots)
    (rs : List Round)
    → Some (λ r. r.past_deadline ≡ true) rs
    → (a : Result FormatError ℕ) × (bootstrap order am_seed quorum fresh wait d rs ≡ some a)
unfolding bootstrap poll
bootstrap_ends order am_seed quorum fresh wait d [] h = absurd h
bootstrap_ends order am_seed quorum fresh wait d (r ∷ rs) (inl h) =
    let (a, e) = settle_ends order am_seed quorum fresh wait r h in
    if-elim
      (λ z.
        (a : Result FormatError ℕ) × (or_else z (bootstrap order am_seed quorum fresh wait d rs)
          ≡ some a))
      (is_fresh r && am_seed) _ _ (λ _. (_, refl)) (λ _. (a, rw e))
bootstrap_ends order am_seed quorum fresh wait d (r ∷ rs) (inr h) =
    let (a, e) = bootstrap_ends order am_seed quorum fresh wait d rs h in
    elim (Option-cases (poll order am_seed quorum fresh wait d r)) [
      | inl n ↦ (a, rw (n, e))
      | inr (b, p) ↦ (b, rw p)
    ]
