-- ===== src/Streams/Window.antt =====
-- crates/openlake_io/src/stream.rs: a `SkipTakeStream` gives a window of the bytes of its stream.
use openlake.Prelude.{
  ℕ, zero, suc, ◌+◌, ◌-◌, ◌≤◌, ◌<◌, ◌≡◌, refl, ap, sym, ◌∙◌, false, List, [], ◌∷◌, ◌++◌, length,
  take, drop, ◌==◌, leb, min, if◌then◌else◌, if-elim, arith, length-take, length-drop, Bool-cases,
  inl, inr, if_true, if_false, take_short, take_zero, take-over,
}
use openlake.Erasure.Codec.{Bytes}
use openlake.Erasure.Shards.{concat}
use openlake.Errors.{Result, ok, IoError}
use openlake.Streams.{is_empty}
use openlake.Streams.Skip
use openlake.Streams.Skip.{SkipTakeStream, window, dropped, skip_loop}
use openlake.Streams.Facts.{Gives, some_length, cut}

-- What is dropped of two lists in turn.
drop-over : (n : ℕ) (xs ys : Bytes) → n ≤ length xs → drop n (xs ++ ys) ≡ drop n xs ++ ys
drop-over zero xs ys h = refl
drop-over (suc n) [] ys h = absurd (omega arith)
drop-over (suc n) (x ∷ xs) ys h = drop-over n xs ys (omega arith)

drop-past : (n : ℕ) (xs ys : Bytes) → length xs ≤ n → drop n (xs ++ ys) ≡ drop (n - length xs) ys
drop-past n [] ys h = let same : n ≡ n - 0 = omega arith in ap (λ m. drop m ys) same
drop-past zero (x ∷ xs) ys h = absurd (omega arith)
drop-past (suc n) (x ∷ xs) ys h =
    let same : suc n - suc (length xs) ≡ n - length xs = omega arith in
    drop-past n xs ys (omega arith) ∙ ap (λ m. drop m ys) (sym same)

no_bytes : (skip n : ℕ) → take (suc n) (drop {A = ℕ} skip []) ≡ []
no_bytes zero n = refl
no_bytes (suc skip) n = refl

not_empty : (c : Bytes) → 0 < length c → is_empty c ≡ false
not_empty [] h = absurd (omega arith)
not_empty (x ∷ c) h = refl

module _ {S : Type 0} (read : S → Result IoError (Bytes × S)) where
  -- Nothing is left to give.
  skip_done :
      (fuel : ℕ) (s : SkipTakeStream S) → s.remaining ≡ 0 → skip_loop read (suc fuel) s ≡ ok ([], s)
  unfolding skip_loop
  skip_done fuel s h = if_true (s.remaining == 0) _ _ (ground arith)

  skip_end :
      (fuel : ℕ) (s : SkipTakeStream S) (t : S)
      → 0 < s.remaining
      → read s.inner ≡ ok ([], t)
      → skip_loop read (suc fuel) s ≡ ok ([], record s { inner = t })
  unfolding skip_loop
  skip_end fuel s t h r = if_false (s.remaining == 0) _ _ (ground arith) ∙ rw r refl

  -- A chunk that is skipped, and one that is not.
  skip_whole :
      (fuel : ℕ) (s : SkipTakeStream S) (c : Bytes) (t : S)
      → 0 < s.remaining
      → read s.inner ≡ ok (c, t)
      → is_empty c ≡ false
      → length c ≤ s.to_skip
      → skip_loop read (suc fuel) s
        ≡ skip_loop read fuel (record s { inner = t; to_skip = s.to_skip - length c })
  unfolding skip_loop
  skip_whole fuel s c t h r nonempty l =
      if_false (s.remaining == 0) _ _ (ground arith)
      ∙ rw r (
          if_false (is_empty c) _ _ nonempty
          ∙ if_true (leb (length c) s.to_skip) _ _ (ground arith))

  skip_part :
      (fuel : ℕ) (s : SkipTakeStream S) (c : Bytes) (t : S)
      → 0 < s.remaining
      → read s.inner ≡ ok (c, t)
      → is_empty c ≡ false
      → s.to_skip < length c
      → skip_loop read (suc fuel) s ≡ ok (window read s.to_skip s.remaining c t)
  unfolding skip_loop
  skip_part fuel s c t h r nonempty l =
      if_false (s.remaining == 0) _ _ (ground arith)
      ∙ rw r (
          if_false (is_empty c) _ _ nonempty
          ∙ if_false (leb (length c) s.to_skip) _ _ (ground arith))

  -- Two fuels that are enough give the same.
  skip_enough :
      (f g : ℕ) (cs : List Bytes) (s : SkipTakeStream S)
      → s.to_skip < f
      → s.to_skip < g
      → Gives read cs s.inner
      → skip_loop read f s ≡ skip_loop read g s
  skip_enough zero g cs s a b h = absurd (omega arith)
  skip_enough (suc f) zero cs s a b h = absurd (omega arith)
  skip_enough (suc f) (suc g) [] s a b (t, r) = elim (Bool-cases (s.remaining == 0)) [
    | inl done ↦ skip_done f s (ground arith) ∙ sym (skip_done g s (ground arith))
    | inr more ↦ skip_end f s t (ground arith) r ∙ sym (skip_end g s t (ground arith) r)
  ]
  skip_enough (suc f) (suc g) (c ∷ cs) s a b (t, r, nonempty, h) =
      elim (Bool-cases (s.remaining == 0)) [
        | inl done ↦ skip_done f s (ground arith) ∙ sym (skip_done g s (ground arith))
        | inr more ↦ elim (Bool-cases (leb (length c) s.to_skip)) [
          | inr part ↦
              skip_part f s c t (ground arith) r nonempty (ground arith)
              ∙ sym (skip_part g s c t (ground arith) r nonempty (ground arith))
          | inl whole ↦
              let l : length c ≤ s.to_skip = ground arith in
              let p = some_length c nonempty in
              let next : SkipTakeStream S = record s {
                inner = t;
                to_skip = s.to_skip - length c;
              } in
              skip_whole f s c t (ground arith) r nonempty l
              ∙ skip_enough f g cs next (omega arith) (omega arith) h
              ∙ sym (skip_whole g s c t (ground arith) r nonempty l)
        ]
      ]

  Gives-head :
      {T : Type 0} (next : T → Result IoError (Bytes × T)) (ds : List Bytes) (a b : T)
      → next a ≡ next b
      → Gives next ds b
      → Gives next ds a
  Gives-head next [] a b e (t, r) = (t, e ∙ r)
  Gives-head next (d ∷ ds) a b e (t, r, some_bytes, g) = (t, e ∙ r, some_bytes, g)

  dropped_lem : (n : ℕ) (c : Bytes) → dropped read n c ≡ drop n c
  dropped_lem zero c = refl
  dropped_lem (suc n) c = if_false (suc n == 0) _ _ (ground arith)

  kept_lem :
      (n : ℕ) (kept : Bytes)
      → (if min n (length kept) == length kept then kept else take (min n (length kept)) kept)
        ≡ take n kept
  kept_lem n kept =
      if-elim (λ p. p ≡ take n kept) (min n (length kept) == length kept) _ _
        (λ all. sym (take_short n kept (ground arith))) (λ _. cut n kept)

  window_lem :
      (skip n : ℕ) (c : Bytes) (t : S)
      → window read skip n c t ≡ (
        take n (drop skip c),
        record { inner = t; to_skip = 0; remaining = n - length (take n (drop skip c)) },
      )
  window_lem skip n c t =
      ap
        (λ kept. (
          if min n (length kept) == length kept then kept else take (min n (length kept)) kept,
          record { inner = t; to_skip = 0; remaining = n - min n (length kept) },
        ))
        (dropped_lem skip c)
      ∙ ap
          (λ p.
            (p, record { inner = t; to_skip = 0; remaining = n - min n (length (drop skip c)) }))
          (kept_lem n (drop skip c))
      ∙ ap (λ m. (take n (drop skip c), record { inner = t; to_skip = 0; remaining = n - m }))
          (sym (length-take n (drop skip c)))

  -- The first read, where the first chunk is skipped.
  read_whole :
      (cs : List Bytes) (s t : S) (c : Bytes) (skip n : ℕ)
      → 0 < n
      → read s ≡ ok (c, t)
      → is_empty c ≡ false
      → length c ≤ skip
      → Gives read cs t
      → Skip.read read (Skip.new s skip n) ≡ Skip.read read (Skip.new t (skip - length c) n)
  unfolding Skip.read Skip.new
  read_whole cs s t c skip n m r nonempty l g =
      let p = some_length c nonempty in
      let next : skip + 1 ≡ suc skip = omega arith in
      ap (λ f. skip_loop read f (Skip.new s skip n)) next
      ∙ skip_whole skip (Skip.new s skip n) c t m r nonempty l
      ∙ skip_enough skip (skip - length c + 1) cs (Skip.new t (skip - length c) n) (omega arith)
          (omega arith) g

  read_none : (s : S) (skip : ℕ) → Skip.read read (Skip.new s skip 0) ≡ ok ([], Skip.new s skip 0)
  unfolding Skip.read Skip.new
  read_none s skip =
      let next : skip + 1 ≡ suc skip = omega arith in
      ap (λ f. skip_loop read f (Skip.new s skip 0)) next ∙ skip_done skip (Skip.new s skip 0) refl

  read_end :
      (s t : S) (skip n : ℕ)
      → read s ≡ ok ([], t)
      → Skip.read read (Skip.new s skip (suc n)) ≡ ok ([], Skip.new t skip (suc n))
  unfolding Skip.read Skip.new
  read_end s t skip n r =
      let next : skip + 1 ≡ suc skip = omega arith in
      ap (λ f. skip_loop read f (Skip.new s skip (suc n))) next
      ∙ skip_end skip (Skip.new s skip (suc n)) t (omega arith) r

  -- The first read, where a part of the first chunk is in the window.
  read_part :
      (s t : S) (c : Bytes) (skip n : ℕ)
      → read s ≡ ok (c, t)
      → is_empty c ≡ false
      → skip < length c
      → Skip.read read (Skip.new s skip (suc n))
        ≡ ok
            (take (suc n) (drop skip c), Skip.new t 0 (suc n - length (take (suc n) (drop skip c))))
  unfolding Skip.read Skip.new
  read_part s t c skip n r nonempty l =
      let next : skip + 1 ≡ suc skip = omega arith in
      ap (λ f. skip_loop read f (Skip.new s skip (suc n))) next
      ∙ skip_part skip (Skip.new s skip (suc n)) c t (omega arith) r nonempty l
      ∙ ap ok (window_lem skip (suc n) c t)

  -- A stream over the window gives chunks that make up just its bytes.
  pub Gives-window :
      (cs : List Bytes) (s : S) (skip n : ℕ)
      → Gives read cs s
      → (ds : List Bytes) × Gives (Skip.read read) ds (Skip.new s skip n)
        × (concat ds ≡ take n (drop skip (concat cs)))
  unfolding concat
  Gives-window cs s skip zero g =
      ([], (Skip.new s skip zero, read_none s skip), sym (take_zero 0 (drop skip (concat cs)) refl))
  Gives-window [] s skip (suc n) (t, r) =
      ([], (Skip.new t skip (suc n), read_end s t skip n r), sym (no_bytes skip n))
  Gives-window (c ∷ cs) s skip (suc n) (t, r, nonempty, g) =
      elim (Bool-cases (leb (length c) skip)) [
        | inl whole ↦
            let (ds, h, e) = Gives-window cs t (skip - length c) (suc n) g in
            (
              ds,
              Gives-head (Skip.read read) ds _ _
                  (read_whole cs s t c skip (suc n) (omega arith) r nonempty (ground arith) g) h,
              e ∙ ap (take (suc n)) (sym (drop-past skip c (concat cs) (ground arith))),
            )
        | inr part ↦
            let kept = drop skip c in
            let piece = take (suc n) kept in
            let l : skip < length c = ground arith in
            let (ds, h, e) = Gives-window cs t 0 (suc n - length piece) g in
            (
              piece ∷ ds,
              (
                Skip.new t 0 (suc n - length piece),
                read_part s t c skip n r nonempty l,
                not_empty piece (omega (arith, length-take (suc n) kept, length-drop skip c)),
                h,
              ),
              ap (λ x. piece ++ x) e
                  ∙ sym (take-over (suc n) kept (concat cs))
                  ∙ ap (take (suc n)) (sym (drop-over skip c (concat cs) (omega arith))),
            )
      ]
