-- ===== src/Streams/Facts.antt =====
-- crates/openlake_io/src/stream.rs: what the readers of a stream get of the bytes that it holds.
use openlake.Prelude.{
  ℕ, zero, suc, ◌+◌, ◌-◌, ◌≤◌, ◌<◌, ◌≡◌, refl, ap, sym, ◌∙◌, false, List, [], ◌∷◌, ◌++◌, length,
  take, ◌==◌, ltb, min, arith, length-append, length-take, Bool-cases, inl, inr, if_true, if_false,
  take_short, take_zero, take-over,
}
use mathlib.Core.List.{append_assoc, append-nil}
use openlake.Erasure.Codec.{Bytes}
use openlake.Erasure.Shards.{concat}
use openlake.Errors.{Result, ok, IoError}
use openlake.Streams.{is_empty, fill, read_full}

-- The stream gives the chunks, none of them empty, and then ends.
abbrev pub Gives : {S : Type 0} → (S → Result IoError (Bytes × S)) → List Bytes → S → Type 0
Gives {S} read [] s = (t : S) × (read s ≡ ok ([], t))
Gives {S} read (c ∷ cs) s = (t : S) × (read s ≡ ok (c, t)) × (is_empty c ≡ false) × Gives read cs t

pub some_length : (c : Bytes) → is_empty c ≡ false → 0 < length c
some_length [] h = absurd (cc h)
some_length (x ∷ c) h = omega arith

pub cut : (n : ℕ) (xs : Bytes) → take (min n (length xs)) xs ≡ take n xs
cut n xs = elim (Bool-cases (ltb n (length xs))) [
  | inl less ↦ let same : min n (length xs) ≡ n = ground arith in ap (λ m. take m xs) same
  | inr all ↦
      let same : min n (length xs) ≡ length xs = ground arith in
      ap (λ m. take m xs) same
      ∙ take_short (length xs) xs (omega arith)
      ∙ sym (take_short n xs (ground arith))
]

module _ {S : Type 0} (read : S → Result IoError (Bytes × S)) where
  -- One round on a chunk.
  fill_chunk :
      (fuel want : ℕ) (filled c : Bytes) (s t : S)
      → length filled < want
      → read s ≡ ok (c, t)
      → is_empty c ≡ false
      → fill read (suc fuel) want filled s
        ≡ fill read fuel want (filled ++ take (want - length filled) c) t
  unfolding fill
  fill_chunk fuel want filled c s t l r nonempty =
      if_true (ltb (length filled) want) _ _ (ground arith)
      ∙ rw r (if_false (is_empty c) _ _ nonempty)
      ∙ ap (λ p. fill read fuel want (filled ++ p) t) (cut (want - length filled) c)

  fill_end :
      (fuel want : ℕ) (filled : Bytes) (s t : S)
      → length filled < want
      → read s ≡ ok ([], t)
      → fill read (suc fuel) want filled s ≡ ok (filled, t)
  unfolding fill
  fill_end fuel want filled s t l r =
      if_true (ltb (length filled) want) _ _ (ground arith) ∙ rw r refl

  fill_full :
      (fuel want : ℕ) (filled : Bytes) (s : S)
      → want ≤ length filled
      → fill read fuel want filled s ≡ ok (filled, s)
  unfolding fill
  fill_full zero want filled s l = refl
  fill_full (suc fuel) want filled s l = if_false (ltb (length filled) want) _ _ (ground arith)

  fill-take_full :
      (fuel want : ℕ) (filled rest : Bytes) (s : S)
      → want ≤ length filled
      → fill read fuel want filled s ≡ ok (filled ++ take (want - length filled) rest, s)
  fill-take_full fuel want filled rest s l =
      let nothing : take (want - length filled) rest ≡ [] = take_zero _ rest (omega arith) in
      fill_full fuel want filled s l
      ∙ ap (λ p. ok (p, s)) (sym (append-nil filled) ∙ ap (λ x. filled ++ x) (sym nothing))

  -- What one chunk adds, and what is filled after it.
  fill_split :
      (want : ℕ) (filled c rest : Bytes)
      → (filled ++ take (want - length filled) c)
          ++ take (want - length (filled ++ take (want - length filled) c)) rest
        ≡ filled ++ take (want - length filled) (c ++ rest)
  fill_split want filled c rest =
      let n = want - length filled in
      let same : want - length (filled ++ take n c) ≡ n - length (take n c) =
        omega (arith, length-append filled (take n c)) in
      append_assoc filled (take n c) _
      ∙ ap (λ m. filled ++ (take n c ++ take m rest)) same
      ∙ ap (λ x. filled ++ x) (sym (take-over n c rest))

  fill-take :
      (fuel want : ℕ) (filled : Bytes) (cs : List Bytes) (s : S)
      → want ≤ length filled + fuel
      → Gives read cs s
      → (t : S) × (fill read fuel want filled s
          ≡ ok (filled ++ take (want - length filled) (concat cs), t))
  unfolding concat
  fill-take zero want filled cs s b g =
      (s, fill-take_full zero want filled (concat cs) s (omega arith))
  fill-take (suc fuel) want filled [] s b (t, r) = elim (Bool-cases (ltb (length filled) want)) [
    | inr all ↦ (s, fill-take_full (suc fuel) want filled [] s (ground arith))
    | inl short ↦ (
      t,
      fill_end fuel want filled s t (ground arith) r
          ∙ ap (λ p. ok (p, t))
              (sym (append-nil filled)
                ∙ ap (λ x. filled ++ x) (sym (take_short (want - length filled) [] (omega arith)))),
    )
  ]
  fill-take (suc fuel) want filled (c ∷ cs) s b (t, r, nonempty, g) =
      elim (Bool-cases (ltb (length filled) want)) [
        | inr all ↦ (s, fill-take_full (suc fuel) want filled (c ++ concat cs) s (ground arith))
        | inl short ↦
            let n = want - length filled in
            let less : length filled < want = ground arith in
            let enough : want ≤ length (filled ++ take n c) + fuel =
              omega
                (arith, length-append filled (take n c), length-take n c, some_length c nonempty) in
            let (u, h) = fill-take fuel want (filled ++ take n c) cs t enough g in
            (
              u,
              fill_chunk fuel want filled c s t less r nonempty
                  ∙ h
                  ∙ ap (λ p. ok (p, u)) (fill_split want filled c (concat cs)),
            )
      ]

  -- `read_full` fills the buffer with the bytes that the stream holds, as far as they go.
  pub read_full-take :
      (want : ℕ) (cs : List Bytes) (s : S)
      → Gives read cs s
      → (t : S) × (read_full read want s ≡ ok (take want (concat cs), t))
  unfolding read_full
  read_full-take want cs s g = elim (Bool-cases (want == 0)) [
    | inl none_wanted ↦ (
      s,
      if_true (want == 0) _ _ none_wanted
          ∙ ap (λ p. ok (p, s)) (sym (take_zero want (concat cs) (ground arith))),
    )
    | inr some_wanted ↦
        let (t, h) = fill-take want want [] cs s (omega arith) g in
        let whole : want - 0 ≡ want = omega arith in
        (t, if_false (want == 0) _ _ some_wanted ∙ h ∙ ap (λ n. ok (take n (concat cs), t)) whole)
  ]
