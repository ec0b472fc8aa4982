-- ===== src/XlMeta/RoundTrip/Pairs.antt =====
-- Two lists related element by element, through the stable sort of decoding.
use openlake.Prelude.{
  ℕ, suc, ◌≡◌, refl, ap, ◌∙◌, Bool, true, false, List, [], ◌∷◌, length, ltb, if◌then◌else◌, if-elim,
}
use openlake.XlMeta.Decode.{insert_newest, sort_newest}

module _ {A B : Type 0} (R : A → B → Type 0) where
  abbrev pub AllPairs : List A → List B → Type 0
  AllPairs [] [] = Unit
  AllPairs [] (y ∷ ys) = ⊥
  AllPairs (x ∷ xs) [] = ⊥
  AllPairs (x ∷ xs) (y ∷ ys) = R x y × AllPairs xs ys

  AllPairs-if :
      (b c : Bool) (xs us : List A) (ys ws : List B)
      → b ≡ c
      → AllPairs xs ys
      → AllPairs us ws
      → AllPairs (if b then xs else us) (if c then ys else ws)
  AllPairs-if true true xs us ys ws h p q = p
  AllPairs-if true false xs us ys ws h p q = absurd (cc h)
  AllPairs-if false true xs us ys ws h p q = absurd (cc h)
  AllPairs-if false false xs us ys ws h p q = q

  pub AllPairs-length : (xs : List A) (ys : List B) → AllPairs xs ys → length xs ≡ length ys
  AllPairs-length [] [] h = refl
  AllPairs-length [] (y ∷ ys) h = absurd h
  AllPairs-length (x ∷ xs) [] h = absurd h
  AllPairs-length (x ∷ xs) (y ∷ ys) h = ap suc (AllPairs-length xs ys h.1)

  module _ (f : A → ℕ) (g : B → ℕ) (same : (x : A) (y : B) → R x y → f x ≡ g y) where
    insert_newest-AllPairs :
        (x : A) (y : B) (xs : List A) (ys : List B)
        → R x y
        → AllPairs xs ys
        → AllPairs (insert_newest f x xs) (insert_newest g y ys)
    unfolding insert_newest
    insert_newest-AllPairs x y [] [] r h = (r, tt)
    insert_newest-AllPairs x y [] (w ∷ ys) r h = absurd h
    insert_newest-AllPairs x y (u ∷ xs) [] r h = absurd h
    insert_newest-AllPairs x y (u ∷ xs) (w ∷ ys) r h =
        AllPairs-if (ltb (f x) (f u)) (ltb (g y) (g w)) _ _ _ _ (rw (same x y r, same u w h.0))
          (h.0, insert_newest-AllPairs x y xs ys r h.1) (r, h)

    pub sort_newest-AllPairs :
        (xs : List A) (ys : List B)
        → AllPairs xs ys
        → AllPairs (sort_newest f xs) (sort_newest g ys)
    unfolding sort_newest
    sort_newest-AllPairs [] [] h = tt
    sort_newest-AllPairs [] (y ∷ ys) h = absurd h
    sort_newest-AllPairs (x ∷ xs) [] h = absurd h
    sort_newest-AllPairs (x ∷ xs) (y ∷ ys) h =
        insert_newest-AllPairs x y _ _ h.0 (sort_newest-AllPairs xs ys h.1)

module _ {A : Type 0} (f : A → ℕ) where
  length-insert_newest : (x : A) (xs : List A) → length (insert_newest f x xs) ≡ suc (length xs)
  unfolding insert_newest
  length-insert_newest x [] = refl
  length-insert_newest x (y ∷ ys) =
      if-elim {A = List A} (λ l. length l ≡ suc (suc (length ys))) (ltb (f x) (f y)) _ _
        (λ _. ap suc (length-insert_newest x ys)) (λ _. refl)

  pub length-sort_newest : (xs : List A) → length (sort_newest f xs) ≡ length xs
  unfolding sort_newest
  length-sort_newest [] = refl
  length-sort_newest (x ∷ xs) =
      length-insert_newest x (sort_newest f xs) ∙ ap suc (length-sort_newest xs)
