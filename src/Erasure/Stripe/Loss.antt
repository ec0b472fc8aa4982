-- ===== src/Erasure/Stripe/Loss.antt =====
-- The round trip through a loss of shards, over any codec that keeps its promise.
use native.Mathlib.Nat.{mul-div_cancel_left, mul-mod_right}
use openlake.Prelude.{
  ℕ, suc, ◌+◌, ◌*◌, ◌/◌, ◌%◌, ◌≤◌, ◌<◌, ◌≡◌, refl, sym, subst, ap, ◌∙◌, true, not, ◌||◌, Option,
  none, some, List, [], ◌∷◌, ◌++◌, length, length-append, take, drop, count, count-le-length,
  get_elem?, All, arith, ◌==◌, ==_iff, if-elim,
}
use openlake.Errors.{ok}
use openlake.Erasure.Codec.{Codec, Recovers, Bytes, HasUnit, Survives, is_some}
use openlake.Erasure.Shards.{
  cut, concat, length-cut, cut-HasUnit, concat-cut, Survives-split, Survives-length,
  count-take-drop,
}
use openlake.Erasure.Stripe.{
  Erasure, encode_stripe, decode_stripe, collect, lengths_ok, fill_in, present, reconstruct,
}

collect_lem :
    (f : ℕ → Option Bytes) (i : ℕ) (ys : List Bytes)
    → ((k : ℕ) → f (i + k) ≡ get_elem? ys k)
    → collect f i (length ys) ≡ ok ys
unfolding collect
collect_lem f i [] h = refl
collect_lem f i (y ∷ ys) h =
    rw (first, collect_lem f (suc i) ys (λ k. ap f (omega arith) ∙ h (suc k)))
  where
    first : f i ≡ some y
    first = ap f (omega arith) ∙ h 0

present_lem :
    (xs : List Bytes) (os : List (Option Bytes))
    → Survives xs os
    → count is_some os ≡ length xs
    → present os ≡ xs
unfolding present
present_lem [] [] s h = refl
present_lem [] (o ∷ os) s h = absurd s
present_lem (x ∷ xs) [] s h = absurd s
present_lem (x ∷ xs) (none ∷ os) s h =
    absurd (omega (arith, count-le-length is_some os, Survives-length xs os s.1))
present_lem (x ∷ xs) (some b ∷ os) (s, t) h = ground (arith, present_lem xs os t)

lengths_ok_lem :
    (unit : ℕ) (xs : List Bytes) (os : List (Option Bytes))
    → Survives xs os
    → All (HasUnit unit) xs
    → lengths_ok unit os ≡ true
unfolding lengths_ok
lengths_ok_lem unit [] [] s h = refl
lengths_ok_lem unit [] (o ∷ os) s h = absurd s
lengths_ok_lem unit (x ∷ xs) [] s h = absurd s
lengths_ok_lem unit (x ∷ xs) (none ∷ os) (s, t) (u, us) = lengths_ok_lem unit xs os t us
lengths_ok_lem unit (x ∷ xs) (some b ∷ os) (s, t) (u, us) =
    ground (arith, lengths_ok_lem unit xs os t us)

fill_in_lem :
    (f : ℕ → Option Bytes) (i : ℕ) (xs : List Bytes) (os : List (Option Bytes))
    → Survives xs os
    → ((k : ℕ) (d : Bytes)
        → get_elem? xs k ≡ some d
        → get_elem? os k ≡ some none
        → f (i + k) ≡ some d)
    → fill_in f i os ≡ ok xs
unfolding fill_in
fill_in_lem f i [] [] s h = refl
fill_in_lem f i [] (o ∷ os) s h = absurd s
fill_in_lem f i (x ∷ xs) [] s h = absurd s
fill_in_lem f i (x ∷ xs) (none ∷ os) (s, t) h =
    rw (here, fill_in_lem f (suc i) xs os t (λ k d a b. ap f (omega arith) ∙ h (suc k) d a b))
  where
    here : f i ≡ some x
    here = ap f (omega arith) ∙ h 0 x refl refl
fill_in_lem f i (x ∷ xs) (some b ∷ os) (s, t) h =
    rw (fill_in_lem f (suc i) xs os t (λ k d a b. ap f (omega arith) ∙ h (suc k) d a b))
      (ground arith)

module _ (c : Codec) (ec : Erasure) (unit : ℕ)
    (good : Recovers c ec.data_shards ec.parity_shards unit) where
  -- What a stripe is encoded to: its cuts, and their recovery shards.
  pub encode_stripe_ok :
      (stripe : Bytes)
      → 0 < ec.data_shards
      → 0 < unit
      → unit % 2 ≡ 0
      → length stripe ≡ ec.data_shards * unit
      → encode_stripe c ec stripe
        ≡ ok (cut ec.data_shards unit stripe ++ good.recoveries (cut ec.data_shards unit stripe))
  unfolding encode_stripe cut
  encode_stripe_ok stripe n0 u0 even len =
      rw (whole, quotient, pairs, good.supported, enc.2)
        (rw (sym enc.0, collect_lem (get_elem? par) 0 par (λ k. ap (get_elem? par) (omega arith))))
    where
      n : ℕ
      n = ec.data_shards

      quotient : length stripe / n ≡ unit
      quotient = rw len (mul-div_cancel_left unit n0)

      rest : length stripe % n ≡ 0
      rest = rw len (mul-mod_right n unit)

      positive : 0 < length stripe
      positive = rw len (grind arith)

      whole : not (length stripe == 0 || not (length stripe % n == 0)) ≡ true
      whole = ground (arith, rest, positive)

      pairs : (unit % 2 == 0) ≡ true
      pairs = ground arith

      par : List Bytes
      par = good.recoveries (cut n unit stripe)

      enc :
          (length par ≡ ec.parity_shards)
          × All (HasUnit unit) par
          × (c.encode n ec.parity_shards unit (cut n unit stripe) ≡ some (get_elem? par))
      enc =
          good.encodes (cut n unit stripe) (length-cut n unit stripe)
            (cut-HasUnit n unit stripe len)

  -- The slots of the originals and of the parities, when at least one original is lost.
  reconstruct_lem :
      (shards : List Bytes) (slots : List (Option Bytes))
      → length shards ≡ ec.data_shards
      → All (HasUnit unit) shards
      → Survives shards (take ec.data_shards slots)
      → Survives (good.recoveries shards) (drop ec.data_shards slots)
      → ec.data_shards ≤ count is_some slots
      → reconstruct c ec slots unit ≡ ok shards
  unfolding reconstruct
  reconstruct_lem shards slots len us so sp q =
      rw
        (
          good.supported,
          lengths_ok_lem unit shards (take ec.data_shards slots) so us,
          lengths_ok_lem unit (good.recoveries shards) (drop ec.data_shards slots) sp enc.1,
          good.decodes shards (take ec.data_shards slots) (drop ec.data_shards slots) len us so sp
              enough,
        )
        (fill_in_lem (good.restored (take ec.data_shards slots) (drop ec.data_shards slots)) 0
          shards (take ec.data_shards slots) so
          (λ k d a b.
            ap (good.restored (take ec.data_shards slots) (drop ec.data_shards slots)) (omega arith)
            ∙ good.restores shards (take ec.data_shards slots) (drop ec.data_shards slots) k d len
                us so sp enough a b))
    where
      enc :
          (length (good.recoveries shards) ≡ ec.parity_shards)
          × All (HasUnit unit) (good.recoveries shards)
          × (c.encode ec.data_shards ec.parity_shards unit shards
              ≡ some (get_elem? (good.recoveries shards)))
      enc = good.encodes shards len us

      enough :
          ec.data_shards
          ≤ count is_some (take ec.data_shards slots) + count is_some (drop ec.data_shards slots)
      enough = omega (arith, count-take-drop ec.data_shards slots)

  -- Whatever shards are lost, as many as there are data shards bring the data shards back: `slots`
  -- holds each data and each recovery shard unchanged or not at all, and at least `data_shards`.
  pub decode_stripe_survivors :
      (shards : List Bytes) (slots : List (Option Bytes))
      → 0 < unit
      → unit % 2 ≡ 0
      → length shards ≡ ec.data_shards
      → All (HasUnit unit) shards
      → Survives (shards ++ good.recoveries shards) slots
      → ec.data_shards ≤ count is_some slots
      → decode_stripe c ec slots unit ≡ ok shards
  unfolding decode_stripe
  decode_stripe_survivors shards slots u0 even len us sv q =
      rw (size, pairs)
        (if-elim (λ r. r ≡ ok shards) (count is_some (take ec.data_shards slots) == ec.data_shards)
          _ _
          (λ full. ap ok (
            present_lem shards (take ec.data_shards slots) parts.0 ((==_iff _ _).0 full ∙ sym len)))
          (λ _. reconstruct_lem shards slots len us parts.0 parts.1 q))
    where
      parts :
          Survives shards (take ec.data_shards slots)
          × Survives (good.recoveries shards) (drop ec.data_shards slots)
      parts = rw (sym len) (Survives-split shards (good.recoveries shards) slots sv)

      size : (length slots == ec.data_shards + ec.parity_shards) ≡ true
      size = ground (
        arith,
        Survives-length (shards ++ good.recoveries shards) slots sv,
        length-append shards (good.recoveries shards),
        (good.encodes shards len us).0,
      )

      pairs : not (unit == 0 || not (unit % 2 == 0)) ≡ true
      pairs = ground arith

  -- The round trip of a stripe: where `slots` is what is left of the encoded shards, each unchanged or
  -- lost, and at least `data_shards` are left, the decoded shards make up the stripe. The stripe
  -- holds `data_shards` units of a positive, even length.
  pub decode_stripe-encode_stripe :
      (stripe : Bytes) (shards : List Bytes) (slots : List (Option Bytes))
      → 0 < ec.data_shards
      → 0 < unit
      → unit % 2 ≡ 0
      → length stripe ≡ ec.data_shards * unit
      → encode_stripe c ec stripe ≡ ok shards
      → Survives shards slots
      → ec.data_shards ≤ count is_some slots
      → (decoded : List Bytes) × (decode_stripe c ec slots unit ≡ ok decoded)
        × (concat decoded ≡ stripe)
  decode_stripe-encode_stripe stripe shards slots n0 u0 even len e sv q = (
    cut ec.data_shards unit stripe,
    decode_stripe_survivors (cut ec.data_shards unit stripe) slots u0 even
        (length-cut ec.data_shards unit stripe) (cut-HasUnit ec.data_shards unit stripe len)
        (subst (λ x. Survives x slots) same sv) q,
    concat-cut ec.data_shards unit stripe len,
  )
    where
      same :
          shards
          ≡ cut ec.data_shards unit stripe ++ good.recoveries (cut ec.data_shards unit stripe)
      same = cc (encode_stripe_ok stripe n0 u0 even len)
