-- ===== src/Streams/Pump.antt =====
-- crates/openlake_io/src/stream.rs: `pump_n` into a `VecByteSink`.
use openlake.Prelude.{
  ℕ, zero, suc, ◌+◌, ◌-◌, ◌≤◌, ◌<◌, ◌≡◌, refl, ap, sym, ◌∙◌, false, List, [], ◌∷◌, ◌++◌, length,
  take, ltb, arith, length-append, length-take, Bool-cases, inl, inr, if_true, if_false, if-elim,
  take_short, take_zero, take-over,
}
use mathlib.Core.List.{append_assoc, append-nil}
use openlake.Erasure.Codec.{Bytes}
use openlake.Erasure.Shards.{concat}
use openlake.Errors.{Result, ok, err, IoError, io, unexpected_eof}
use openlake.Streams.{is_empty, write_vec, trimmed, pump, pump_n}
use openlake.Streams.Facts.{Gives, some_length}

abbrev pub ended : IoError
ended = io unexpected_eof "pump_n: source ended at {moved}/{size}"

module _ {S : Type 0} (read : S → Result IoError (Bytes × S)) where
  trimmed_lem :
      (size moved : ℕ) (c : Bytes)
      → moved ≤ size
      → trimmed read write_vec size moved c ≡ take (size - moved) c
  trimmed_lem size moved c l =
      if-elim (λ p. p ≡ take (size - moved) c) (ltb size (moved + length c)) _ _ (λ _. refl)
        (λ fits. sym (take_short (size - moved) c (ground arith)))

  pump_chunk :
      (fuel size moved : ℕ) (c w : Bytes) (s t : S)
      → moved < size
      → read s ≡ ok (c, t)
      → is_empty c ≡ false
      → pump read write_vec (suc fuel) size moved s w
        ≡ pump read write_vec fuel size
            (moved + length (take (size - moved) c))
            t
            (w ++ take (size - moved) c)
  unfolding pump write_vec
  pump_chunk fuel size moved c w s t l r nonempty =
      if_true (ltb moved size) _ _ (ground arith)
      ∙ rw r (if_false (is_empty c) _ _ nonempty)
      ∙ ap (λ p. pump read write_vec fuel size (moved + length p) t (w ++ p))
          (trimmed_lem size moved c (omega arith))

  pump_end :
      (fuel size moved : ℕ) (w : Bytes) (s t : S)
      → moved < size
      → read s ≡ ok ([], t)
      → pump read write_vec (suc fuel) size moved s w ≡ err ended
  unfolding pump
  pump_end fuel size moved w s t l r = if_true (ltb moved size) _ _ (ground arith) ∙ rw r refl

  pump_done :
      (fuel size moved : ℕ) (w : Bytes) (s : S)
      → size ≤ moved
      → pump read write_vec fuel size moved s w ≡ ok (s, w)
  unfolding pump
  pump_done zero size moved w s l = refl
  pump_done (suc fuel) size moved w s l = if_false (ltb moved size) _ _ (ground arith)

  pump-take_done :
      (fuel size moved : ℕ) (w rest : Bytes) (s : S)
      → size ≤ moved
      → pump read write_vec fuel size moved s w ≡ ok (s, w ++ take (size - moved) rest)
  pump-take_done fuel size moved w rest s l =
      pump_done fuel size moved w s l
      ∙ ap (λ p. ok (s, p))
          (sym (append-nil w)
            ∙ ap (λ x. w ++ x) (sym (take_zero (size - moved) rest (omega arith))))

  pump-take :
      (fuel size moved : ℕ) (w : Bytes) (cs : List Bytes) (s : S)
      → size ≤ moved + fuel
      → size ≤ moved + length (concat cs)
      → Gives read cs s
      → (t : S) × (pump read write_vec fuel size moved s w
          ≡ ok (t, w ++ take (size - moved) (concat cs)))
  unfolding concat
  pump-take zero size moved w cs s b l g =
      (s, pump-take_done zero size moved w (concat cs) s (omega arith))
  pump-take (suc fuel) size moved w [] s b l (t, r) =
      (s, pump-take_done (suc fuel) size moved w [] s (omega arith))
  pump-take (suc fuel) size moved w (c ∷ cs) s b l (t, r, nonempty, g) =
      elim (Bool-cases (ltb moved size)) [
        | inr all ↦ (s, pump-take_done (suc fuel) size moved w (c ++ concat cs) s (ground arith))
        | inl short ↦
            let n = size - moved in
            let less : moved < size = ground arith in
            let k = length (take n c) in
            let (u, h) =
              pump-take fuel size (moved + k) (w ++ take n c) cs t
                (omega (arith, length-take n c, some_length c nonempty))
                (omega (arith, length-take n c, length-append c (concat cs))) g in
            let left : size - (moved + k) ≡ n - k = omega arith in
            (
              u,
              pump_chunk fuel size moved c w s t less r nonempty
                  ∙ h
                  ∙ ap (λ p. ok (u, p))
                      (append_assoc w (take n c) (take (size - (moved + k)) (concat cs))
                        ∙ ap (λ m. w ++ (take n c ++ take m (concat cs))) left
                        ∙ ap (λ p. w ++ p) (sym (take-over n c (concat cs)))),
            )
      ]

  pump-short :
      (fuel size moved : ℕ) (w : Bytes) (cs : List Bytes) (s : S)
      → size ≤ moved + fuel
      → moved + length (concat cs) < size
      → Gives read cs s
      → pump read write_vec fuel size moved s w ≡ err ended
  unfolding concat
  pump-short zero size moved w cs s b l g = absurd (omega arith)
  pump-short (suc fuel) size moved w [] s b l (t, r) =
      pump_end fuel size moved w s t (omega arith) r
  pump-short (suc fuel) size moved w (c ∷ cs) s b l (t, r, nonempty, g) =
      let all : take (size - moved) c ≡ c =
        take_short (size - moved) c (omega (arith, length-append c (concat cs))) in
      pump_chunk fuel size moved c w s t (omega arith) r nonempty
      ∙ ap (λ p. pump read write_vec fuel size (moved + length p) t (w ++ p)) all
      ∙ pump-short fuel size (moved + length c) (w ++ c) cs t
          (omega (arith, some_length c nonempty)) (omega (arith, length-append c (concat cs))) g

  -- `pump_n` moves exactly the first `size` bytes of a stream that holds as many.
  pub pump_n-take :
      (size : ℕ) (w : Bytes) (cs : List Bytes) (s : S)
      → Gives read cs s
      → size ≤ length (concat cs)
      → (t : S) × (pump_n read write_vec size s w ≡ ok (t, w ++ take size (concat cs)))
  unfolding pump_n
  pump_n-take size w cs s g l =
      let (t, h) = pump-take size size 0 w cs s (omega arith) (omega arith) g in
      let whole : size - 0 ≡ size = omega arith in
      (t, h ∙ ap (λ n. ok (t, w ++ take n (concat cs))) whole)

  -- It fails on a stream that holds fewer bytes.
  pub pump_n-short :
      (size : ℕ) (w : Bytes) (cs : List Bytes) (s : S)
      → Gives read cs s
      → length (concat cs) < size
      → pump_n read write_vec size s w ≡ err ended
  unfolding pump_n
  pump_n-short size w cs s g l = pump-short size size 0 w cs s (omega arith) (omega arith) g
