-- ===== src/XlMeta/RoundTrip/Tail.antt =====
-- Every version's bytes stand in the tail where its record says.
use mathlib.Core.List.{append_assoc}
use openlake.Prelude.{
  ℕ, ◌+◌, ◌≤◌, ◌≡◌, refl, sym, subst, ap, ◌∙◌, List, [], ◌∷◌, ◌++◌, length, take, drop,
  length-append, take-append, drop-append, arith, ◌==◌, Bool-cases, if◌then◌else◌, inl, inr,
}
use openlake.Erasure.Codec.{Bytes}
use openlake.Erasure.Shards.{concat}
use openlake.Errors.{ok}
use openlake.Records.{FileInfo}
use openlake.XlMeta.Layout.{VersionRecord}
use openlake.XlMeta.Uuid.{parse_uuid_bytes}
use openlake.XlMeta.Checks.{frames_of, validate_for_encode}
use openlake.XlMeta.Encode.{
  full_frames, inline_size, stage, tail_frames, version_of, record_of, records_of, validate_all,
}
use openlake.XlMeta.RoundTrip.Validity.{bind_ok, seq_ok}
use openlake.XlMeta.RoundTrip.Pairs.{AllPairs}

abbrev pub bytes_of : FileInfo → Bytes
bytes_of fi = concat (frames_of fi.inline_data)

-- The record `v` is what is written of `fi`, whose bytes stand in the tail where the record says.
pub record Written (tail : Bytes) (fi : FileInfo) (v : VersionRecord) : Type 0 where
  pub id : Bytes
  pub dir : Bytes
  pub offset : ℕ
  pub parsed_id : parse_uuid_bytes fi.version_id ≡ ok id
  pub parsed_dir : parse_uuid_bytes fi.data_dir ≡ ok dir
  pub valid : validate_for_encode fi ≡ ok tt
  pub is_version : v ≡ version_of fi id dir offset (inline_size fi)
  pub fits : offset + inline_size fi ≤ length tail
  pub found : take (inline_size fi) (drop offset tail) ≡ bytes_of fi

concat-append : (xs ys : List Bytes) → concat (xs ++ ys) ≡ concat xs ++ concat ys
unfolding concat
concat-append [] ys = refl
concat-append (x ∷ xs) ys =
    ap (x ++◌) (concat-append xs ys) ∙ sym (append_assoc x (concat xs) (concat ys))

concat-full_frames : (fs : List Bytes) → concat (full_frames fs) ≡ concat fs
unfolding concat full_frames
concat-full_frames [] = refl
concat-full_frames ([] ∷ fs) = concat-full_frames fs
concat-full_frames ((b ∷ f) ∷ fs) = ap ((b ∷ f) ++◌) (concat-full_frames fs)

nothing : (b : Bytes) → length b ≡ 0 → b ≡ []
nothing [] h = refl
nothing (x ∷ b) h = absurd (omega (arith, h))

-- The bytes `c` after `pre`, at the position that is written for them.
abbrev place : (pre c : Bytes) → ℕ
place pre c = if length c == 0 then 0 else length pre

module _ (pre c rest : Bytes) where
  place-fits : place pre c + length c ≤ length (pre ++ (c ++ rest))
  place-fits = ground (arith, length-append pre (c ++ rest), length-append c rest)

  place-found : take (length c) (drop (place pre c) (pre ++ (c ++ rest))) ≡ c
  place-found = elim (Bool-cases (length c == 0)) [
    | inl t ↦ rw (nothing c (ground (arith, t)))
    | inr f ↦ rw (f, drop-append pre (c ++ rest), take-append c rest)
  ]

record_of-Written :
    (tail : Bytes) (fi : FileInfo) (v : VersionRecord) (offset : ℕ)
    → validate_for_encode fi ≡ ok tt
    → record_of fi (offset, inline_size fi) ≡ ok v
    → offset + inline_size fi ≤ length tail
    → take (inline_size fi) (drop offset tail) ≡ bytes_of fi
    → Written tail fi v
unfolding record_of
record_of-Written tail fi v offset valid h fits found =
    let (id, parsed_id, h1) = bind_ok (parse_uuid_bytes fi.version_id) _ v h in
    let (dir, parsed_dir, h2) = bind_ok (parse_uuid_bytes fi.data_dir) _ v h1 in
    record {
      id = id;
      dir = dir;
      offset = offset;
      parsed_id = parsed_id;
      parsed_dir = parsed_dir;
      valid = valid;
      is_version = cc h2;
      fits = fits;
      found = found;
    }

tail_after :
    (pre : Bytes) (fi : FileInfo) (fis : List FileInfo)
    → pre ++ concat (tail_frames (fi ∷ fis)) ≡ pre ++ (bytes_of fi ++ concat (tail_frames fis))
unfolding tail_frames
tail_after pre fi fis = ap (pre ++◌) (
    concat-append (full_frames (frames_of fi.inline_data)) (tail_frames fis)
    ∙ ap (λ c. c ++ concat (tail_frames fis)) (concat-full_frames (frames_of fi.inline_data)))

next_place :
    (pre : Bytes) (fi : FileInfo) → length (pre ++ bytes_of fi) ≡ length pre + inline_size fi
unfolding inline_size
next_place pre fi = length-append pre (bytes_of fi)

-- The records that are written of `fis` after the bytes `pre`.
pub records_of-Written :
    (pre tail : Bytes) (fis : List FileInfo) (vs : List VersionRecord)
    → validate_all fis ≡ ok tt
    → records_of fis (stage (length pre) fis) ≡ ok vs
    → tail ≡ pre ++ concat (tail_frames fis)
    → AllPairs (Written tail) fis vs
unfolding records_of stage validate_all inline_size
records_of-Written pre tail [] [] valid h t = tt
records_of-Written pre tail [] (v ∷ vs) valid h t = absurd (cc h)
records_of-Written pre tail (fi ∷ fis) vs valid h t =
    let (fine, fine_rest) = seq_ok (validate_for_encode fi) (validate_all fis) valid in
    let (v, made, h1) = bind_ok (record_of fi (place pre (bytes_of fi), inline_size fi)) _ vs h in
    let (rest, made_rest, h2) =
      bind_ok (records_of fis (stage (length pre + inline_size fi) fis)) _ vs h1 in
    let all : pre ++ (bytes_of fi ++ concat (tail_frames fis)) ≡ tail =
      sym (t ∙ tail_after pre fi fis) in
    let first : Written tail fi v =
      record_of-Written tail fi v (place pre (bytes_of fi)) fine made
        (subst (λ b. place pre (bytes_of fi) + inline_size fi ≤ length b) all
          (place-fits pre (bytes_of fi) (concat (tail_frames fis))))
        (subst (λ b. take (inline_size fi) (drop (place pre (bytes_of fi)) b) ≡ bytes_of fi) all
          (place-found pre (bytes_of fi) (concat (tail_frames fis)))) in
    let others : AllPairs (Written tail) fis rest =
      records_of-Written (pre ++ bytes_of fi) tail fis rest fine_rest
        (subst (λ n. records_of fis (stage n fis) ≡ ok rest) (sym (next_place pre fi)) made_rest)
        (sym all ∙ sym (append_assoc pre (bytes_of fi) (concat (tail_frames fis)))) in
    let same : v ∷ rest ≡ vs = cc h2 in
    subst (AllPairs (Written tail) (fi ∷ fis)) same (first, others)
