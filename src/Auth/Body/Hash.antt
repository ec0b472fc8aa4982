-- ===== src/Auth/Body/Hash.antt =====
-- crates/openlake_server/src/auth.rs: a body with a declared hash is read to its end only if it has it.
use openlake.Prelude.{
  ◌≡◌, refl, ap, sym, ◌∙◌, true, false, not, List, [], ◌∷◌, ◌++◌, length, ◌==◌, if-elim,
}
use mathlib.Core.List.{append_assoc, append-nil}
use openlake.Erasure.Codec.{Bytes}
use openlake.Erasure.Shards.{concat}
use openlake.Errors.{ok, Yields, Yields-after, Yields_ok}
use openlake.Auth.Text.{is_empty, to_ascii_lowercase}
use openlake.Auth.Verify.{constant_time_eq}
use openlake.Auth.Compare.{constant_time_eq_lem}
use openlake.Auth.Body.Frames
use openlake.Auth.Body.Frames.{AxumBodyStream, Fault}
use openlake.Auth.Body.Hashed
use openlake.Auth.Body.Hashed.{Sha256VerifyStream, after_read}

module _ (sha256_hex : Bytes → Bytes) where
  -- One read: bytes, which are hashed, or the end, where the hash is the declared one.
  record IsRead (s : Sha256VerifyStream) (r : Bytes × Sha256VerifyStream) : Type 0 where
    declared : r.1.expected ≡ s.expected
    hashed : is_empty r.0 ≡ false → (r.1.hasher ≡ s.hasher ++ r.0) × (r.1.eof ≡ s.eof)
    checked : is_empty r.0 ≡ true → sha256_hex s.hasher ≡ s.expected

  after_read-IsRead :
      (s : Sha256VerifyStream) (r : Bytes × AxumBodyStream)
      → Yields (IsRead s) (after_read sha256_hex s r)
  unfolding after_read
  after_read-IsRead s ([], inner) =
      if-elim (Yields (IsRead s)) (constant_time_eq (sha256_hex s.hasher) s.expected) _ _
        (λ same. record {
          declared = refl;
          hashed = λ h. absurd (cc h);
          checked = λ _. (constant_time_eq_lem _ _).0 same;
        })
        (λ _. tt)
  after_read-IsRead s (b ∷ bs, inner) = record {
    declared = refl;
    hashed = λ _. (refl, refl);
    checked = λ h. absurd (cc h);
  }

  read-IsRead :
      (s : Sha256VerifyStream) → s.eof ≡ false → Yields (IsRead s) (Hashed.read sha256_hex s)
  unfolding Hashed.read
  read-IsRead s o =
      if-elim (Yields (IsRead s)) s.eof _ _ (λ e. absurd (cc (e, o)))
        λ _.
          Yields-after (IsRead s) (Frames.read s.inner) (after_read sha256_hex s)
            λ r _. after_read-IsRead s r

  -- The reads of a body: pieces that are not empty, and then the empty one.
  abbrev pub Drains : List Bytes → Sha256VerifyStream → Sha256VerifyStream → Type 0
  Drains [] s t = Hashed.read sha256_hex s ≡ ok ([], t)
  Drains (p ∷ ps) s t =
      (m : Sha256VerifyStream) × (Hashed.read sha256_hex s ≡ ok (p, m))
      × (is_empty p ≡ false)
      × Drains ps m t

  -- A body that is read to its end has, with what was hashed before, the hash that was declared.
  pub Drains-hash :
      (ps : List Bytes) (s t : Sha256VerifyStream)
      → s.eof ≡ false
      → Drains ps s t
      → sha256_hex (s.hasher ++ concat ps) ≡ s.expected
  unfolding concat
  Drains-hash [] s t o h =
      let r = Yields_ok (IsRead s) (Hashed.read sha256_hex s) ([], t) (read-IsRead s o) h in
      ap sha256_hex (append-nil s.hasher) ∙ r.checked refl
  Drains-hash (p ∷ ps) s t o (m, h, nonempty, rest) =
      let r = Yields_ok (IsRead s) (Hashed.read sha256_hex s) (p, m) (read-IsRead s o) h in
      let (fed, open') = r.hashed nonempty in
      ap sha256_hex (sym (append_assoc s.hasher p (concat ps)) ∙ ap (λ x. x ++ concat ps) (sym fed))
      ∙ Drains-hash ps m t (open' ∙ o) rest
      ∙ r.declared

  record IsNew (hex : Bytes) (s : Sha256VerifyStream) : Type 0 where
    declared : s.expected ≡ to_ascii_lowercase hex
    unfed : s.hasher ≡ []
    open' : s.eof ≡ false

  new-IsNew : (inner : AxumBodyStream) (hex : Bytes) → Yields (IsNew hex) (Hashed.new inner hex)
  unfolding Hashed.new
  new-IsNew inner hex =
      if-elim (Yields (IsNew hex)) (not (length hex == 64)) _ _ (λ _. tt)
        (λ _. record { declared = refl; unfed = refl; open' = refl })

  -- A body whose request declares a hash, and which is read to its end, has that hash.
  pub Drains-declared :
      (inner : AxumBodyStream) (hex : Bytes) (ps : List Bytes) (s t : Sha256VerifyStream)
      → Hashed.new inner hex ≡ ok s
      → Drains ps s t
      → sha256_hex (concat ps) ≡ to_ascii_lowercase hex
  Drains-declared inner hex ps s t h d =
      let n = Yields_ok (IsNew hex) (Hashed.new inner hex) s (new-IsNew inner hex) h in
      ap (λ x. sha256_hex (x ++ concat ps)) (sym n.unfed)
      ∙ Drains-hash ps s t n.open' d
      ∙ n.declared
