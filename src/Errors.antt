-- ===== src/Errors.antt =====
-- crates/openlake_io/src/error.rs and crates/openlake_storage/src/error.rs. A text that the source
-- builds with `format!` stands for its format string, without the arguments.
use openlake.Prelude.{ℕ, ◌≡◌, refl, subst, String, Bool, true, false, Option, none, some}

-- `std::io::ErrorKind`, with one constructor for the kinds that the engine does not tell apart.
pub data IoKind : Type 0 where
  connection_refused connection_timed_out unexpected_eof other : IoKind

pub data IoError : Type 0 where
  volume_not_found volume_exists volume_not_empty : String → IoError
  file_not_found file_already_exists : (volume path : String) → IoError
  file_version_not_found : (volume path version_id : String) → IoError
  corrupt_metadata : (volume path msg : String) → IoError
  unsupported_metadata_version : (found max : ℕ) → IoError
  bitrot_check_failed : (volume path : String) → IoError
  invalid_argument unsupported encode_error decode_error : String → IoError
  io : IoKind → String → IoError

pub data StorageError : Type 0 where
  bucket_not_found bucket_already_exists bucket_not_empty : String → StorageError
  object_not_found : (bucket key : String) → StorageError
  version_not_found : (bucket key version_id : String) → StorageError
  invalid_bucket_name invalid_object_key lock_timeout lock_lost : String → StorageError
  inconsistent_meta insufficient_online_drives : (bucket key msg : String) → StorageError
  io_error : IoError → StorageError

-- `Result<A, E>`
pub data Result {ℓ κ} (E : Type ℓ) (A : Type κ) : Type (ℓ ⊔ κ) where
  ok : A → Result E A
  err : E → Result E A

infixl 5 ◌>>=◌ ◌>>◌
abbrev pub ◌>>=◌ {ℓ κ ι} :
    {E : Type ℓ} {A : Type κ} {B : Type ι} → Result E A → (A → Result E B) → Result E B
ok a >>= f = f a
err e >>= f = err e

abbrev pub ◌>>◌ {ℓ κ} : {E : Type ℓ} {B : Type κ} → Result E (Unit {0}) → Result E B → Result E B
m >> k = m >>= λ _. k

-- `if !test { return Err(e) }`
abbrev pub guard {ℓ} : {E : Type ℓ} → Bool → E → Result E (Unit {0})
guard true e = ok tt
guard false e = err e

abbrev pub is_ok {ℓ κ} : {E : Type ℓ} {A : Type κ} → Result E A → Bool
is_ok (ok a) = true
is_ok (err e) = false

-- `Option::ok_or`
abbrev pub ok_or {ℓ κ} : {E : Type ℓ} {A : Type κ} → Option A → E → Result E A
ok_or none e = err e
ok_or (some a) e = ok a

abbrev pub map_err {ℓ κ ι} :
    {E : Type ℓ} {F : Type κ} {A : Type ι} → (E → F) → Result E A → Result F A
map_err f (ok a) = ok a
map_err f (err e) = err (f e)

-- What holds of the value, if there is one.
abbrev pub Yields {ℓ κ ι} : {E : Type ℓ} {A : Type κ} → (A → Type ι) → Result E A → Type ι
Yields P (ok a) = P a
Yields P (err e) = Unit

pub Yields-bind {ℓ κ ι μ ν} :
    {E : Type ℓ} {A : Type κ} {B : Type ι} {P : A → Type μ} (Q : B → Type ν) (m : Result E A)
    (f : A → Result E B)
    → Yields P m
    → ((a : A) → P a → Yields Q (f a))
    → Yields Q (m >>= f)
Yields-bind Q (ok a) f h k = k a h
Yields-bind Q (err e) f h k = tt

-- The same where nothing is known of the first value.
pub Yields-after {ℓ κ ι ν} :
    {E : Type ℓ} {A : Type κ} {B : Type ι} (Q : B → Type ν) (m : Result E A) (f : A → Result E B)
    → ((a : A) → m ≡ ok a → Yields Q (f a))
    → Yields Q (m >>= f)
Yields-after Q (ok a) f k = k a refl
Yields-after Q (err e) f k = tt

pub Yields-imp {ℓ κ μ ν} :
    {E : Type ℓ} {A : Type κ} {P : A → Type μ} {Q : A → Type ν} (m : Result E A)
    → ((a : A) → P a → Q a)
    → Yields P m
    → Yields Q m
Yields-imp (ok a) f h = f a h
Yields-imp (err e) f h = tt

pub Yields_ok {ℓ κ ι} :
    {E : Type ℓ} {A : Type κ} (P : A → Type ι) (m : Result E A) (a : A)
    → Yields P m
    → m ≡ ok a
    → P a
Yields_ok P (ok b) a h e = let same : b ≡ a = cc e in subst P same h
Yields_ok P (err b) a h e = absurd (cc e)

pub Yields-guard {ℓ κ ι} :
    {E : Type ℓ} {A : Type κ} (P : A → Type ι) (b : Bool) (e : E) (m : Result E A)
    → (b ≡ true → Yields P m)
    → Yields P (guard b e >> m)
Yields-guard P true e m h = h refl
Yields-guard P false e m h = tt
