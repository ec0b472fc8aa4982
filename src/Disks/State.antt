-- ===== src/Disks/State.antt =====
-- crates/openlake_io/src/local_fs.rs: the directories of an object, and steps of I/O on them.
use openlake.Prelude.{
  String, Bool, false, ◌||◌, Option, none, some, List, [], ◌∷◌, if◌then◌else◌, string_eq,
}
use openlake.Erasure.Codec.{Bytes}
use openlake.Errors.{Result, ok, err, IoError, volume_not_found, io, other}

-- The files `xl.meta` and `xl.meta.bkp`, and the directories of shards, whose content is not read here.
pub record ObjectDir : Type 0 where
  pub meta : Option Bytes
  pub backup : Option Bytes
  pub shards : List (String × Bytes)

abbrev pub empty_dir : ObjectDir
empty_dir = record { meta = none; backup = none; shards = [] }

-- The directory as `create_dir_all` leaves it.
abbrev pub opened : Option ObjectDir → ObjectDir
opened none = empty_dir
opened (some dir) = dir

-- The volumes, and the directories of the object and of its write, if they are there.
pub record Disk : Type 0 where
  pub volumes : List String
  pub live : Option ObjectDir
  pub staged : Option ObjectDir

-- The calls to the operating system that can fail.
pub data Step : Type 0 where
  stat_volume read_meta make_staged write_staged stat_data make_data_parent move_data : Step
  make_backup_parent write_backup make_parent commit sync remove_staged : Step
  remove_meta remove_backup restore trash_data trash_object make_object write_temporary : Step

-- A failure: its message, and what a write that fails leaves in the file.
pub record Fault : Type 0 where
  pub message : String
  pub left : Bytes

-- What the disk does: which of the steps fail.
abbrev pub Faults : Type 0
Faults = Step → Option Fault

abbrev pub Io : Type 0 → Type 0
Io A = Disk → Result IoError A × Disk

abbrev pub and_then :
    {A B : Type 0} → Result IoError A × Disk → (A → Io B) → Result IoError B × Disk
and_then (ok a, d) f = f a d
and_then (err e, d) f = (err e, d)

infixl 5 ◌>>=◌ ◌>>◌
abbrev pub ◌>>=◌ : {A B : Type 0} → Io A → (A → Io B) → Io B
m >>= f = λ d. and_then (m d) f

abbrev pub ◌>>◌ : {B : Type 0} → Io (Unit {0}) → Io B → Io B
m >> k = λ d. and_then (m d) (λ _. k)

abbrev pub done : {A : Type 0} → A → Io A
done a d = (ok a, d)

abbrev pub lift : {A : Type 0} → Result IoError A → Io A
lift r d = (r, d)

-- A step that fails leaves the disk as `torn` has it, of what the write left.
abbrev pub attempt : Option Fault → (torn : Bytes → Disk → Disk) → (Disk → Disk) → Io (Unit {0})
attempt none torn f d = (ok tt, f d)
attempt (some x) torn f d = (err (io other x.message), torn x.left d)

abbrev pub untorn : Bytes → Disk → Disk
untorn left d = d

-- A step whose failure is ignored.
abbrev pub best_effort : Option Fault → (Disk → Disk) → Io (Unit {0})
best_effort none f d = (ok tt, f d)
best_effort (some x) f d = (ok tt, d)

abbrev pub staging_vol : String
staging_vol = ".openlake.staging"

abbrev pub multipart_vol : String
multipart_vol = ".openlake.multipart"

abbrev pub system_bucket : String
system_bucket = ".openlake.sys"

unfoldable pub is_system_vol : String → Bool
is_system_vol volume =
    string_eq.beq volume staging_vol
    || (string_eq.beq volume multipart_vol || string_eq.beq volume system_bucket)

unfoldable pub contains : String → List String → Bool
contains v [] = false
contains v (w ∷ ws) = string_eq.beq w v || contains v ws

-- A system volume is made on demand.
unfoldable pub require_vol : Faults → String → Io (Unit {0})
unfolding is_system_vol contains
require_vol fault volume = do
  attempt (fault stat_volume) untorn (λ d. d)
  λ d. (
    if is_system_vol volume || contains volume d.volumes
        then ok tt
        else err (volume_not_found volume),
    d,
  )
