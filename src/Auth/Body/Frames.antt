-- ===== src/Auth/Body/Frames.antt =====
-- crates/openlake_server/src/s3/body_source.rs: `AxumBodyStream`, the frames of a request's body. What a
-- stream is after an error is not told: nothing reads on.
use openlake.Prelude.{String, Bool, true, false, not, List, [], ◌∷◌, if◌then◌else◌}
use openlake.Erasure.Codec.{Bytes}
use openlake.Errors.{Result, ok, err, IoError, io, other}
use openlake.Auth.Text.{is_empty}

-- What the next frame of a body is: data, trailers, or the failure of the connection.
pub data Frame : Type 0 where
  content : Bytes → Frame
  trailers : Frame
  broken : String → Frame

-- An error that is returned, or a panic.
pub data Fault : Type 0 where
  failed : IoError → Fault
  panics : Fault

pub record AxumBodyStream : Type 0 where
  pub body : List Frame
  pub leftover : Bytes
  pub eof : Bool

unfoldable pub new : List Frame → AxumBodyStream
new body = record { body = body; leftover = []; eof = false }

-- The loop of `read`, once nothing is left over.
unfoldable pub next_frame : List Frame → Result Fault (Bytes × AxumBodyStream)
next_frame [] = ok ([], record { body = []; leftover = []; eof = true })
next_frame (content [] ∷ fs) = next_frame fs
next_frame (content (b ∷ bs) ∷ fs) = ok (b ∷ bs, record { body = fs; leftover = []; eof = false })
next_frame (trailers ∷ fs) = next_frame fs
next_frame (broken e ∷ fs) = err (failed (io other e))

unfoldable pub read : AxumBodyStream → Result Fault (Bytes × AxumBodyStream)
unfolding next_frame
read s =
    if not (is_empty s.leftover)
    then ok (s.leftover, record s { leftover = [] })
    else if s.eof
    then ok ([], s)
    else next_frame s.body
