-- ===== src/Prelude/Body.antt =====
-- What a body answers when it is polled (`http_body::Body`), for any type of errors.
use mathlib.Core.Bool.{Bool, true, false}
use mathlib.Core.List.{List, [], ◌∷◌, ◌++◌}
use rginx.Prelude.Text.{Bytes}

pub data Frame : Type 0 where
  data_frame : Bytes → Frame
  trailers : List (Bytes × Bytes) → Frame
  unknown_frame : Frame

-- `Poll<Option<Result<Frame, Error>>>`.
pub data Polled (Error : Type 0) : Type 0 where
  pending : Polled Error
  frame : Frame → Polled Error
  failed : Error → Polled Error
  end_of_body : Polled Error

-- What a body answers that is the list of its answers, and what is left of it.
abbrev pub next_answer : {Error : Type 0} → List (Polled Error) → Polled Error × List (Polled Error)
next_answer [] = (Polled.end_of_body, [])
next_answer (p ∷ ps) = (p, ps)

-- The data among the answers.
abbrev pub data_of : {Error : Type 0} → List (Polled Error) → Bytes
data_of [] = []
data_of (Polled.frame (Frame.data_frame bytes) ∷ ps) = bytes ++ data_of ps
data_of (_ ∷ ps) = data_of ps

-- The errors among the answers.
abbrev pub errors_of : {Error : Type 0} → List (Polled Error) → List Error
errors_of [] = []
errors_of (Polled.failed e ∷ ps) = e ∷ errors_of ps
errors_of (_ ∷ ps) = errors_of ps

-- An answer after which the body goes on.
abbrev pub goes_on : {Error : Type 0} → Polled Error → Bool
goes_on Polled.pending = true
goes_on (Polled.frame (Frame.data_frame bytes)) = true
goes_on (Polled.frame (Frame.trailers t)) = false
goes_on (Polled.frame Frame.unknown_frame) = true
goes_on (Polled.failed e) = false
goes_on Polled.end_of_body = false
