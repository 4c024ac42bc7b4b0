-- ===== src/BodyLimit.antt =====
-- crates/rginx-http/src/timeout/body/max_bytes.rs: a request body that may have a bounded number of
-- bytes. The inner body is the list of what it answers to the polls to come, and ends behind them.
pub mod Limits
mod Tests
use rginx.Prelude.{
  ℕ, zero, suc, ◌+◌, ◌-◌, min, Bool, true, false, ◌||◌, Option, none, some, List, [], ◌∷◌, ◌++◌,
  length, if◌then◌else◌, ltb, Bytes, Frame, Polled, next_answer,
}
use rginx.Prelude.Polled.{pending, frame, failed, end_of_body}
use rginx.Prelude.Frame.{data_frame, trailers, unknown_frame}

pub data BoxError : Type 0 where
  request_body_limit : ℕ → BoxError
  inner_error : Bytes → BoxError

pub record MaxBytesBody : Type 0 where
  pub inner : List (Polled BoxError)
  pub max_request_body_bytes : ℕ
  pub bytes_read : ℕ
  pub done : Bool

abbrev pub new_body : List (Polled BoxError) → ℕ → MaxBytesBody
new_body inner limit = record {
  inner = inner;
  max_request_body_bytes = limit;
  bytes_read = 0;
  done = false;
}

-- The `match` on the answer of the inner body; `body` has polled it already.
pub pass_on : MaxBytesBody → Polled BoxError → Polled BoxError × MaxBytesBody
pass_on body pending = (pending, body)
pass_on body end_of_body = (end_of_body, record body { done = true })
pass_on body (failed e) = (failed e, record body { done = true })
pass_on body (frame (trailers t)) = (frame (trailers t), record body { done = true })
pass_on body (frame unknown_frame) = (frame unknown_frame, body)
pass_on body (frame (data_frame bytes)) =
    if ltb (body.max_request_body_bytes - body.bytes_read) (length bytes)
    then (failed (request_body_limit body.max_request_body_bytes), record body { done = true })
    else (frame (data_frame bytes), record body { bytes_read = body.bytes_read + length bytes })

pub poll_frame : MaxBytesBody → Polled BoxError × MaxBytesBody
unfolding pass_on
poll_frame body =
    if body.done
    then (end_of_body, body)
    else let (answer, rest) = next_answer body.inner in
      pass_on (record body { inner = rest }) answer

pub record SizeHint : Type 0 where
  pub lower : ℕ
  pub upper : Option ℕ

-- The hint of the inner body is an argument.
pub size_hint : MaxBytesBody → SizeHint → SizeHint
size_hint body inner =
    let remaining = body.max_request_body_bytes - body.bytes_read in
    record {
      lower = min inner.lower remaining;
      upper = some (elim inner.upper [ none ↦ remaining | some upper ↦ min upper remaining ]);
    }

pub is_end_stream : MaxBytesBody → Bool → Bool
is_end_stream body inner = body.done || inner

-- The answers to `n` polls in a row, and the body then.
pub polls : ℕ → MaxBytesBody → List (Polled BoxError) × MaxBytesBody
unfolding poll_frame
polls zero body = ([], body)
polls (suc n) body =
    let (answer, next) = poll_frame body in
    let (answers, last) = polls n next in (answer ∷ answers, last)
