-- ===== src/CacheRange/Trim.antt =====
-- crates/rginx-http/src/cache/store/range.rs: a body of which some bytes are skipped and some sent.
-- The inner body is the list of what it answers to the polls to come.
pub mod Sent
use rginx.Prelude.{
  ℕ, zero, suc, ◌+◌, ◌-◌, Bool, true, false, ◌||◌, Option, none, some, List, [], ◌∷◌, length,
  is_empty, take, drop, if◌then◌else◌, ltb, leb, ◌==◌, Bytes, Frame, Polled,
}
use rginx.Prelude.Polled.{pending, frame, failed, end_of_body}
use rginx.Prelude.Frame.{data_frame, trailers, unknown_frame}
use rginx.CacheRange.Plan.{DownstreamRangeTrimPlan}

pub data RangeError : Type 0 where
  truncated_range : RangeError
  inner_error : Bytes → RangeError

pub record DownstreamRangeTrimBody : Type 0 where
  pub inner : List (Polled RangeError)
  pub skip_bytes : ℕ
  pub emit_bytes : ℕ
  pub done : Bool

abbrev pub trim_body :
    {Headers : Type 0}
    → List (Polled RangeError)
    → DownstreamRangeTrimPlan Headers
    → DownstreamRangeTrimBody
trim_body inner plan = record {
  inner = inner;
  skip_bytes = plan.skip_bytes;
  emit_bytes = plan.emit_bytes;
  done = false;
}

-- The body with what is left of the inner one.
abbrev pub trimming : List (Polled RangeError) → ℕ → ℕ → Bool → DownstreamRangeTrimBody
trimming inner skip emit done = record {
  inner = inner;
  skip_bytes = skip;
  emit_bytes = emit;
  done = done;
}

-- At the end or at trailers: an error if bytes are missing.
abbrev pub unless_missing : ℕ → ℕ → Polled RangeError → Polled RangeError
unless_missing skip emit answer =
    if ltb 0 skip || ltb 0 emit then failed RangeError.truncated_range else answer

-- Bytes behind the skipped ones are sent.
pub emit_data :
    Bytes
    → ℕ
    → List (Polled RangeError)
    → Polled RangeError × DownstreamRangeTrimBody
    → Polled RangeError × DownstreamRangeTrimBody
emit_data bytes emit rest later =
    let sent = if ltb emit (length bytes) then take emit bytes else bytes in
    let left = emit - length sent in
    if emit == 0
    then later
    else if is_empty sent
    then later
    else (frame (data_frame sent), trimming rest 0 left (left == 0))

-- The loop, which goes on where a frame has nothing to send.
pub poll_inner : List (Polled RangeError) → ℕ → ℕ → Polled RangeError × DownstreamRangeTrimBody
unfolding emit_data
poll_inner [] skip emit = (unless_missing skip emit end_of_body, trimming [] skip emit true)
poll_inner (pending ∷ rest) skip emit = (pending, trimming rest skip emit false)
poll_inner (end_of_body ∷ rest) skip emit =
    (unless_missing skip emit end_of_body, trimming rest skip emit true)
poll_inner (failed e ∷ rest) skip emit = (failed e, trimming rest skip emit true)
poll_inner (frame (trailers t) ∷ rest) skip emit =
    (unless_missing skip emit (frame (trailers t)), trimming rest skip emit true)
poll_inner (frame unknown_frame ∷ rest) skip emit =
    (frame unknown_frame, trimming rest skip emit false)
poll_inner (frame (data_frame bytes) ∷ rest) skip emit =
    let skipped = poll_inner rest (skip - length bytes) emit in
    let later = poll_inner rest 0 emit in
    if leb (length bytes) skip then skipped else emit_data (drop skip bytes) emit rest later

pub poll_range : DownstreamRangeTrimBody → Polled RangeError × DownstreamRangeTrimBody
unfolding poll_inner
poll_range body =
    if body.done
    then (end_of_body, body)
    else if body.emit_bytes == 0
    then (end_of_body, record body { done = true })
    else poll_inner body.inner body.skip_bytes body.emit_bytes

-- The answers to `n` polls in a row.
pub poll_ranges : ℕ → DownstreamRangeTrimBody → List (Polled RangeError)
unfolding poll_range
poll_ranges zero body = []
poll_ranges (suc n) body = let (answer, next) = poll_range body in answer ∷ poll_ranges n next
