-- ===== src/GrpcWeb/Requests.antt =====
-- crates/rginx-http/src/proxy/grpc_web/body/{request,text_decode}.rs: the bodies of requests. An inner
-- body is the list of what it answers to the polls to come; a loop polls it until there is something
-- to answer. Fields that no code fills are left out.
pub mod Turns
use rginx.Prelude.{
  ℕ, zero, suc, ◌+◌, Bool, true, false, not, ◌&&◌, Option, none, some, List, [], ◌∷◌, ◌++◌, length,
  is_empty, if◌then◌else◌, unwrap_or, Bytes, Frame, Polled, Result, err, ok,
}
use rginx.Prelude.Polled.{pending, frame, failed, end_of_body}
use rginx.Prelude.Frame.{trailers, unknown_frame}
use rginx.GrpcWeb.{
  Base64, HeaderTexts, InvalidBody, Entries, ParsedGrpcWebRequestFrame,
  decode_grpc_web_request_frame, decode_grpc_web_text_chunk, decode_grpc_web_text_final,
}
use rginx.GrpcWeb.Bodies.{Answer, sends}

pub record GrpcWebTextDecodeBody : Type 0 where
  pub inner : List Answer
  pub pending_trailers : Option Entries
  pub carryover : Bytes
  pub inner_finished : Bool

abbrev pub text_decode_body : List Answer → Option Entries → Bytes → Bool → GrpcWebTextDecodeBody
text_decode_body inner waiting carryover finished = record {
  inner = inner;
  pending_trailers = waiting;
  carryover = carryover;
  inner_finished = finished;
}

module _ (base64 : Base64) where
  -- The end of the inner body.
  pub poll_text_decode_end : List Answer → Bytes → Answer × GrpcWebTextDecodeBody
  poll_text_decode_end rest carryover =
      let (decoded, left) = decode_grpc_web_text_final base64 carryover in
      elim decoded [
        | err e ↦ (failed e, text_decode_body rest none left true)
        | ok out ↦ elim out [
          | none ↦ (end_of_body, text_decode_body rest none left true)
          | some bytes ↦ (sends bytes, text_decode_body rest none left true)
        ]
      ]

  -- Trailers come behind the rest of the data.
  abbrev decoded_trailers :
      Result InvalidBody (Option Bytes) × Bytes
      → Entries
      → List Answer
      → Answer × GrpcWebTextDecodeBody
  decoded_trailers (err e, left) t rest = (failed e, text_decode_body rest none left false)
  decoded_trailers (ok none, left) t rest =
      (frame (trailers t), text_decode_body rest none left false)
  decoded_trailers (ok (some bytes), left) t rest =
      (sends bytes, text_decode_body rest (some t) left false)

  -- What a chunk is decoded to, or the next turn where it is only carried over.
  abbrev decoded_or :
      Result InvalidBody (Option Bytes) × Bytes
      → List Answer
      → Answer × GrpcWebTextDecodeBody
      → Answer × GrpcWebTextDecodeBody
  decoded_or (err e, left) rest later = (failed e, text_decode_body rest none left false)
  decoded_or (ok none, left) rest later = later
  decoded_or (ok (some bytes), left) rest later =
      (sends bytes, text_decode_body rest none left false)

  pub poll_text_decode_inner : List Answer → Bytes → Answer × GrpcWebTextDecodeBody
  unfolding poll_text_decode_end
  poll_text_decode_inner [] carryover = poll_text_decode_end [] carryover
  poll_text_decode_inner (end_of_body ∷ rest) carryover = poll_text_decode_end rest carryover
  poll_text_decode_inner (pending ∷ rest) carryover =
      (pending, text_decode_body rest none carryover false)
  poll_text_decode_inner (failed e ∷ rest) carryover =
      (failed e, text_decode_body rest none carryover true)
  poll_text_decode_inner (frame unknown_frame ∷ rest) carryover =
      (failed InvalidBody.unexpected_frame, text_decode_body rest none carryover false)
  poll_text_decode_inner (frame (trailers t) ∷ rest) carryover =
      decoded_trailers (decode_grpc_web_text_final base64 carryover) t rest
  poll_text_decode_inner (frame (Frame.data_frame bytes) ∷ rest) carryover =
      let step = decode_grpc_web_text_chunk base64 carryover bytes in
      let later = poll_text_decode_inner rest step.1 in decoded_or step rest later

  pub poll_text_decode : GrpcWebTextDecodeBody → Answer × GrpcWebTextDecodeBody
  unfolding poll_text_decode_inner poll_text_decode_end
  poll_text_decode body = elim body.pending_trailers [
    | some t ↦ (frame (trailers t), record body { pending_trailers = none })
    | none ↦
        if body.inner_finished
        then poll_text_decode_end body.inner body.carryover
        else poll_text_decode_inner body.inner body.carryover
  ]

pub record GrpcWebRequestBody : Type 0 where
  pub inner : List Answer
  pub inner_finished : Bool
  pub inner_trailers : Option Entries
  pub buffer : Bytes
  pub saw_grpc_web_trailers : Bool

-- `append_header_map`, which adds the entries.
abbrev pub with_inner : Entries → Option Entries → Entries
with_inner entries none = entries
with_inner entries (some more) = entries ++ more

module _ (texts : HeaderTexts) where
  -- What a turn of the loop does: it answers, or leaves the body for the next turn.
  pub data Turn : Type 0 where
    answers : Answer → GrpcWebRequestBody → Turn
    goes_on : GrpcWebRequestBody → Turn

  -- The inner body is polled.
  unfoldable pub poll_request_inner : GrpcWebRequestBody → List Answer → Turn
  poll_request_inner body [] = Turn.goes_on (record body { inner = []; inner_finished = true })
  poll_request_inner body (end_of_body ∷ rest) =
      Turn.goes_on (record body { inner = rest; inner_finished = true })
  poll_request_inner body (pending ∷ rest) = Turn.answers pending (record body { inner = rest })
  poll_request_inner body (failed e ∷ rest) =
      Turn.answers (failed e) (record body { inner = rest; inner_finished = true })
  poll_request_inner body (frame unknown_frame ∷ rest) =
      Turn.answers (failed InvalidBody.unexpected_frame) (record body { inner = rest })
  poll_request_inner body (frame (trailers t) ∷ rest) = Turn.goes_on (record body {
    inner = rest;
    inner_finished = true;
    inner_trailers = some (elim body.inner_trailers [ none ↦ t | some existing ↦ existing ++ t ]);
  })
  poll_request_inner body (frame (Frame.data_frame bytes) ∷ rest) =
      if body.saw_grpc_web_trailers && not (is_empty bytes)
      then Turn.answers (failed InvalidBody.trailers_not_terminal) (record body { inner = rest })
      else Turn.goes_on (record body { inner = rest; buffer = body.buffer ++ bytes })

  -- The buffer has no whole frame.
  unfoldable pub request_without_frame : GrpcWebRequestBody → Turn
  request_without_frame body =
      if body.inner_finished
      then elim body.inner_trailers [
        | some t ↦ Turn.answers (frame (trailers t)) (record body { inner_trailers = none })
        | none ↦ Turn.answers end_of_body body
      ]
      else poll_request_inner body body.inner

  unfoldable pub request_frame :
      GrpcWebRequestBody → Result InvalidBody (Option ParsedGrpcWebRequestFrame) → Turn
  request_frame body (err e) = Turn.answers (failed e) body
  request_frame body (ok none) = request_without_frame body
  request_frame body (ok (some (ParsedGrpcWebRequestFrame.data_frame bytes))) =
      Turn.answers (sends bytes) body
  request_frame body (ok (some (ParsedGrpcWebRequestFrame.trailer_frame entries))) =
      let all = with_inner entries body.inner_trailers in
      let seen = record body { saw_grpc_web_trailers = true; inner_trailers = none } in
      if is_empty all then Turn.goes_on seen else Turn.answers (frame (trailers all)) seen

  unfoldable pub request_turn : GrpcWebRequestBody → Turn
  request_turn body =
      let (parsed, left) =
        decode_grpc_web_request_frame texts body.buffer body.inner_finished
          body.saw_grpc_web_trailers in
      request_frame (record body { buffer = left }) parsed

  abbrev pub follow :
      (GrpcWebRequestBody → Option (Answer × GrpcWebRequestBody))
      → Turn
      → Option (Answer × GrpcWebRequestBody)
  follow loop (Turn.answers answer next) = some (answer, next)
  follow loop (Turn.goes_on next) = loop next

  -- The loop, with fuel.
  unfoldable pub poll_request : ℕ → GrpcWebRequestBody → Option (Answer × GrpcWebRequestBody)
  unfolding request_turn
  poll_request zero body = none
  poll_request (suc fuel) body = follow (λ next. poll_request fuel next) (request_turn body)
