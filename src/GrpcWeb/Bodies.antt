-- ===== src/GrpcWeb/Bodies.antt =====
-- crates/rginx-http/src/proxy/grpc_web/body: the bodies that translate gRPC-Web. An inner body is the
-- list of what it answers to the polls to come; a loop polls it until there is something to answer.
-- The fields `pending_data` that no code fills are left out.
use rginx.Prelude.{
  Bool, true, false, Option, none, some, List, [], ◌∷◌, is_empty, if◌then◌else◌, Bytes, Frame,
  Polled,
}
use rginx.Prelude.Polled.{pending, frame, failed, end_of_body}
use rginx.Prelude.Frame.{trailers, unknown_frame}
use rginx.GrpcWeb.{
  Base64, InvalidBody, Entries, encode_grpc_web_text_chunk, flush_grpc_web_text_chunk,
  encode_grpc_web_trailers,
}

abbrev pub Answer : Type 0
Answer = Polled InvalidBody

-- A frame of data.
abbrev pub sends : Bytes → Answer
sends bytes = frame (Frame.data_frame bytes)

pub record GrpcWebResponseBody : Type 0 where
  pub inner : List Answer
  pub pending_frame : Option Bytes
  pub fallback_trailers : Option Entries
  pub inner_finished : Bool

-- The trailers to send in place of missing ones.
abbrev pub fallback : Option Entries → Option Bytes
fallback none = none
fallback (some entries) = if is_empty entries then none else some (encode_grpc_web_trailers entries)

abbrev pub response_body : List Answer → Option Bytes → Option Entries → Bool → GrpcWebResponseBody
response_body inner waiting entries finished = record {
  inner = inner;
  pending_frame = waiting;
  fallback_trailers = entries;
  inner_finished = finished;
}

-- The end of the inner body.
abbrev pub response_end : List Answer → Option Entries → Answer × GrpcWebResponseBody
response_end rest entries = elim (fallback entries) [
  | none ↦ (end_of_body, response_body rest none none true)
  | some bytes ↦ (sends bytes, response_body rest none none true)
]

-- One turn of the loop on an inner body that has not ended: trailers are sent as data at once.
unfoldable pub poll_response_inner : List Answer → Option Entries → Answer × GrpcWebResponseBody
poll_response_inner [] entries = response_end [] entries
poll_response_inner (end_of_body ∷ rest) entries = response_end rest entries
poll_response_inner (pending ∷ rest) entries = (pending, response_body rest none entries false)
poll_response_inner (failed e ∷ rest) entries = (failed e, response_body rest none entries true)
poll_response_inner (frame (Frame.data_frame bytes) ∷ rest) entries =
    (sends bytes, response_body rest none entries false)
poll_response_inner (frame (trailers t) ∷ rest) entries =
    (sends (encode_grpc_web_trailers t), response_body rest none none false)
poll_response_inner (frame unknown_frame ∷ rest) entries =
    (failed InvalidBody.unexpected_frame, response_body rest none entries false)

unfoldable pub poll_response : GrpcWebResponseBody → Answer × GrpcWebResponseBody
unfolding poll_response_inner
poll_response body = elim body.pending_frame [
  | some bytes ↦ (sends bytes, record body { pending_frame = none })
  | none ↦
      if body.inner_finished
      then (end_of_body, body)
      else poll_response_inner body.inner body.fallback_trailers
]

pub record GrpcWebTextEncodeBody : Type 0 where
  pub inner : List Answer
  pub carryover : Bytes
  pub inner_finished : Bool

abbrev pub text_encode_body : List Answer → Bytes → Bool → GrpcWebTextEncodeBody
text_encode_body inner carryover finished = record {
  inner = inner;
  carryover = carryover;
  inner_finished = finished;
}

module _ (base64 : Base64) where
  -- The flush at the end.
  pub poll_text_encode_end : List Answer → Bytes → Answer × GrpcWebTextEncodeBody
  poll_text_encode_end rest carryover =
      let (flushed, left) = flush_grpc_web_text_chunk base64 carryover in
      elim flushed [
        | none ↦ (end_of_body, text_encode_body rest left true)
        | some bytes ↦ (sends bytes, text_encode_body rest left true)
      ]

  -- What a chunk is encoded to, or the next turn where it is only carried over.
  abbrev encoded_or :
      Option Bytes × Bytes
      → List Answer
      → Answer × GrpcWebTextEncodeBody
      → Answer × GrpcWebTextEncodeBody
  encoded_or (none, left) rest later = later
  encoded_or (some bytes, left) rest later = (sends bytes, text_encode_body rest left false)

  pub poll_text_encode_inner : List Answer → Bytes → Answer × GrpcWebTextEncodeBody
  unfolding poll_text_encode_end
  poll_text_encode_inner [] carryover = poll_text_encode_end [] carryover
  poll_text_encode_inner (end_of_body ∷ rest) carryover = poll_text_encode_end rest carryover
  poll_text_encode_inner (pending ∷ rest) carryover =
      (pending, text_encode_body rest carryover false)
  poll_text_encode_inner (failed e ∷ rest) carryover =
      (failed e, text_encode_body rest carryover true)
  poll_text_encode_inner (frame unknown_frame ∷ rest) carryover =
      (failed InvalidBody.unexpected_frame, text_encode_body rest carryover false)
  poll_text_encode_inner (frame (Frame.data_frame bytes) ∷ rest) carryover =
      let step = encode_grpc_web_text_chunk base64 carryover bytes in
      let later = poll_text_encode_inner rest step.1 in encoded_or step rest later
  poll_text_encode_inner (frame (trailers t) ∷ rest) carryover =
      let step = encode_grpc_web_text_chunk base64 carryover (encode_grpc_web_trailers t) in
      let later = poll_text_encode_inner rest step.1 in encoded_or step rest later

  pub poll_text_encode : GrpcWebTextEncodeBody → Answer × GrpcWebTextEncodeBody
  unfolding poll_text_encode_inner poll_text_encode_end
  poll_text_encode body =
      if body.inner_finished
      then poll_text_encode_end body.inner body.carryover
      else poll_text_encode_inner body.inner body.carryover
