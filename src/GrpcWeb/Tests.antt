-- ===== src/GrpcWeb/Tests.antt =====
-- gRPC-Web with a simple code in place of base64, and the examples of the theorems.
use rginx.Prelude.{
  ◌+◌, ◌-◌, ◌<◌, ◌≤◌, ◌≡◌, refl, true, false, Option, none, some, List, [], ◌∷◌, ◌++◌, length, ◌==◌,
  if◌then◌else◌, arith, All, take, drop, Bytes, codes, ok,
}
use rginx.GrpcWeb.{
  Base64, HeaderTexts, Entries, ParsedGrpcWebRequestFrame, is_ascii_whitespace,
  decode_grpc_web_request_frame, encode_grpc_web_trailers, encode_grpc_web_text_chunk,
  flush_grpc_web_text_chunk, whole_frame, parse_frame,
}
use rginx.GrpcWeb.Text.{Base64Laws, encode_chunks, decode_chunks, concat}
use rginx.GrpcWeb.Text.Decode.{decode_chunks-encode_chunks}
use rginx.GrpcWeb.Trailers.{Kept, decode_grpc_web_request_frame-encode}
use rginx.GrpcWeb.Bodies.{Answer, sends, response_body, poll_response, poll_response_inner}
use rginx.GrpcWeb.Requests.{
  GrpcWebRequestBody, poll_request, request_turn, request_frame, request_without_frame,
  poll_request_inner,
}

-- Each byte by 33 higher, and a fourth character for the number of bytes that are missing.
abbrev coded : Bytes → Bytes
coded [] = []
coded (a ∷ []) = (a + 33) ∷ 33 ∷ 33 ∷ 35 ∷ []
coded (a ∷ b ∷ []) = (a + 33) ∷ (b + 33) ∷ 33 ∷ 34 ∷ []
coded (a ∷ b ∷ c ∷ s) = (a + 33) ∷ (b + 33) ∷ (c + 33) ∷ 33 ∷ coded s

abbrev decoded : Bytes → Option Bytes
decoded (a ∷ b ∷ c ∷ d ∷ []) =
    if d == 33
    then some ((a - 33) ∷ (b - 33) ∷ (c - 33) ∷ [])
    else if d == 34
    then some ((a - 33) ∷ (b - 33) ∷ [])
    else if d == 35
    then some ((a - 33) ∷ [])
    else none
decoded s = none

abbrev base64 : Base64
base64 = record { encode = coded; encode_no_pad = coded; decode = decoded }

coded-printed : (s : Bytes) → All (λ c. is_ascii_whitespace c ≡ false) (coded s)
coded-printed [] = tt
coded-printed (a ∷ []) = (ground arith, (refl, (refl, (refl, tt))))
coded-printed (a ∷ b ∷ []) = (ground arith, (ground arith, (refl, (refl, tt))))
coded-printed (a ∷ b ∷ c ∷ s) =
    (ground arith, (ground arith, (ground arith, (refl, coded-printed s))))

coded-group :
    (q : Bytes)
    → 0 < length q
    → length q ≤ 3
    → (length (coded q) ≡ 4) × (decoded (coded q) ≡ some q)
coded-group [] h k = absurd (omega (arith, h))
coded-group (a ∷ []) h k = let e : a + 33 - 33 ≡ a = omega arith in rw e (refl, refl)
coded-group (a ∷ b ∷ []) h k =
    let e : a + 33 - 33 ≡ a = omega arith in
    let f : b + 33 - 33 ≡ b = omega arith in rw (e, f) (refl, refl)
coded-group (a ∷ b ∷ c ∷ []) h k =
    let e : a + 33 - 33 ≡ a = omega arith in
    let f : b + 33 - 33 ≡ b = omega arith in
    let g : c + 33 - 33 ≡ c = omega arith in rw (e, f, g) (refl, refl)
coded-group (a ∷ b ∷ c ∷ d ∷ s) h k = absurd (omega (arith, k))

laws : Base64Laws base64
laws = record {
  encode-nil = refl;
  encode-group = λ a b c s. refl;
  encode_no_pad-whole = λ s h. refl;
  length-encode = λ q h k. (coded-group q h k).0;
  decode-encode = λ q h k. (coded-group q h k).1;
  encode-printed = coded-printed;
}

abbrev chunks : List Bytes
chunks = codes "he" ∷ [] ∷ codes "llo wo" ∷ codes "rld" ∷ []

-- The same text in two other chunks.
abbrev texts_in : List Bytes
texts_in = take 5 (coded (codes "hello world")) ∷ drop 5 (coded (codes "hello world")) ∷ []

texts_sent : concat texts_in ≡ encode_chunks base64 [] chunks
unfolding encode_grpc_web_text_chunk flush_grpc_web_text_chunk
texts_sent = refl

decode_chunks-encode_chunks_example : decode_chunks base64 [] texts_in ≡ ok (codes "hello world")
decode_chunks-encode_chunks_example =
    decode_chunks-encode_chunks base64 laws chunks texts_in texts_sent

-- Any name and value.
abbrev texts : HeaderTexts
texts = record { to_name = λ s. some s; is_utf8 = λ s. true; to_value = λ s. some s }

abbrev status : Entries
status = (codes "a", codes "0") ∷ []

status-Kept : All (Kept texts) status
status-Kept = ((refl, refl, refl, refl, (refl, tt), (refl, tt), (refl, tt)), tt)

decode_grpc_web_request_frame-encode_example :
    decode_grpc_web_request_frame texts (encode_grpc_web_trailers status ++ codes "x") true false
    ≡ (ok (some (ParsedGrpcWebRequestFrame.trailer_frame status)), codes "x")
decode_grpc_web_request_frame-encode_example =
    decode_grpc_web_request_frame-encode texts status (codes "x") true status-Kept (omega arith)

-- A response without trailers of its own ends with the fallback, as data.
abbrev answered : List Answer
answered = sends (codes "data") ∷ []

fallback_is_sent :
    (poll_response (poll_response (response_body answered none (some status) false)).1).0
    ≡ sends (128 ∷ 0 ∷ 0 ∷ 0 ∷ 6 ∷ codes "a: 0\r\n")
unfolding poll_response poll_response_inner encode_grpc_web_trailers
fallback_is_sent = refl

-- A frame in two parts is put together.
abbrev request : GrpcWebRequestBody
request = record {
  inner = sends (0 ∷ 0 ∷ 0 ∷ []) ∷ sends (0 ∷ 2 ∷ 7 ∷ 8 ∷ []) ∷ [];
  inner_finished = false;
  inner_trailers = none;
  buffer = [];
  saw_grpc_web_trailers = false;
}

frame_of : Option (Answer × GrpcWebRequestBody) → Option Answer
frame_of none = none
frame_of (some (answer, body)) = some answer

parts_are_joined :
    frame_of (poll_request texts 5 request) ≡ some (sends (0 ∷ 0 ∷ 0 ∷ 0 ∷ 2 ∷ 7 ∷ 8 ∷ []))
unfolding poll_request request_turn request_frame request_without_frame poll_request_inner
    decode_grpc_web_request_frame whole_frame parse_frame frame_of
parts_are_joined = refl
