-- ===== src/GrpcWeb/Requests/Turns.antt =====
-- The loop of a request body ends: each turn that does not answer uses up a part of the inner body, its
-- end, or the one frame of trailers.
use rginx.Prelude.{
  ℕ, zero, suc, ◌+◌, ◌<◌, ◌≡◌, refl, Bool, true, false, not, ◌&&◌, Option, none, some, List, [],
  ◌∷◌, length, is_empty, arith, is_some, Bytes, Frame, Result, err, ok, if◌then◌else◌,
}
use rginx.Prelude.Polled.{pending, frame, failed, end_of_body}
use rginx.Prelude.Frame.{trailers, unknown_frame}
use rginx.GrpcWeb.{
  HeaderTexts, InvalidBody, Entries, ParsedGrpcWebRequestFrame, decode_grpc_web_request_frame,
}
use rginx.GrpcWeb.Bodies.{Answer}
use rginx.GrpcWeb.Requests.{
  GrpcWebRequestBody, Turn, with_inner, poll_request_inner, request_without_frame, request_frame,
  request_turn, poll_request, follow,
}

abbrev one_unless : Bool → ℕ
one_unless true = 0
one_unless false = 1

-- The turns that are left at most.
abbrev pub turns_left : GrpcWebRequestBody → ℕ
turns_left body =
    length body.inner + one_unless body.inner_finished + one_unless body.saw_grpc_web_trailers

module _ (texts : HeaderTexts) where
  -- A turn answers or leaves fewer turns than `n`.
  abbrev Lowers : ℕ → Turn texts → Type 0
  Lowers n (Turn.answers answer next) = Unit
  Lowers n (Turn.goes_on next) = turns_left next < n

  if-Lowers :
      (n : ℕ) (b : Bool) (x y : Turn texts)
      → (b ≡ true → Lowers n x)
      → (b ≡ false → Lowers n y)
      → Lowers n (if b then x else y)
  if-Lowers n true x y h k = h refl
  if-Lowers n false x y h k = k refl

  inner-Lowers :
      (body : GrpcWebRequestBody) (inner : List Answer)
      → body.inner_finished ≡ false
      → Lowers
          (length inner + one_unless body.inner_finished + one_unless body.saw_grpc_web_trailers)
          (poll_request_inner texts body inner)
  unfolding poll_request_inner
  inner-Lowers body [] h =
      let one : one_unless body.inner_finished ≡ 1 = rw h refl in omega (arith, one)
  inner-Lowers body (end_of_body ∷ rest) h = omega arith
  inner-Lowers body (pending ∷ rest) h = tt
  inner-Lowers body (failed e ∷ rest) h = tt
  inner-Lowers body (frame unknown_frame ∷ rest) h = tt
  inner-Lowers body (frame (trailers t) ∷ rest) h = omega arith
  inner-Lowers body (frame (Frame.data_frame bytes) ∷ rest) h =
      if-Lowers _ (body.saw_grpc_web_trailers && not (is_empty bytes)) _ _ (λ e. tt)
        (λ e. omega arith)

  option-Lowers :
      (n : ℕ) (o : Option Entries) (x : Turn texts) (f : Entries → Turn texts)
      → Lowers n x
      → ((entries : Entries) → Lowers n (f entries))
      → Lowers n (elim o [ some t ↦ f t | none ↦ x ])
  option-Lowers n none x f h k = h
  option-Lowers n (some entries) x f h k = k entries

  without-Lowers :
      (body : GrpcWebRequestBody) → Lowers (turns_left body) (request_without_frame texts body)
  unfolding request_without_frame
  without-Lowers body =
      if-Lowers (turns_left body) body.inner_finished _ _
        (λ e. option-Lowers (turns_left body) body.inner_trailers _ _ tt (λ t. tt))
        (inner-Lowers body body.inner)

  -- Behind the frame of trailers there is no other frame.
  abbrev NotTrailers : Result InvalidBody (Option ParsedGrpcWebRequestFrame) → Bool → Type 0
  NotTrailers (ok (some (ParsedGrpcWebRequestFrame.trailer_frame entries))) saw = saw ≡ false
  NotTrailers _ saw = Unit

  unseen-NotTrailers :
      (r : Result InvalidBody (Option ParsedGrpcWebRequestFrame)) → NotTrailers r false
  unseen-NotTrailers (err e) = tt
  unseen-NotTrailers (ok none) = tt
  unseen-NotTrailers (ok (some (ParsedGrpcWebRequestFrame.data_frame bytes))) = tt
  unseen-NotTrailers (ok (some (ParsedGrpcWebRequestFrame.trailer_frame entries))) = refl

  decode-NotTrailers :
      (buffer : Bytes) (finished saw : Bool)
      → NotTrailers (decode_grpc_web_request_frame texts buffer finished saw).0 saw
  unfolding decode_grpc_web_request_frame
  decode-NotTrailers buffer finished false = unseen-NotTrailers _
  decode-NotTrailers [] finished true = tt
  decode-NotTrailers (a ∷ []) finished true = tt
  decode-NotTrailers (a ∷ b ∷ []) finished true = tt
  decode-NotTrailers (a ∷ b ∷ c ∷ []) finished true = tt
  decode-NotTrailers (a ∷ b ∷ c ∷ d ∷ []) finished true = tt
  decode-NotTrailers (a ∷ b ∷ c ∷ d ∷ e ∷ s) finished true = tt

  frame-Lowers :
      (body : GrpcWebRequestBody) (parsed : Result InvalidBody (Option ParsedGrpcWebRequestFrame))
      → NotTrailers parsed body.saw_grpc_web_trailers
      → Lowers (turns_left body) (request_frame texts body parsed)
  unfolding request_frame
  frame-Lowers body (err e) h = tt
  frame-Lowers body (ok none) h = without-Lowers body
  frame-Lowers body (ok (some (ParsedGrpcWebRequestFrame.data_frame bytes))) h = tt
  frame-Lowers body (ok (some (ParsedGrpcWebRequestFrame.trailer_frame entries))) h =
      if-Lowers _ (is_empty (with_inner entries body.inner_trailers)) _ _
        (λ e. let one : one_unless body.saw_grpc_web_trailers ≡ 1 = rw h refl in omega (arith, one))
        (λ e. tt)

  turn-Lowers : (body : GrpcWebRequestBody) → Lowers (turns_left body) (request_turn texts body)
  unfolding request_turn
  turn-Lowers body =
      frame-Lowers (record body { buffer = _ }) _
        (decode-NotTrailers body.buffer body.inner_finished body.saw_grpc_web_trailers)

  follow-answers :
      (n : ℕ) (loop : GrpcWebRequestBody → Option (Answer × GrpcWebRequestBody)) (turn : Turn texts)
      → Lowers n turn
      → ((next : GrpcWebRequestBody) → turns_left next < n → is_some (loop next) ≡ true)
      → is_some (follow texts loop turn) ≡ true
  follow-answers n loop (Turn.answers answer next) h go = refl
  follow-answers n loop (Turn.goes_on next) h go = go next h

  -- With a turn of fuel more than the parts of the inner body, its end and a frame of trailers, the
  -- loop answers, whatever has come in.
  pub poll_request-answers :
      (fuel : ℕ) (body : GrpcWebRequestBody)
      → turns_left body < fuel
      → is_some (poll_request texts fuel body) ≡ true
  unfolding poll_request
  poll_request-answers zero body h = absurd (omega (arith, h))
  poll_request-answers (suc fuel) body h =
      follow-answers (turns_left body) _ (request_turn texts body) (turn-Lowers body)
        λ next k. poll_request-answers fuel next (omega (arith, h, k))
