-- ===== src/BodyLimit/Limits.antt =====
-- The limit holds, and a body within it is passed on unchanged.
use rginx.Prelude.{
  goes_on, Polled, ℕ, zero, suc, ◌+◌, ◌-◌, ◌<◌, ◌≤◌, ◌≡◌, refl, ap, inl, inr, true, false, List, [],
  ◌∷◌, ◌++◌, length, ltb, arith, Bool-cases, Bytes, All,
}
use rginx.BodyLimit.{MaxBytesBody, BoxError, new_body, pass_on, poll_frame, polls}
use rginx.Prelude.Frame.{data_frame, trailers, unknown_frame}
use rginx.Prelude.Polled.{pending, frame, failed, end_of_body}

-- The bytes of the data frames among the answers.
abbrev pub data_bytes : List (Polled BoxError) → ℕ
data_bytes [] = 0
data_bytes (frame (data_frame bytes) ∷ ps) = length bytes + data_bytes ps
data_bytes (_ ∷ ps) = data_bytes ps

pass_on-counts :
    (body : MaxBytesBody) (p : Polled BoxError) (ps : List (Polled BoxError))
    → body.bytes_read ≤ body.max_request_body_bytes
    → ((pass_on body p).1.bytes_read ≤ body.max_request_body_bytes)
      × ((pass_on body p).1.max_request_body_bytes ≡ body.max_request_body_bytes)
      × (data_bytes ((pass_on body p).0 ∷ ps) + body.bytes_read
          ≡ data_bytes ps + (pass_on body p).1.bytes_read)
unfolding pass_on
pass_on-counts body pending ps h = (h, refl, refl)
pass_on-counts body end_of_body ps h = (h, refl, refl)
pass_on-counts body (failed e) ps h = (h, refl, refl)
pass_on-counts body (frame (trailers t)) ps h = (h, refl, refl)
pass_on-counts body (frame unknown_frame) ps h = (h, refl, refl)
pass_on-counts body (frame (data_frame bytes)) ps h =
    elim (Bool-cases (ltb (body.max_request_body_bytes - body.bytes_read) (length bytes))) [
      | inl e ↦ rw (e, pass_on) (h, refl, refl)
      | inr e ↦ rw (e, pass_on) (ground (arith, e), refl, omega arith)
    ]

poll_frame-counts :
    (body : MaxBytesBody) (ps : List (Polled BoxError))
    → body.bytes_read ≤ body.max_request_body_bytes
    → ((poll_frame body).1.bytes_read ≤ body.max_request_body_bytes)
      × ((poll_frame body).1.max_request_body_bytes ≡ body.max_request_body_bytes)
      × (data_bytes ((poll_frame body).0 ∷ ps) + body.bytes_read
          ≡ data_bytes ps + (poll_frame body).1.bytes_read)
unfolding poll_frame
poll_frame-counts body ps h = elim (Bool-cases body.done) [
  | inl e ↦ rw (e, poll_frame) (h, refl, refl)
  | inr e ↦ rw (e, poll_frame) (pass_on-counts (record body { inner = _; done = false }) _ ps h)
]

polls-counts :
    (n : ℕ) (body : MaxBytesBody)
    → body.bytes_read ≤ body.max_request_body_bytes
    → data_bytes (polls n body).0 + body.bytes_read ≤ body.max_request_body_bytes
unfolding polls
polls-counts zero body h = omega (arith, h)
polls-counts (suc n) body h =
    let next = (poll_frame body).1 in
    let (bound, same, counts) = poll_frame-counts body (polls n next).0 h in
    omega (arith, same, counts, polls-counts n next (rw same bound))

-- However often the body is polled and whatever the inner body answers, the data that is passed on
-- never has more bytes than the limit.
pub polls-limit :
    (n : ℕ) (inner : List (Polled BoxError)) (limit : ℕ)
    → data_bytes (polls n (new_body inner limit)).0 ≤ limit
polls-limit n inner limit = omega (arith, polls-counts n (new_body inner limit) (omega arith))

abbrev pub limit_error : ℕ → Polled BoxError
limit_error limit = failed (BoxError.request_body_limit limit)

-- If the inner body answers without an error, trailers or an end so far, then the first data frame
-- that goes over the limit is answered by the error with the limit, everything before it is passed on
-- as it is, and the next poll finds the body at its end.
pub polls-exceeding :
    (before rest : List (Polled BoxError)) (big : Bytes) (limit read : ℕ)
    → All (λ p. goes_on p ≡ true) before
    → read + data_bytes before ≤ limit
    → limit < read + data_bytes before + length big
    → (polls (length (before ++ limit_error limit ∷ end_of_body ∷ [])) (record {
      inner = before ++ frame (data_frame big) ∷ rest;
      max_request_body_bytes = limit;
      bytes_read = read;
      done = false;
    })).0
      ≡ before ++ limit_error limit ∷ end_of_body ∷ []
unfolding polls poll_frame pass_on
polls-exceeding [] rest big limit read a fits over =
    let e : ltb (limit - read) (length big) ≡ true = ground arith in rw (e, polls) refl
polls-exceeding (pending ∷ ps) rest big limit read (_, a) fits over =
    ap (◌∷◌ pending) (polls-exceeding ps rest big limit read a fits over)
polls-exceeding (frame unknown_frame ∷ ps) rest big limit read (_, a) fits over =
    ap (◌∷◌ (frame unknown_frame)) (polls-exceeding ps rest big limit read a fits over)
polls-exceeding (frame (data_frame bytes) ∷ ps) rest big limit read (_, a) fits over =
    let e : ltb (limit - read) (length bytes) ≡ false = ground arith in
    rw (e, polls)
      (ap (◌∷◌ (frame (data_frame bytes))) (
        polls-exceeding ps rest big limit (read + length bytes) a (omega (arith, fits))
          (omega (arith, over))))
polls-exceeding (frame (trailers t) ∷ ps) rest big limit read (h, a) fits over = absurd (cc)
polls-exceeding (failed e ∷ ps) rest big limit read (h, a) fits over = absurd (cc)
polls-exceeding (end_of_body ∷ ps) rest big limit read (h, a) fits over = absurd (cc)
