-- ===== src/CacheRange/Trim/Sent.antt =====
-- What a trimmed body sends: the bytes behind the skipped ones, as many as planned, or an error.
use rginx.Prelude.{
  ℕ, zero, suc, ◌+◌, ◌-◌, ◌<◌, ◌≤◌, ◌≡◌, refl, sym, ap, inl, inr, true, false, List, [], ◌∷◌, ◌++◌,
  length, is_empty, take, drop, take-append, drop-append, drop-nil, take-nil, ◌||◌, take-all,
  drop-all, length-drop, length-take, if◌then◌else◌, ltb, leb, ◌==◌, arith, Bool-cases, All, Bytes,
  Polled, data_of, errors_of, goes_on, length-append,
}
use rginx.Prelude.Polled.{pending, frame, failed, end_of_body}
use rginx.Prelude.Frame.{data_frame, trailers, unknown_frame}
use rginx.CacheRange.Trim.{
  RangeError, DownstreamRangeTrimBody, trimming, emit_data, poll_inner, poll_range, poll_ranges,
}

-- The range was sent: these data, and these errors.
abbrev pub Sends : List (Polled RangeError) → Bytes → List RangeError → Type 0
Sends answers bytes errors = (data_of answers ≡ bytes) × (errors_of answers ≡ errors)

-- What is missing at the end is an error.
abbrev pub missing : ℕ → Bytes → List RangeError
missing wanted bytes = if ltb (length bytes) wanted then RangeError.truncated_range ∷ [] else []

done-silent :
    (n : ℕ) (inner : List (Polled RangeError)) (skip emit : ℕ)
    → Sends (poll_ranges n (trimming inner skip emit true)) [] []
unfolding poll_ranges poll_range
done-silent zero inner skip emit = (refl, refl)
done-silent (suc n) inner skip emit = done-silent n inner skip emit

poll_range-open :
    (inner : List (Polled RangeError)) (skip emit : ℕ)
    → 0 < emit
    → poll_range (trimming inner skip emit false) ≡ poll_inner inner skip emit
unfolding poll_range
poll_range-open inner skip emit h =
    let e : (emit == 0) ≡ false = ground arith in rw (poll_range, e) refl

-- The first poll with what it leaves.
abbrev answers_from : ℕ → Polled RangeError × DownstreamRangeTrimBody → List (Polled RangeError)
answers_from n (answer, next) = answer ∷ poll_ranges n next

poll_ranges-open :
    (n : ℕ) (inner : List (Polled RangeError)) (skip emit : ℕ)
    → 0 < emit
    → poll_ranges (suc n) (trimming inner skip emit false)
      ≡ answers_from n (poll_inner inner skip emit)
unfolding poll_ranges
poll_ranges-open n inner skip emit h = ap (answers_from n) (poll_range-open inner skip emit h)

nonempty-length : (bytes : Bytes) → 0 < length bytes → is_empty bytes ≡ false
nonempty-length [] h = absurd (omega (arith, h))
nonempty-length (b ∷ bytes) h = refl

sent-take :
    (bytes : Bytes) (emit : ℕ)
    → (if ltb emit (length bytes) then take emit bytes else bytes) ≡ take emit bytes
sent-take bytes emit = elim (Bool-cases (ltb emit (length bytes))) [
  | inl e ↦ rw e refl
  | inr e ↦ rw e (sym (take-all emit bytes (ground arith)))
]

-- Bytes that are left over the skipped ones are sent, up to the number to emit.
emit_data-sends :
    (bytes : Bytes) (emit : ℕ) (rest : List (Polled RangeError))
    (later : Polled RangeError × DownstreamRangeTrimBody)
    → 0 < emit
    → 0 < length bytes
    → emit_data bytes emit rest later ≡ (
      frame (data_frame (take emit bytes)),
      trimming rest 0 (emit - length bytes) ((emit - length bytes) == 0),
    )
unfolding emit_data
emit_data-sends bytes emit rest later h k =
    let some_left : (emit == 0) ≡ false = ground arith in
    let full : is_empty (take emit bytes) ≡ false =
      nonempty-length (take emit bytes) (omega (arith, length-take emit bytes, h, k)) in
    let left : emit - length (take emit bytes) ≡ emit - length bytes =
      omega (arith, length-take emit bytes) in
    rw (emit_data, sent-take bytes emit, some_left, full, left) refl

missing-more :
    (skip emit : ℕ) (bytes more : Bytes)
    → length bytes ≤ skip
    → missing (skip - length bytes + emit) more ≡ missing (skip + emit) (bytes ++ more)
missing-more skip emit bytes more h = rw (length-append bytes more) (ground arith)

slice-split :
    (skip emit : ℕ) (bytes more : Bytes)
    → skip < length bytes
    → take emit (drop skip (bytes ++ more))
      ≡ take emit (drop skip bytes) ++ take (emit - length (drop skip bytes)) more
slice-split skip emit bytes more h =
    let e : skip - length bytes ≡ 0 = omega (arith, h) in
    rw (drop-append skip bytes more, e) (take-append emit (drop skip bytes) more)

missing-sent :
    (skip emit : ℕ) (bytes more : Bytes)
    → skip < length bytes
    → missing (0 + (emit - length (drop skip bytes))) more ≡ missing (skip + emit) (bytes ++ more)
missing-sent skip emit bytes more h =
    rw (length-append bytes more, length-drop skip bytes) (ground (arith, h))

-- Behind some data the body has ended or goes on.
sent-later :
    (sent : Bytes) (n : ℕ) (rest : List (Polled RangeError)) (left : ℕ)
    → (0 < left
        → Sends
            (poll_ranges n (trimming rest 0 left false))
            (take left (data_of rest))
            (missing (0 + left) (data_of rest)))
    → (sent ++ data_of (poll_ranges n (trimming rest 0 left (left == 0)))
        ≡ sent ++ take left (data_of rest))
      × (errors_of (poll_ranges n (trimming rest 0 left (left == 0)))
          ≡ missing (0 + left) (data_of rest))
sent-later sent n rest left h = elim (Bool-cases (left == 0)) [
  | inl e ↦
      let z : left ≡ 0 = ground arith in
      let m : ltb (length (data_of rest)) 0 ≡ false = ground arith in
      let (d, f) = done-silent n rest 0 0 in rw (z, d, f, m) (refl, refl)
  | inr e ↦ let (d, f) = h (ground arith) in rw (e, d, f) (refl, refl)
]

range-sent :
    (inner : List (Polled RangeError)) (n skip emit : ℕ)
    → All (λ p. goes_on p ≡ true) inner
    → 0 < emit
    → length inner ≤ n
    → Sends
        (poll_ranges (suc n) (trimming inner skip emit false))
        (take emit (drop skip (data_of inner)))
        (missing (skip + emit) (data_of inner))
unfolding poll_inner
range-sent [] n skip emit a h fits =
    let e : (ltb 0 skip || ltb 0 emit) ≡ true = ground arith in
    let m : ltb 0 (skip + emit) ≡ true = ground arith in
    let (d, f) = done-silent n [] skip emit in
    rw (poll_ranges-open n [] skip emit h, e, m, drop-nil skip, take-nil emit, d, f) (refl, refl)
range-sent (p ∷ rest) zero skip emit a h fits = absurd (omega (arith, fits))
range-sent (pending ∷ rest) (suc n) skip emit (k, a) h fits =
    rw (poll_ranges-open (suc n) (pending ∷ rest) skip emit h)
      (range-sent rest n skip emit a h (omega (arith, fits)))
range-sent (frame unknown_frame ∷ rest) (suc n) skip emit (k, a) h fits =
    rw (poll_ranges-open (suc n) (frame unknown_frame ∷ rest) skip emit h)
      (range-sent rest n skip emit a h (omega (arith, fits)))
range-sent (frame (trailers t) ∷ rest) (suc n) skip emit (k, a) h fits = absurd (cc)
range-sent (failed e ∷ rest) (suc n) skip emit (k, a) h fits = absurd (cc)
range-sent (end_of_body ∷ rest) (suc n) skip emit (k, a) h fits = absurd (cc)
range-sent (frame (data_frame bytes) ∷ rest) (suc n) skip emit (k, a) h fits =
    elim (Bool-cases (leb (length bytes) skip)) [
      | inl e ↦
          let few : length bytes ≤ skip = ground arith in
          rw
            (
              poll_ranges-open (suc n) (frame (data_frame bytes) ∷ rest) skip emit h,
              poll_inner,
              e,
              ← poll_ranges-open (suc n) rest (skip - length bytes) emit h,
              drop-append skip bytes (data_of rest),
              drop-all skip bytes few,
              ← missing-more skip emit bytes (data_of rest) few,
            )
            (range-sent rest (suc n) (skip - length bytes) emit a h (omega (arith, fits)))
      | inr e ↦
          let more : skip < length bytes = ground arith in
          let cut : 0 < length (drop skip bytes) = omega (arith, length-drop skip bytes, more) in
          rw
            (
              poll_ranges-open (suc n) (frame (data_frame bytes) ∷ rest) skip emit h,
              poll_inner,
              e,
              emit_data-sends (drop skip bytes) emit rest (poll_inner rest 0 emit) h cut,
              slice-split skip emit bytes (data_of rest) more,
              ← missing-sent skip emit bytes (data_of rest) more,
            )
            (sent-later (take emit (drop skip bytes)) (suc n) rest (emit - length (drop skip bytes))
              λ l. range-sent rest n 0 (emit - length (drop skip bytes)) a l (omega (arith, fits)))
    ]

-- A poll of a body whose inner one answers with data, waits or sends other frames, and then ends:
-- among more polls than it has answers, the data that is sent is the data of the inner body without the bytes to
-- skip, as many as there are to emit, and there is one error, that of a truncated range, exactly if
-- the inner body had fewer bytes than that.
pub poll_ranges-sent :
    (inner : List (Polled RangeError)) (n skip emit : ℕ)
    → All (λ p. goes_on p ≡ true) inner
    → 0 < emit
    → length inner ≤ n
    → (data_of (poll_ranges (suc n) (trimming inner skip emit false))
        ≡ take emit (drop skip (data_of inner)))
      × (errors_of (poll_ranges (suc n) (trimming inner skip emit false)) ≡ (
          if ltb (length (data_of inner)) (skip + emit)
          then RangeError.truncated_range ∷ []
          else []))
poll_ranges-sent = range-sent
