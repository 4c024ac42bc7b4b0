-- ===== src/BodyLimit/Tests.antt =====
-- Runs of a limited body, and the examples of its theorems.
use rginx.Prelude.{Polled, ◌≡◌, ◌≤◌, refl, List, [], ◌∷◌, ◌++◌, codes, arith}
use rginx.BodyLimit.{BoxError, new_body, polls, poll_frame, pass_on}
use rginx.Prelude.Polled.{frame, pending, end_of_body}
use rginx.Prelude.Frame.{data_frame}
use rginx.BodyLimit.Limits.{data_bytes, polls-limit, polls-exceeding, limit_error}

abbrev two_frames : List (Polled BoxError)
two_frames = frame (data_frame (codes "hello")) ∷ frame (data_frame (codes "world")) ∷ []

-- The source's tests: the second frame is over the limit of 8 bytes, and within that of 10.
second_refused :
    (polls 2 (new_body two_frames 8)).0 ≡ frame (data_frame (codes "hello")) ∷ limit_error 8 ∷ []
unfolding polls poll_frame pass_on
second_refused = refl

both_pass : (polls 3 (new_body two_frames 10)).0 ≡ two_frames ++ end_of_body ∷ []
unfolding polls poll_frame pass_on
both_pass = refl

polls-limit_example : data_bytes (polls 2 (new_body two_frames 8)).0 ≤ 8
polls-limit_example = polls-limit 2 two_frames 8

abbrev before : List (Polled BoxError)
before = pending ∷ frame (data_frame (codes "hello")) ∷ []

polls-exceeding_example :
    (polls 4 (new_body (before ++ frame (data_frame (codes "world")) ∷ []) 8)).0
    ≡ before ++ limit_error 8 ∷ end_of_body ∷ []
polls-exceeding_example =
    polls-exceeding before [] (codes "world") 8 0 (refl, (refl, tt)) (omega arith) (omega arith)
