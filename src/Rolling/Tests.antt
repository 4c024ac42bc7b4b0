-- ===== src/Rolling/Tests.antt =====
-- Runs of a rolling counter, and the examples of its theorems.
use rginx.Prelude.{◌≡◌, refl, [], ◌∷◌, arith}
use rginx.Rolling.{
  increments, increment_at, trim_old_buckets, pop_before, count_at, sum_recent, cutoff,
}
use rginx.Rolling.Order.{IsSorted, increments-IsSorted}
use rginx.Rolling.Window.{count_from, sum_recent-increments}

-- The source's own test: the clock goes from 10 to 12 and back to 11.
clock_back : increments [] (10 ∷ 12 ∷ 11 ∷ []) ≡ (10, 1) ∷ (12, 2) ∷ []
unfolding increments increment_at trim_old_buckets pop_before count_at
clock_back = refl

increments-IsSorted_example : IsSorted (increments [] (10 ∷ 12 ∷ 11 ∷ []))
increments-IsSorted_example = increments-IsSorted [] (10 ∷ 12 ∷ 11 ∷ []) tt

sum_recent-increments_example :
    (sum_recent (increments [] (10 ∷ 400 ∷ 450 ∷ [])) 455 60).0
    ≡ count_from (cutoff 455 60) (10 ∷ 400 ∷ 450 ∷ [])
sum_recent-increments_example =
    sum_recent-increments 455 60 (10 ∷ 400 ∷ 450 ∷ [])
      (omega arith, (omega arith, (omega arith, tt)))
      (omega arith, (omega arith, (omega arith, tt))) (omega arith)
