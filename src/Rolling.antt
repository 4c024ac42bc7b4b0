-- ===== src/Rolling.antt =====
-- crates/rginx-http/src/state/counters/rolling.rs: events counted by second. Counts are `u64`, and too
-- small to wrap; a lock makes each operation atomic.
pub mod Order
pub mod Window
mod Tests
use rginx.Prelude.{
  ℕ, zero, suc, ◌+◌, ◌-◌, ◌/◌, Bool, true, false, List, [], ◌∷◌, ◌++◌, if◌then◌else◌, ltb, leb,
  ◌==◌,
}

abbrev pub max_recent_window_secs : ℕ
max_recent_window_secs = 300

abbrev pub recent_window_secs : ℕ
recent_window_secs = 60

-- A second and its count, the oldest first.
abbrev pub Buckets : Type 0
Buckets = List (ℕ × ℕ)

abbrev pub cutoff : ℕ → ℕ → ℕ
cutoff now_second window_secs = now_second - (window_secs - 1)

-- The `while` that pops the front.
pub pop_before : ℕ → Buckets → Buckets
pop_before limit [] = []
pop_before limit ((second, count) ∷ rest) =
    let popped = pop_before limit rest in
    if ltb second limit then popped else (second, count) ∷ rest

pub trim_old_buckets : Buckets → ℕ → ℕ → Buckets
unfolding pop_before
trim_old_buckets buckets now_second window_secs = pop_before (cutoff now_second window_secs) buckets

-- The `match` on the last bucket.
pub count_at : ℕ → Buckets → Buckets
count_at second [] = (second, 1) ∷ []
count_at second ((s, n) ∷ b ∷ rest) = (s, n) ∷ count_at second (b ∷ rest)
count_at second ((s, n) ∷ []) =
    if s == second
    then (s, n + 1) ∷ []
    else if ltb second s
    then (s, n + 1) ∷ []
    else (s, n) ∷ (second, 1) ∷ []

pub increment_at : Buckets → ℕ → Buckets
unfolding trim_old_buckets count_at
increment_at buckets second =
    count_at second (trim_old_buckets buckets second max_recent_window_secs)

-- The events at the given times, in the order of the calls.
pub increments : Buckets → List ℕ → Buckets
increments b [] = b
increments b (t ∷ ts) = increments (increment_at b t) ts

pub sum_from : ℕ → Buckets → ℕ
sum_from limit [] = 0
sum_from limit ((second, count) ∷ rest) =
    let others = sum_from limit rest in if leb limit second then count + others else others

pub sum_recent : Buckets → ℕ → ℕ → ℕ × Buckets
unfolding trim_old_buckets sum_from
sum_recent buckets now_second window_secs =
    let kept = trim_old_buckets buckets now_second max_recent_window_secs in
    (sum_from (cutoff now_second window_secs) kept, kept)

pub record RecentTrafficStatsCounters : Type 0 where
  pub downstream_requests_total : Buckets
  pub downstream_responses_total : Buckets
  pub downstream_responses_2xx_total : Buckets
  pub downstream_responses_4xx_total : Buckets
  pub downstream_responses_5xx_total : Buckets
  pub grpc_requests_total : Buckets

pub record RecentTrafficStatsSnapshot : Type 0 where
  pub window_secs : ℕ
  pub downstream_requests_total : ℕ
  pub downstream_responses_total : ℕ
  pub downstream_responses_2xx_total : ℕ
  pub downstream_responses_4xx_total : ℕ
  pub downstream_responses_5xx_total : ℕ
  pub grpc_requests_total : ℕ

pub snapshot_for_window : RecentTrafficStatsCounters → ℕ → ℕ → RecentTrafficStatsSnapshot
unfolding sum_recent
snapshot_for_window c now w = record {
  window_secs = w;
  downstream_requests_total = (sum_recent c.downstream_requests_total now w).0;
  downstream_responses_total = (sum_recent c.downstream_responses_total now w).0;
  downstream_responses_2xx_total = (sum_recent c.downstream_responses_2xx_total now w).0;
  downstream_responses_4xx_total = (sum_recent c.downstream_responses_4xx_total now w).0;
  downstream_responses_5xx_total = (sum_recent c.downstream_responses_5xx_total now w).0;
  grpc_requests_total = (sum_recent c.grpc_requests_total now w).0;
}

pub record_downstream_request : RecentTrafficStatsCounters → ℕ → RecentTrafficStatsCounters
unfolding increment_at
record_downstream_request c now = record c {
  downstream_requests_total = increment_at c.downstream_requests_total now;
}

pub record_downstream_response : RecentTrafficStatsCounters → ℕ → ℕ → RecentTrafficStatsCounters
unfolding increment_at
record_downstream_response c now status =
    let counted = record c {
      downstream_responses_total = increment_at c.downstream_responses_total now;
    } in
    if status / 100 == 2
    then record counted {
      downstream_responses_2xx_total = increment_at c.downstream_responses_2xx_total now;
    }
    else if status / 100 == 4
    then record counted {
      downstream_responses_4xx_total = increment_at c.downstream_responses_4xx_total now;
    }
    else if status / 100 == 5
    then record counted {
      downstream_responses_5xx_total = increment_at c.downstream_responses_5xx_total now;
    }
    else counted

pub record_grpc_request : RecentTrafficStatsCounters → ℕ → RecentTrafficStatsCounters
unfolding increment_at
record_grpc_request c now = record c {
  grpc_requests_total = increment_at c.grpc_requests_total now;
}
