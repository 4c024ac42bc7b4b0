-- ===== src/Rolling/Window.antt =====
-- The sum over a window counts the events in it.
use rginx.Prelude.{ℕ, suc, ◌+◌, ◌≤◌, ◌≡◌, refl, ◌∙◌, List, [], ◌∷◌, leb, arith, if◌then◌else◌, All}
use rginx.Rolling.{
  Buckets, pop_before, trim_old_buckets, count_at, increment_at, increments, sum_from, sum_recent,
  cutoff, max_recent_window_secs,
}

-- No bucket is later than `k`.
abbrev Upto : ℕ → Buckets → Type 0
Upto k b = All (λ (s, n). s ≤ k) b

-- The times do not decrease, from `k` on.
abbrev pub IsMonotone : ℕ → List ℕ → Type 0
IsMonotone k [] = Unit
IsMonotone k (t ∷ ts) = (k ≤ t) × IsMonotone t ts

-- How many of the times are at or after a limit.
abbrev pub count_from : ℕ → List ℕ → ℕ
count_from limit [] = 0
count_from limit (t ∷ ts) = let rest = count_from limit ts in if leb limit t then suc rest else rest

sum_from-pop_before :
    (limit k : ℕ) (b : Buckets) → k ≤ limit → sum_from limit (pop_before k b) ≡ sum_from limit b
unfolding sum_from pop_before
sum_from-pop_before limit k [] le = refl
sum_from-pop_before limit k ((s, n) ∷ rest) le = ground (arith, sum_from-pop_before limit k rest le)

pop_before-Upto : (k limit : ℕ) (b : Buckets) → Upto limit b → Upto limit (pop_before k b)
unfolding pop_before
pop_before-Upto k limit [] h = tt
pop_before-Upto k limit ((s, n) ∷ rest) (h, t) = ground (arith, pop_before-Upto k limit rest t)

sum_from-count_at :
    (limit second : ℕ) (b : Buckets)
    → Upto second b
    → sum_from limit (count_at second b) ≡ sum_from limit b + (if leb limit second then 1 else 0)
unfolding sum_from count_at
sum_from-count_at limit second [] h = ground arith
sum_from-count_at limit second ((s, n) ∷ c ∷ rest) (h, t) =
    ground (arith, sum_from-count_at limit second (c ∷ rest) t)
sum_from-count_at limit second ((s, n) ∷ []) (h, t) = ground arith

count_at-Upto : (second : ℕ) (b : Buckets) → Upto second b → Upto second (count_at second b)
unfolding count_at
count_at-Upto second [] h = (omega arith, tt)
count_at-Upto second ((s, n) ∷ c ∷ rest) (h, t) = (h, count_at-Upto second (c ∷ rest) t)
count_at-Upto second ((s, n) ∷ []) (h, t) = ground arith

weaken : (j k : ℕ) (b : Buckets) → j ≤ k → Upto j b → Upto k b
weaken j k [] le h = tt
weaken j k ((s, n) ∷ rest) le (h, t) = (omega (arith, le, h), weaken j k rest le t)

sum_from-increments :
    (limit now k : ℕ) (b : Buckets) (ts : List ℕ)
    → cutoff now max_recent_window_secs ≤ limit
    → Upto k b
    → IsMonotone k ts
    → All (λ t. t ≤ now) ts
    → sum_from limit (increments b ts) ≡ sum_from limit b + count_from limit ts
unfolding increments increment_at trim_old_buckets
sum_from-increments limit now k b [] wide u m a = omega arith
sum_from-increments limit now k b (t ∷ ts) wide u (le, m) (at, a) =
    let kept = pop_before (cutoff t max_recent_window_secs) b in
    let upto = pop_before-Upto (cutoff t max_recent_window_secs) t b (weaken k t b le u) in
    sum_from-increments limit now t (count_at t kept) ts wide (count_at-Upto t kept upto) m a
    ∙ ground (
      arith,
      sum_from-count_at limit t kept upto,
      sum_from-pop_before limit (cutoff t max_recent_window_secs) b (omega (arith, wide, at)),
    )

-- If the clock does not go back, the sum over a window of at most 300 seconds is the number of the
-- events in it, whatever older events were dropped on the way.
pub sum_recent-increments :
    (now window : ℕ) (ts : List ℕ)
    → IsMonotone 0 ts
    → All (λ t. t ≤ now) ts
    → window ≤ max_recent_window_secs
    → (sum_recent (increments [] ts) now window).0 ≡ count_from (cutoff now window) ts
unfolding sum_recent trim_old_buckets
sum_recent-increments now window ts m a w =
    sum_from-pop_before (cutoff now window) (cutoff now max_recent_window_secs) (increments [] ts)
      (omega (arith, w))
    ∙ sum_from-increments (cutoff now window) now 0 [] ts (omega (arith, w)) tt m a
    ∙ omega arith
