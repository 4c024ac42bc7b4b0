-- ===== src/Rolling/Order.antt =====
-- The buckets stay in the order of time, even if the clock goes back.
use rginx.Prelude.{ℕ, suc, ◌<◌, ◌≤◌, inl, inr, List, [], ◌∷◌, ltb, arith, Bool-cases}
use rginx.Rolling.{Buckets, pop_before, trim_old_buckets, count_at, increment_at, increments}

-- Every second is greater than `before`, and so on along the list.
abbrev pub SortedAfter : ℕ → Buckets → Type 0
SortedAfter before [] = Unit
SortedAfter before ((s, n) ∷ rest) = (before ≤ s) × (0 < n) × SortedAfter (suc s) rest

abbrev pub IsSorted : Buckets → Type 0
IsSorted b = SortedAfter 0 b

weaken : (a b : ℕ) (xs : Buckets) → a ≤ b → SortedAfter b xs → SortedAfter a xs
weaken a b [] le h = tt
weaken a b ((s, n) ∷ rest) le (h, p, t) = (omega (arith, le, h), p, t)

pop_before-IsSorted :
    (limit k : ℕ) (b : Buckets) → SortedAfter k b → SortedAfter k (pop_before limit b)
unfolding pop_before
pop_before-IsSorted limit k [] h = tt
pop_before-IsSorted limit k ((s, n) ∷ rest) (h, p, t) = elim (Bool-cases (ltb s limit)) [
  | inl e ↦
      rw (e, pop_before)
        (weaken k (suc s) _ (omega (arith, h)) (pop_before-IsSorted limit (suc s) rest t))
  | inr e ↦ rw (e, pop_before) (h, p, t)
]

-- The `match` keeps the order of buckets that are there; only a first bucket must come late enough.
count_at-IsSorted :
    (second k s n : ℕ) (rest : Buckets)
    → SortedAfter k ((s, n) ∷ rest)
    → SortedAfter k (count_at second ((s, n) ∷ rest))
unfolding count_at
count_at-IsSorted second k s n ((s', n') ∷ rest) (h, p, t) =
    (h, p, count_at-IsSorted second (suc s) s' n' rest t)
count_at-IsSorted second k s n [] (h, p, t) = ground arith

count_any : (second : ℕ) (b : Buckets) → IsSorted b → IsSorted (count_at second b)
unfolding count_at
count_any second [] h = (omega arith, omega arith, tt)
count_any second ((s, n) ∷ rest) h = count_at-IsSorted second 0 s n rest h

-- Whatever the clock does between the calls, the seconds of the buckets increase, and no bucket is
-- empty.
pub increments-IsSorted : (b : Buckets) (ts : List ℕ) → IsSorted b → IsSorted (increments b ts)
unfolding increments increment_at trim_old_buckets
increments-IsSorted b [] h = h
increments-IsSorted b (t ∷ ts) h =
    increments-IsSorted (increment_at b t) ts (count_any t _ (pop_before-IsSorted _ 0 b h))
