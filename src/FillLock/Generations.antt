-- ===== src/FillLock/Generations.antt =====
-- A guard that comes too late leaves the lock of the one that took over.
use rginx.Prelude.{
  ℕ, zero, suc, ◌+◌, ◌^◌, ◌<◌, ◌≤◌, ◌≡◌, ◌≢◌, refl, sym, ap, ◌∙◌, inl, inr, Option, none, some,
  List, [], ◌∷◌, length, get_elem?, ◌==◌, arith, Bool-cases, Option-cases, Bytes, bytes_eq,
  bytes_eq_iff, Map, get, get-remove_other,
}
use rginx.FillLock.{
  CacheFillLockState, CacheFillGuard, External, FillLocks, no_locks, Request, Event,
  next_generation, acquire, ask_external, fill_lock_decision, is_fresh, attach_fill_read_state,
  without_own, remove_at, release_guard, step, steps,
}

abbrev generation_in : Option CacheFillLockState → ℕ
generation_in none = 0
generation_in (some lock) = lock.generation

-- The newest guard comes first, and its generation is below `n`.
abbrev Below : ℕ → List CacheFillGuard → Type 0
Below n [] = Unit
Below n (g ∷ gs) = (g.generation < n) × Below g.generation gs

Below-weaken : (n m : ℕ) (gs : List CacheFillGuard) → n ≤ m → Below n gs → Below m gs
Below-weaken n m [] h b = tt
Below-weaken n m (g ∷ gs) h (l, b) = (omega (arith, h, l), b)

Below-remove_at : (n i : ℕ) (gs : List CacheFillGuard) → Below n gs → Below n (remove_at i gs)
Below-remove_at n i [] b = tt
Below-remove_at n zero (g ∷ gs) (l, b) = Below-weaken g.generation n gs (omega (arith, l)) b
Below-remove_at n (suc i) (g ∷ gs) (l, b) = (l, Below-remove_at g.generation i gs b)

Below-get_elem? :
    (n i : ℕ) (gs : List CacheFillGuard) (guard : CacheFillGuard)
    → Below n gs
    → get_elem? gs i ≡ some guard
    → guard.generation < n
Below-get_elem? n i [] guard b e = absurd (ground (arith, e))
Below-get_elem? n zero (g ∷ gs) guard (l, b) e = ground (arith, e, l)
Below-get_elem? n (suc i) (g ∷ gs) guard (l, b) e =
    let k = Below-get_elem? g.generation i gs guard b e in omega (arith, l, k)

-- Guards at different places have different generations.
Below-apart :
    (n i j : ℕ) (gs : List CacheFillGuard) (g h : CacheFillGuard)
    → Below n gs
    → i ≢ j
    → get_elem? gs i ≡ some g
    → get_elem? gs j ≡ some h
    → g.generation ≢ h.generation
Below-apart n i j [] g h b d e f = absurd (ground (arith, e))
Below-apart n zero zero (x ∷ xs) g h b d e f = absurd (d refl)
Below-apart n zero (suc j) (x ∷ xs) g h (l, b) d e f =
    let k = Below-get_elem? x.generation j xs h b f in λ s. absurd (ground (arith, e, k, s))
Below-apart n (suc i) zero (x ∷ xs) g h (l, b) d e f =
    let k = Below-get_elem? x.generation i xs g b e in λ s. absurd (ground (arith, f, k, s))
Below-apart n (suc i) (suc j) (x ∷ xs) g h (l, b) d e f =
    Below-apart x.generation i j xs g h b (λ s. d (ap suc s)) e f

-- A guard leaves a lock of another generation.
without_own-others :
    (locks : Map CacheFillLockState) (guard : CacheFillGuard) (key : Bytes)
    (lock : CacheFillLockState)
    → get locks key ≡ some lock
    → lock.generation ≢ guard.generation
    → get (without_own locks guard) key ≡ some lock
without_own-others locks guard key lock h d = elim (Option-cases (get locks guard.key)) [
  | inl e ↦ rw (without_own, e) h
  | inr (own, e) ↦ elim (Bool-cases (own.generation == guard.generation)) [
    | inr f ↦ rw (without_own, e, f) h
    | inl f ↦ elim (Bool-cases (bytes_eq guard.key key)) [
      | inr other ↦ rw (without_own, e, f) (get-remove_other locks guard.key key other ∙ h)
      | inl same ↦
          let here : guard.key ≡ key = (bytes_eq_iff guard.key key).0 same in
          let one : some own ≡ some lock = sym e ∙ ap (get locks) here ∙ h in
          let same_generation : own.generation ≡ guard.generation = ground (arith, f) in
          absurd (d (sym (ap generation_in one) ∙ same_generation))
    ]
  ]
]

-- After `k` events at most so many generations are given.
abbrev Counted : ℕ → FillLocks → Type 0
Counted k state =
    (state.fill_lock_generation ≤ k) × Below (suc state.fill_lock_generation) state.guards

acquire-Counted :
    (k : ℕ) (state : FillLocks) (request : Request)
    → suc k < 2 ^ 64
    → Counted k state
    → Counted (suc k) (acquire state request).1
unfolding acquire
acquire-Counted k state request fits (c, b) =
    let e : next_generation state ≡ suc state.fill_lock_generation = omega (arith, c, fits) in
    rw e (omega (arith, c), (omega arith, b))

ask_external-Counted :
    (k : ℕ) (state : FillLocks) (request : Request) (external : External)
    → suc k < 2 ^ 64
    → Counted k state
    → Counted (suc k) (ask_external state request external).1
unfolding ask_external
ask_external-Counted k state request External.unshared fits h =
    acquire-Counted k state request fits h
ask_external-Counted k state request External.acquired_there fits h =
    acquire-Counted k state request fits h
ask_external-Counted k state request (External.read_there reader) fits (c, b) =
    (omega (arith, c), b)
ask_external-Counted k state request External.held_there fits (c, b) = (omega (arith, c), b)

-- An event that gives no generation.
Counted-suc : (k : ℕ) (state : FillLocks) → Counted k state → Counted (suc k) state
Counted-suc k state (c, b) = (omega (arith, c), b)

step-Counted :
    (k : ℕ) (state : FillLocks) (event : Event)
    → suc k < 2 ^ 64
    → Counted k state
    → Counted (suc k) (step state event)
unfolding step fill_lock_decision attach_fill_read_state release_guard
step-Counted k state (Event.ask request) fits h =
    elim (Option-cases (get state.fill_locks request.key)) [
      | inl e ↦
          rw (step, fill_lock_decision, e)
            (ask_external-Counted k state request request.external fits h)
      | inr (lock, e) ↦ elim (Bool-cases (is_fresh request lock)) [
        | inl f ↦ rw (step, fill_lock_decision, e, f) (Counted-suc k state h)
        | inr f ↦
            rw (step, fill_lock_decision, e, f)
              (ask_external-Counted k state request request.external fits h)
      ]
    ]
step-Counted k state (Event.attach key generation reader) fits h =
    elim (Option-cases (get state.fill_locks key)) [
      | inl e ↦ rw (step, attach_fill_read_state, e) (Counted-suc k state h)
      | inr (lock, e) ↦ elim (Bool-cases (lock.generation == generation)) [
        | inl f ↦ rw (step, attach_fill_read_state, e, f) (Counted-suc k state h)
        | inr f ↦ rw (step, attach_fill_read_state, e, f) (Counted-suc k state h)
      ]
    ]
step-Counted k state (Event.release i) fits (c, b) =
    elim (Option-cases (get_elem? state.guards i)) [
      | inl e ↦ rw (step, release_guard, e) (Counted-suc k state (c, b))
      | inr (guard, e) ↦
          rw (step, release_guard, e)
            (omega (arith, c), Below-remove_at (suc state.fill_lock_generation) i state.guards b)
    ]

steps-Counted :
    (k : ℕ) (state : FillLocks) (events : List Event)
    → k + length events < 2 ^ 64
    → Counted k state
    → Counted (k + length events) (steps state events)
unfolding steps
steps-Counted k state [] fits h = let e : k + 0 ≡ k = omega arith in rw e h
steps-Counted k state (event ∷ events) fits h =
    let e : k + suc (length events) ≡ suc k + length events = omega arith in
    rw e (
      steps-Counted (suc k) (step state event) events (omega (arith, fits))
        (step-Counted k state event (omega (arith, fits)) h))

-- Within fewer than 2 ^ 64 events from the start, if the lock of a key has the generation of a living guard
-- of that key, then the release of another living guard leaves this lock: not even a guard whose own lock
-- got too old and was taken over removes it.
pub release_guard-others :
    (events : List Event) (i j : ℕ) (late holder : CacheFillGuard) (lock : CacheFillLockState)
    → length events < 2 ^ 64
    → i ≢ j
    → get_elem? (steps no_locks events).guards i ≡ some late
    → get_elem? (steps no_locks events).guards j ≡ some holder
    → get (steps no_locks events).fill_locks holder.key ≡ some lock
    → lock.generation ≡ holder.generation
    → get (release_guard (steps no_locks events) i).fill_locks holder.key ≡ some lock
unfolding release_guard
release_guard-others events i j late holder lock fits apart at_i at_j held g =
    let state = steps no_locks events in
    let e : 0 + length events ≡ length events = omega arith in
    let (_, b) = steps-Counted 0 no_locks events (omega (arith, fits)) (omega arith, tt) in
    let differ =
      Below-apart (suc state.fill_lock_generation) i j state.guards late holder b apart at_i at_j in
    rw (release_guard, at_i)
      (without_own-others state.fill_locks late holder.key lock held (λ s. differ (sym s ∙ g)))
