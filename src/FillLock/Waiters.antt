-- ===== src/FillLock/Waiters.antt =====
-- Who waits for a fill is woken, and a key that nobody fills can be filled.
use rginx.Prelude.{
  ℕ, suc, ◌≡◌, ◌≢◌, refl, sym, ap, ◌∙◌, inl, inr, ◌&&◌, Option, none, some, List, Memᴰ, get_elem?,
  arith, Bool-cases, Option-cases, get,
}
use rginx.FillLock.{
  CacheFillLockState, CacheFillGuard, External, FillLockDecision, FillLocks, no_locks, Request,
  Event, guard_for, acquire, ask_external, join, is_fresh, same_share, fill_lock_decision,
  without_own, release_guard, steps,
}
use rginx.FillLock.Holders.{no_locks-Held, steps-Held, without_own-gone}

-- The generation that a decision waits for.
abbrev waited : FillLockDecision → Option ℕ
waited (FillLockDecision.wait_local generation) = some generation
waited (FillLockDecision.acquired guard) = none
waited (FillLockDecision.read_local reader) = none
waited (FillLockDecision.read_external reader) = none
waited (FillLockDecision.wait_external key) = none

ask_external-waited :
    (state : FillLocks) (request : Request) (external : External)
    → waited (ask_external state request external).0 ≡ none
unfolding ask_external acquire
ask_external-waited state request External.unshared = refl
ask_external-waited state request External.acquired_there = refl
ask_external-waited state request (External.read_there reader) = refl
ask_external-waited state request External.held_there = refl

join-waited :
    (request : Request) (lock : CacheFillLockState) (generation : ℕ)
    → waited (join request lock) ≡ some generation
    → lock.generation ≡ generation
unfolding join
join-waited request lock generation h = elim (Option-cases lock.reader_state) [
  | inl e ↦ ground (arith, rw (join, e) at h)
  | inr (reader, e) ↦ elim (Bool-cases (same_share request lock && request.can_share reader)) [
    | inl f ↦ absurd (ground (arith, rw (join, e, f) at h))
    | inr f ↦ ground (arith, rw (join, e, f) at h)
  ]
]

waited-lock :
    (state : FillLocks) (request : Request) (generation : ℕ)
    → waited (fill_lock_decision state request).0 ≡ some generation
    → (lock : CacheFillLockState) × (get state.fill_locks request.key ≡ some lock)
      × (lock.generation ≡ generation)
unfolding fill_lock_decision
waited-lock state request generation h = elim (Option-cases (get state.fill_locks request.key)) [
  | inl e ↦ absurd (
      ground (
        arith,
        rw (fill_lock_decision, e) at h,
        ask_external-waited state request request.external,
      ))
  | inr (lock, e) ↦ elim (Bool-cases (is_fresh request lock)) [
    | inl f ↦ (lock, e, join-waited request lock generation (rw (fill_lock_decision, e, f) at h))
    | inr f ↦ absurd (
        ground (
          arith,
          rw (fill_lock_decision, e, f) at h,
          ask_external-waited state request request.external,
        ))
  ]
]

module _ {ℓ} {A : Type ℓ} where
  mem-get_elem? : {x : A} {xs : List A} → Memᴰ x xs → (i : ℕ) × (get_elem? xs i ≡ some x)
  mem-get_elem? (Memᴰ.head h) = (0, ap some (sym h))
  mem-get_elem? (Memᴰ.tail m) = let (i, e) = mem-get_elem? m in (suc i, e)

-- After any sequence of requests, attached readers and released guards: if a request is told to wait for
-- the fill of a generation, then a guard of that generation is alive, and its release in that state wakes
-- those who wait for the generation and leaves the key of the request without a lock.
pub waiters-woken :
    (events : List Event) (request : Request) (generation : ℕ)
    → (fill_lock_decision (steps no_locks events) request).0
      ≡ FillLockDecision.wait_local generation
    → (i : ℕ) × (guard : CacheFillGuard) × (get_elem? (steps no_locks events).guards i ≡ some guard)
      × (guard.generation ≡ generation)
      × Memᴰ generation (release_guard (steps no_locks events) i).notified
      × (get (release_guard (steps no_locks events) i).fill_locks request.key ≡ none)
unfolding release_guard
waiters-woken events request generation h =
    let state = steps no_locks events in
    let (lock, e, n) = waited-lock state request generation (ap waited h) in
    let (guard, m, k, g) = steps-Held no_locks events no_locks-Held request.key lock e in
    let (i, at) = mem-get_elem? m in
    let here : get state.fill_locks guard.key ≡ some lock = ap (get state.fill_locks) k ∙ e in
    let gone =
      ap (get (without_own state.fill_locks guard)) (sym k)
      ∙ without_own-gone state.fill_locks guard lock here g in
    (
      i,
      guard,
      at,
      g ∙ n,
      rw (release_guard, at) (Memᴰ.head (sym (g ∙ n))),
      rw (release_guard, at) gone,
    )

-- After any such sequence, a request whose key has no living guard, without a cache that is
-- shared with other processes, acquires the lock.
pub fill_lock_decision-free :
    (events : List Event) (request : Request)
    → ((guard : CacheFillGuard)
        → Memᴰ guard (steps no_locks events).guards
        → guard.key ≢ request.key)
    → request.external ≡ External.unshared
    → (fill_lock_decision (steps no_locks events) request).0
      ≡ FillLockDecision.acquired (guard_for (steps no_locks events) request)
unfolding fill_lock_decision ask_external acquire
fill_lock_decision-free events request free local =
    let state = steps no_locks events in
    elim (Option-cases (get state.fill_locks request.key)) [
      | inl e ↦ rw (fill_lock_decision, e, local) refl
      | inr (lock, e) ↦
          let (guard, m, k, _) = steps-Held no_locks events no_locks-Held request.key lock e in
          absurd (free guard m k)
    ]
