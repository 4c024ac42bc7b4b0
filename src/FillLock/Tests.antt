-- ===== src/FillLock/Tests.antt =====
-- Runs of the fill lock, and the examples of the theorems.
use rginx.Prelude.{
  ◌≡◌, ap, ℕ, refl, true, false, none, some, List, [], ◌∷◌, Memᴰ, get_elem?, arith, codes, get,
}
use rginx.FillLock.{
  CacheFillLockState, CacheFillGuard, External, FillLockDecision, no_locks, Request, Event, acquire,
  ask_external, join, fill_lock_decision, attach_fill_read_state, release_guard, step, steps,
}
use rginx.FillLock.Waiters.{waiters-woken}
use rginx.FillLock.Generations.{release_guard-others}

abbrev request_at : ℕ → Request
request_at now = record {
  key = codes "k";
  now = now;
  lock_age_ms = 10;
  share_fingerprint = none;
  can_share = λ reader. true;
  external = External.unshared;
}

abbrev guard : ℕ → CacheFillGuard
guard generation = record { key = codes "k"; generation = generation; external = false }

-- The first request fills the entry.
abbrev first_asks : List Event
first_asks = Event.ask (request_at 5) ∷ []

second_waits :
    (fill_lock_decision (steps no_locks first_asks) (request_at 8)).0
    ≡ FillLockDecision.wait_local 1
unfolding steps step fill_lock_decision ask_external acquire join
second_waits = refl

-- With a reader attached, the second one reads along.
second_reads :
    (fill_lock_decision
      (steps no_locks (Event.ask (request_at 5) ∷ Event.attach (codes "k") 1 7 ∷ []))
      (request_at 8)).0
    ≡ FillLockDecision.read_local 7
unfolding steps step fill_lock_decision attach_fill_read_state ask_external acquire join
second_reads = refl

waiters-woken_example :
    (i : ℕ) × (guard : CacheFillGuard) × (get_elem? (steps no_locks first_asks).guards i
      ≡ some guard)
    × (guard.generation ≡ 1)
    × Memᴰ 1 (release_guard (steps no_locks first_asks) i).notified
    × (get (release_guard (steps no_locks first_asks) i).fill_locks (codes "k") ≡ none)
waiters-woken_example = waiters-woken first_asks (request_at 8) 1 second_waits

-- The lock got too old and a second request took over; the first guard is still alive.
abbrev taken_over : List Event
taken_over = Event.ask (request_at 5) ∷ Event.ask (request_at 16) ∷ []

abbrev second_lock : CacheFillLockState
second_lock = record {
  acquired_at_unix_ms = 16;
  generation = 2;
  share_fingerprint = [];
  reader_state = none;
}

both_alive : (steps no_locks taken_over).guards ≡ guard 2 ∷ guard 1 ∷ []
unfolding steps step fill_lock_decision ask_external acquire
both_alive = refl

second_holds : get (steps no_locks taken_over).fill_locks (codes "k") ≡ some second_lock
unfolding steps step fill_lock_decision ask_external acquire
second_holds = refl

release_guard-others_example :
    get (release_guard (steps no_locks taken_over) 1).fill_locks (codes "k") ≡ some second_lock
release_guard-others_example =
    release_guard-others taken_over 1 0 (guard 1) (guard 2) second_lock (omega arith)
      (λ e. ground (arith, e)) (ap (λ gs. get_elem? gs 1) both_alive)
      (ap (λ gs. get_elem? gs 0) both_alive) second_holds refl
