-- ===== src/FillLock.antt =====
-- crates/rginx-http/src/cache/runtime/fill_lock.rs: at most one request fills an entry of the cache, and
-- the others wait or read along. The mutex makes each operation one step. A `Notify` is named by
-- the generation that made it, an `Arc<CacheFillReadState>` by a number. What the lock file or the
-- shared memory answers is an argument.
pub mod Holders
pub mod Waiters
pub mod Generations
mod Tests
use rginx.Prelude.{
  ℕ, zero, suc, ◌+◌, ◌-◌, ◌%◌, ◌^◌, Bool, true, false, ◌&&◌, Option, none, some, List, [], ◌∷◌,
  get_elem?, leb, ◌==◌, if◌then◌else◌, is_none_or, unwrap_or, Bytes, bytes_eq, Map, get, insert,
  remove,
}

pub record CacheFillLockState : Type 0 where
  pub acquired_at_unix_ms : ℕ
  pub generation : ℕ
  pub share_fingerprint : Bytes
  pub reader_state : Option ℕ

pub record CacheFillGuard : Type 0 where
  pub key : Bytes
  pub generation : ℕ
  pub external : Bool

-- What is shared with other processes: nothing, a lock that was acquired there, a fill to read along, or
-- a lock of another process.
pub data External : Type 0 where
  unshared acquired_there : External
  read_there : ℕ → External
  held_there : External

pub data FillLockDecision : Type 0 where
  acquired : CacheFillGuard → FillLockDecision
  read_local read_external wait_local : ℕ → FillLockDecision
  wait_external : Bytes → FillLockDecision

-- The zone's part, with the guards that are alive and the generations whose waiters were notified.
pub record FillLocks : Type 0 where
  pub fill_locks : Map CacheFillLockState
  pub fill_lock_generation : ℕ
  pub guards : List CacheFillGuard
  pub notified : List ℕ

abbrev pub no_locks : FillLocks
no_locks = record { fill_locks = []; fill_lock_generation = 0; guards = []; notified = [] }

pub record Request : Type 0 where
  pub key : Bytes
  pub now : ℕ
  pub lock_age_ms : ℕ
  pub share_fingerprint : Option Bytes
  pub can_share : ℕ → Bool
  pub external : External

abbrev pub next_generation : FillLocks → ℕ
next_generation state = (state.fill_lock_generation + 1) % 2 ^ 64

abbrev pub guard_for : FillLocks → Request → CacheFillGuard
guard_for state request = record {
  key = request.key;
  generation = next_generation state;
  external = elim request.external [
    | External.unshared ↦ false
    | External.acquired_there ↦ true
    | External.read_there reader ↦ false
    | External.held_there ↦ false
  ];
}

-- A new lock and its guard.
pub acquire : FillLocks → Request → FillLockDecision × FillLocks
acquire state request =
    let generation = next_generation state in
    (
      FillLockDecision.acquired (guard_for state request),
      record state {
        fill_lock_generation = generation;
        guards = guard_for state request ∷ state.guards;
        fill_locks = insert state.fill_locks request.key (record {
          acquired_at_unix_ms = request.now;
          generation = generation;
          share_fingerprint = unwrap_or request.share_fingerprint [];
          reader_state = none;
        });
      },
    )

-- No fresh lock of this process.
pub ask_external : FillLocks → Request → External → FillLockDecision × FillLocks
ask_external state request External.unshared = acquire state request
ask_external state request External.acquired_there = acquire state request
ask_external state request (External.read_there reader) =
    (FillLockDecision.read_external reader, state)
ask_external state request External.held_there = (FillLockDecision.wait_external request.key, state)

abbrev pub same_share : Request → CacheFillLockState → Bool
same_share request lock =
    is_none_or request.share_fingerprint
      (λ fingerprint. bytes_eq lock.share_fingerprint fingerprint)

-- A fresh lock: its fill is read along, or waited for.
pub join : Request → CacheFillLockState → FillLockDecision
join request lock = elim lock.reader_state [
  | none ↦ FillLockDecision.wait_local lock.generation
  | some reader ↦
      if same_share request lock && request.can_share reader
      then FillLockDecision.read_local reader
      else FillLockDecision.wait_local lock.generation
]

abbrev pub is_fresh : Request → CacheFillLockState → Bool
is_fresh request lock = leb (request.now - lock.acquired_at_unix_ms) request.lock_age_ms

pub fill_lock_decision : FillLocks → Request → FillLockDecision × FillLocks
unfolding ask_external join acquire
fill_lock_decision state request = elim (get state.fill_locks request.key) [
  | none ↦ ask_external state request request.external
  | some lock ↦
      if is_fresh request lock
      then (join request lock, state)
      else ask_external state request request.external
]

-- `none` where the lock is gone or another's.
pub attach_fill_read_state : FillLocks → Bytes → ℕ → ℕ → Option ℕ × FillLocks
attach_fill_read_state state key generation reader = elim (get state.fill_locks key) [
  | none ↦ (none, state)
  | some lock ↦
      if lock.generation == generation
      then (
        some reader,
        record state {
          fill_locks = insert state.fill_locks key (record lock { reader_state = some reader });
          notified = lock.generation ∷ state.notified;
        },
      )
      else (none, state)
]

-- The lock of the key, unless it is another's.
abbrev pub without_own : Map CacheFillLockState → CacheFillGuard → Map CacheFillLockState
without_own locks guard = elim (get locks guard.key) [
  | none ↦ locks
  | some lock ↦ if lock.generation == guard.generation then remove locks guard.key else locks
]

abbrev pub remove_at {ℓ} : {A : Type ℓ} → ℕ → List A → List A
remove_at i [] = []
remove_at zero (x ∷ xs) = xs
remove_at (suc i) (x ∷ xs) = x ∷ remove_at i xs

-- `Drop` for the guard at a position; the lock of another process is released by that process's store.
pub release_guard : FillLocks → ℕ → FillLocks
release_guard state i = elim (get_elem? state.guards i) [
  | none ↦ state
  | some guard ↦ record state {
    fill_locks = without_own state.fill_locks guard;
    guards = remove_at i state.guards;
    notified = guard.generation ∷ state.notified;
  }
]

pub data Event : Type 0 where
  ask : Request → Event
  attach : Bytes → ℕ → ℕ → Event
  release : ℕ → Event

pub step : FillLocks → Event → FillLocks
unfolding fill_lock_decision attach_fill_read_state release_guard
step state (Event.ask request) = (fill_lock_decision state request).1
step state (Event.attach key generation reader) =
    (attach_fill_read_state state key generation reader).1
step state (Event.release i) = release_guard state i

pub steps : FillLocks → List Event → FillLocks
unfolding step
steps state [] = state
steps state (e ∷ es) = steps (step state e) es
