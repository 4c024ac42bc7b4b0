-- ===== src/FillLock/Holders.antt =====
-- Every lock is held by a guard that is alive, so that whoever waits for it is woken.
use rginx.Prelude.{
  ℕ, zero, suc, ◌≡◌, ◌⊎◌, refl, sym, ap, ◌∙◌, inl, inr, true, Option, none, some, List, [], ◌∷◌,
  Memᴰ, get_elem?, ◌==◌, arith, Bool-cases, Option-cases, Bytes, bytes_eq, bytes_eq_iff, Map, get,
  insert, get-insert, get-insert_other, get-remove, get-remove_other,
}
use rginx.FillLock.{
  CacheFillLockState, CacheFillGuard, External, FillLocks, no_locks, Request, Event, guard_for,
  acquire, ask_external, is_fresh, fill_lock_decision, attach_fill_read_state, without_own,
  remove_at, release_guard, step, steps,
}

-- A living guard of a lock.
abbrev pub Holder : FillLocks → Bytes → CacheFillLockState → Type 0
Holder state key lock =
    (guard : CacheFillGuard) × Memᴰ guard state.guards
    × (guard.key ≡ key)
    × (guard.generation ≡ lock.generation)

abbrev pub Held : FillLocks → Type 0
Held state =
    (key : Bytes) (lock : CacheFillLockState)
    → get state.fill_locks key ≡ some lock
    → Holder state key lock

abbrev generation_of : Option CacheFillLockState → ℕ
generation_of none = 0
generation_of (some lock) = lock.generation

-- One entry is new: its guard is the holder, and the other entries keep theirs.
insert-Held :
    (state : FillLocks) (key : Bytes) (new : CacheFillLockState) (guards : List CacheFillGuard)
    (n : ℕ) (notified : List ℕ)
    → Held state
    → ((guard : CacheFillGuard) → Memᴰ guard state.guards → Memᴰ guard guards)
    → ((guard : CacheFillGuard) × Memᴰ guard guards
        × (guard.key ≡ key)
        × (guard.generation ≡ new.generation))
    → Held record {
      fill_locks = insert state.fill_locks key new;
      fill_lock_generation = n;
      guards = guards;
      notified = notified;
    }
insert-Held state key new guards n notified held keep (own, m, k, g) asked lock e =
    elim (Bool-cases (bytes_eq key asked)) [
      | inl same ↦
          let here : key ≡ asked = (bytes_eq_iff key asked).0 same in
          let found : some new ≡ some lock =
            sym (get-insert state.fill_locks key new) ∙ (rw (← here) at e) in
          (own, m, k ∙ here, g ∙ ap generation_of found)
      | inr other ↦
          let (guard, m', k', g') =
            held asked lock (sym (get-insert_other state.fill_locks key asked new other) ∙ e) in
          (guard, keep guard m', k', g')
    ]

acquire-Held : (state : FillLocks) (request : Request) → Held state → Held (acquire state request).1
unfolding acquire
acquire-Held state request held =
    insert-Held state request.key _ (guard_for state request ∷ state.guards) 0 [] held
      (λ guard m. Memᴰ.tail m) (guard_for state request, Memᴰ.head refl, refl, refl)

ask_external-Held :
    (state : FillLocks) (request : Request) (external : External)
    → Held state
    → Held (ask_external state request external).1
unfolding ask_external
ask_external-Held state request External.unshared held = acquire-Held state request held
ask_external-Held state request External.acquired_there held = acquire-Held state request held
ask_external-Held state request (External.read_there reader) held = held
ask_external-Held state request External.held_there held = held

fill_lock_decision-Held :
    (state : FillLocks) (request : Request) → Held state → Held (fill_lock_decision state request).1
unfolding fill_lock_decision
fill_lock_decision-Held state request held =
    elim (Option-cases (get state.fill_locks request.key)) [
      | inl e ↦ rw (fill_lock_decision, e) (ask_external-Held state request request.external held)
      | inr (lock, e) ↦ elim (Bool-cases (is_fresh request lock)) [
        | inl f ↦ rw (fill_lock_decision, e, f) held
        | inr f ↦
            rw (fill_lock_decision, e, f) (ask_external-Held state request request.external held)
      ]
    ]

attach-Held :
    (state : FillLocks) (key : Bytes) (generation reader : ℕ)
    → Held state
    → Held (attach_fill_read_state state key generation reader).1
unfolding attach_fill_read_state
attach-Held state key generation reader held = elim (Option-cases (get state.fill_locks key)) [
  | inl e ↦ rw (attach_fill_read_state, e) held
  | inr (lock, e) ↦ elim (Bool-cases (lock.generation == generation)) [
    | inr f ↦ rw (attach_fill_read_state, e, f) held
    | inl f ↦
        rw (attach_fill_read_state, e, f)
          (insert-Held state key (record lock { reader_state = some reader }) state.guards 0 [] held
            (λ guard m. m) (held key lock e))
  ]
]

module _ {ℓ} {A : Type ℓ} where
  pub remove_at-mem :
      {x y : A} (xs : List A) (i : ℕ)
      → Memᴰ x xs
      → get_elem? xs i ≡ some y
      → (x ≡ y) ⊎ Memᴰ x (remove_at i xs)
  remove_at-mem [] i m e = elim m [ ]
  remove_at-mem (z ∷ zs) zero (Memᴰ.head h) e = inl (cc)
  remove_at-mem (z ∷ zs) zero (Memᴰ.tail m) e = inr m
  remove_at-mem (z ∷ zs) (suc i) (Memᴰ.head h) e = inr (Memᴰ.head h)
  remove_at-mem (z ∷ zs) (suc i) (Memᴰ.tail m) e = elim (remove_at-mem zs i m e) [
    | inl h ↦ inl h
    | inr n ↦ inr (Memᴰ.tail n)
  ]

-- A guard removes its own lock, and no lock of another key.
pub without_own-gone :
    (locks : Map CacheFillLockState) (guard : CacheFillGuard) (lock : CacheFillLockState)
    → get locks guard.key ≡ some lock
    → guard.generation ≡ lock.generation
    → get (without_own locks guard) guard.key ≡ none
without_own-gone locks guard lock e g =
    let same : (lock.generation == guard.generation) ≡ true = ground (arith, g) in
    rw (without_own, e, same) (get-remove locks guard.key)

without_own-kept :
    (locks : Map CacheFillLockState) (guard : CacheFillGuard) (key : Bytes)
    (lock : CacheFillLockState)
    → get (without_own locks guard) key ≡ some lock
    → get locks key ≡ some lock
without_own-kept locks guard key lock h = elim (Option-cases (get locks guard.key)) [
  | inl e ↦ rw (without_own, e) at h
  | inr (own, e) ↦ elim (Bool-cases (own.generation == guard.generation)) [
    | inr f ↦ rw (without_own, e, f) at h
    | inl f ↦
        let k = rw (without_own, e, f) at h in
        elim (Bool-cases (bytes_eq guard.key key)) [
          | inr other ↦ sym (get-remove_other locks guard.key key other) ∙ k
          | inl same ↦
              let here : guard.key ≡ key = (bytes_eq_iff guard.key key).0 same in
              absurd (ground (arith, sym (get-remove locks guard.key) ∙ (rw (← here) at k)))
        ]
  ]
]

release_guard-Held : (state : FillLocks) (i : ℕ) → Held state → Held (release_guard state i)
unfolding release_guard
release_guard-Held state i held = elim (Option-cases (get_elem? state.guards i)) [
  | inl e ↦ rw (release_guard, e) held
  | inr (guard, e) ↦
      rw (release_guard, e)
        λ key lock h.
          let was = without_own-kept state.fill_locks guard key lock h in
          let (holder, m, k, g) = held key lock was in
          elim (remove_at-mem state.guards i m e) [
            | inr n ↦ (holder, n, k, g)
            | inl own ↦
                let here : guard.key ≡ key = ap (λ (a : CacheFillGuard). a.key) (sym own) ∙ k in
                let gone =
                  without_own-gone state.fill_locks guard lock (rw here was)
                    (ap (λ (a : CacheFillGuard). a.generation) (sym own) ∙ g) in
                let found : get (without_own state.fill_locks guard) guard.key ≡ some lock =
                  ap (λ k. get (without_own state.fill_locks guard) k) here ∙ h in
                absurd (ground (arith, gone, found))
          ]
]

step-Held : (state : FillLocks) (event : Event) → Held state → Held (step state event)
unfolding step
step-Held state (Event.ask request) held = fill_lock_decision-Held state request held
step-Held state (Event.attach key generation reader) held =
    attach-Held state key generation reader held
step-Held state (Event.release i) held = release_guard-Held state i held

-- Whatever happened, every lock in the table has a guard that is alive.
pub steps-Held : (state : FillLocks) (events : List Event) → Held state → Held (steps state events)
unfolding steps
steps-Held state [] held = held
steps-Held state (e ∷ es) held = steps-Held (step state e) es (step-Held state e held)

pub no_locks-Held : Held no_locks
no_locks-Held key lock e = absurd (ground (arith, e))
