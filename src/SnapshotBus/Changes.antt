-- ===== src/SnapshotBus/Changes.antt =====
-- crates/rginx-http/src/state/snapshot_bus.rs: calls that mark changes, interleaved in any order. Every
-- thread sees the atomic operations in one order.
pub mod Noticed
use rginx.Prelude.{
  ℕ, zero, suc, ◌+◌, ◌^◌, ◌<◌, ◌≤◌, ◌≡◌, refl, ap, ◌∙◌, inl, inr, Bool, true, false, Bool-cases,
  List, [], ◌∷◌, ◌++◌, length, length-append, is_empty, all, arith,
}
use rginx.SnapshotBus.{
  SnapshotModule, SnapshotBus, SnapshotComponentVersions, Changed, Mark, version_of, module_eq,
  stored, store_component, next_version, begin_mark, store_next,
}

-- The bus, and all calls so far in the order in which they began.
pub record Shared : Type 0 where
  pub bus : SnapshotBus
  pub marks : List Mark

-- A call begins, or the call of a number makes its next store, if it has one left.
pub data Event : Type 0 where
  begins : Changed → Event
  stores : ℕ → Event

abbrev pub store_at :
    ℕ → SnapshotComponentVersions → List Mark → SnapshotComponentVersions × List Mark
store_at i old [] = (old, [])
store_at zero old (mark ∷ marks) =
    let (versions, next) = store_next old mark in (versions, next ∷ marks)
store_at (suc i) old (mark ∷ marks) =
    let (versions, rest) = store_at i old marks in (versions, mark ∷ rest)

unfoldable pub step : Shared → Event → Shared
unfolding begin_mark store_next
step shared (begins changed) =
    let (bus, mark) = begin_mark shared.bus changed in
    record { bus = bus; marks = shared.marks ++ mark ∷ [] }
step shared (stores i) =
    let (versions, marks) = store_at i shared.bus.snapshot_components shared.marks in
    record { bus = record shared.bus { snapshot_components = versions }; marks = marks }

unfoldable pub run : Shared → List Event → Shared
unfolding step
run shared [] = shared
run shared (event ∷ events) = run (step shared event) events

-- No call is on its way.
abbrev pub settled : Shared → Bool
settled shared = all (λ mark. is_empty mark.to_store) shared.marks

version_of-store_component :
    (old : SnapshotComponentVersions) (k : SnapshotModule) (version : ℕ) (m : SnapshotModule)
    → version_of (store_component old k version) m
      ≡ stored (module_eq k m) version (version_of old m)
version_of-store_component old k version SnapshotModule.status = refl
version_of-store_component old k version SnapshotModule.counters = refl
version_of-store_component old k version SnapshotModule.traffic = refl
version_of-store_component old k version SnapshotModule.peer_health = refl
version_of-store_component old k version SnapshotModule.upstreams = refl
version_of-store_component old k version SnapshotModule.cache = refl

-- The calls have the versions behind the first one, in their order.
abbrev pub Numbered : ℕ → List Mark → Type 0
Numbered n [] = Unit
Numbered n (mark ∷ marks) = (mark.version ≡ suc n) × Numbered (suc n) marks

abbrev pub Below : ℕ → SnapshotComponentVersions → Type 0
Below n versions = (m : SnapshotModule) → version_of versions m ≤ n

stored-le : (here : Bool) (version old n : ℕ) → version ≤ n → old ≤ n → stored here version old ≤ n
stored-le true version old n h k = h
stored-le false version old n h k = k

store_next-Below :
    (old : SnapshotComponentVersions) (version : ℕ) (done to_store : List SnapshotModule) (n : ℕ)
    → version ≤ n
    → Below n old
    → Below n (store_next old (record { version = version; done = done; to_store = to_store })).0
unfolding store_next
store_next-Below old version done [] n h below = below
store_next-Below old version done (k ∷ rest) n h below =
    λ m. rw (version_of-store_component old k version m) (stored-le _ _ _ n h (below m))

store_next-version :
    (old : SnapshotComponentVersions) (version : ℕ) (done to_store : List SnapshotModule)
    → (store_next old (record { version = version; done = done; to_store = to_store })).1.version
      ≡ version
unfolding store_next
store_next-version old version done [] = refl
store_next-version old version done (k ∷ rest) = refl

store_at-length :
    (i : ℕ) (old : SnapshotComponentVersions) (marks : List Mark)
    → length (store_at i old marks).1 ≡ length marks
store_at-length i old [] = refl
store_at-length zero old (mark ∷ marks) = refl
store_at-length (suc i) old (mark ∷ marks) = ap suc (store_at-length i old marks)

store_at-Sound :
    (i : ℕ) (old : SnapshotComponentVersions) (marks : List Mark) (n : ℕ)
    → Numbered n marks
    → Below (n + length marks) old
    → Below (n + length marks) (store_at i old marks).0 × Numbered n (store_at i old marks).1
store_at-Sound i old [] n h below = (below, tt)
store_at-Sound zero old (mark ∷ marks) n (e, h) below = (
  store_next-Below old mark.version mark.done mark.to_store (n + suc (length marks))
      (omega (arith, e)) below,
  (store_next-version old mark.version mark.done mark.to_store ∙ e, h),
)
store_at-Sound (suc i) old (mark ∷ marks) n (e, h) below =
    let (b, v) = store_at-Sound i old marks (suc n) h (λ m. omega (arith, below m)) in
    (λ m. omega (arith, b m), (e, v))

pub record Sound (shared : Shared) : Type 0 where
  pub counted : shared.bus.snapshot_version ≡ length shared.marks
  pub numbered : Numbered 0 shared.marks
  pub below : Below (length shared.marks) shared.bus.snapshot_components

Numbered-append :
    (n : ℕ) (marks : List Mark) (mark : Mark)
    → Numbered n marks
    → mark.version ≡ suc (n + length marks)
    → Numbered n (marks ++ mark ∷ [])
Numbered-append n [] mark h e = (omega (arith, e), tt)
Numbered-append n (first ∷ marks) mark (f, h) e =
    (f, Numbered-append (suc n) marks mark h (omega (arith, e)))

pub step-length :
    (shared : Shared) (event : Event) → length shared.marks ≤ length (step shared event).marks
unfolding step begin_mark
step-length shared (begins changed) =
    omega (arith, length-append shared.marks ((begin_mark shared.bus changed).1 ∷ []))
step-length shared (stores i) =
    omega (arith, store_at-length i shared.bus.snapshot_components shared.marks)

pub step-Sound :
    (shared : Shared) (event : Event)
    → length (step shared event).marks < 2 ^ 64
    → Sound shared
    → Sound (step shared event)
unfolding step begin_mark
step-Sound shared (begins changed) fits sound =
    let count = length-append shared.marks ((begin_mark shared.bus changed).1 ∷ []) in
    let next : next_version shared.bus ≡ suc (length shared.marks) =
      omega (arith, sound.counted, fits, count) in
    record {
      counted = omega (arith, next, count);
      numbered = Numbered-append 0 shared.marks _ sound.numbered (omega (arith, next));
      below = λ m. omega (arith, sound.below m, count);
    }
step-Sound shared (stores i) fits sound =
    let (b, v) =
      store_at-Sound i shared.bus.snapshot_components shared.marks 0 sound.numbered
        (λ m. omega (arith, sound.below m)) in
    let l = store_at-length i shared.bus.snapshot_components shared.marks in
    record {
      counted = omega (arith, sound.counted, l);
      numbered = v;
      below = λ m. omega (arith, b m, l);
    }

pub run-length :
    (shared : Shared) (events : List Event) → length shared.marks ≤ length (run shared events).marks
unfolding run
run-length shared [] = omega arith
run-length shared (event ∷ events) =
    omega (arith, step-length shared event, run-length (step shared event) events)

pub run-Sound :
    (shared : Shared) (events : List Event)
    → length (run shared events).marks < 2 ^ 64
    → Sound shared
    → Sound (run shared events)
unfolding run
run-Sound shared [] fits sound = sound
run-Sound shared (event ∷ events) fits sound =
    run-Sound (step shared event) events fits
      (step-Sound shared event (omega (arith, fits, run-length (step shared event) events)) sound)
