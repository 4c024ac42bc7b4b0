-- ===== src/SnapshotBus/Changes/Noticed.antt =====
-- From a moment at which no call is on its way: a component has a later version exactly if a call that
-- began after that moment has stored it.
use rginx.Prelude.{
  ℕ, zero, suc, ◌-◌, ◌^◌, ◌<◌, ◌≤◌, ◌≡◌, refl, ◌∙◌, inl, inr, Bool, true, false, ◌&&◌, ◌||◌,
  Bool-cases, List, [], ◌∷◌, ◌++◌, length, length-append, drop, drop-nil, is_empty, any, all, All,
  All-append, ltb, leb, arith,
}
use rginx.SnapshotBus.{
  SnapshotModule, SnapshotComponentVersions, Mark, version_of, module_eq, stored, next_version,
  begin_mark, store_next, contains,
}
use rginx.SnapshotBus.Changes.{
  Shared, Event, begins, stores, store_at, step, run, settled, Sound, Numbered, run-Sound,
  run-length, step-length, step-Sound, version_of-store_component,
}

-- A call later than the version has stored the component.
abbrev pub later_stored : ℕ → SnapshotModule → Mark → Bool
later_stored since m mark = ltb since mark.version && contains mark.done m

-- A call that has stores left is later than the version.
abbrev pub Fresh : ℕ → Mark → Type 0
Fresh since mark = (is_empty mark.to_store || ltb since mark.version) ≡ true

-- The versions tell which components a call has stored, of those named first or in the list.
abbrev pub Told : ℕ → (SnapshotModule → Bool) → SnapshotComponentVersions → List Mark → Type 0
Told since first versions marks =
    (m : SnapshotModule)
    → ltb since (version_of versions m) ≡ (first m || any (later_stored since m) marks)

or_assoc : (a b c : Bool) → ((a || b) || c) ≡ (a || (b || c))
or_assoc a b c = ground arith

stored-told :
    (since version old : ℕ) (here first had others : Bool)
    → ltb since version ≡ true
    → ltb since old ≡ (first || ((ltb since version && had) || others))
    → ltb since (stored here version old)
      ≡ (first || ((ltb since version && (here || had)) || others))
stored-told since version old true first had others e h = rw e (ground arith)
stored-told since version old false first had others e h = h

abbrev mark_of : ℕ → List SnapshotModule → List SnapshotModule → Mark
mark_of version done to_store = record { version = version; done = done; to_store = to_store }

store_next-Told :
    (since : ℕ) (first : SnapshotModule → Bool) (old : SnapshotComponentVersions) (version : ℕ)
    (done to_store : List SnapshotModule) (marks : List Mark)
    → Fresh since (mark_of version done to_store)
    → Told since first old ((mark_of version done to_store) ∷ marks)
    → Told since first
        (store_next old (mark_of version done to_store)).0
        ((store_next old (mark_of version done to_store)).1 ∷ marks)
      × Fresh since (store_next old (mark_of version done to_store)).1
unfolding store_next
store_next-Told since first old version done [] marks fresh told = (told, fresh)
store_next-Told since first old version done (k ∷ rest) marks fresh told = (
  λ m. rw (version_of-store_component old k version m) (
      stored-told since version (version_of old m) (module_eq k m) (first m) (contains done m)
        (any (later_stored since m) marks) fresh (told m)),
  ground (arith, fresh),
)

store_at-Told :
    (since i : ℕ) (first : SnapshotModule → Bool) (old : SnapshotComponentVersions)
    (marks : List Mark)
    → All (Fresh since) marks
    → Told since first old marks
    → Told since first (store_at i old marks).0 (store_at i old marks).1
      × All (Fresh since) (store_at i old marks).1
store_at-Told since i first old [] fresh told = (told, tt)
store_at-Told since zero first old (mark ∷ marks) (f, fresh) told =
    let (t, g) =
      store_next-Told since first old mark.version mark.done mark.to_store marks f told in
    (t, (g, fresh))
store_at-Told since (suc i) first old (mark ∷ marks) (f, fresh) told =
    let (t, g) =
      store_at-Told since i (λ m. first m || later_stored since m mark) old marks fresh
        (λ m. told m ∙ ground arith) in
    (
      λ m.
          t m
          ∙ or_assoc (first m) (later_stored since m mark)
              (any (later_stored since m) (store_at i old marks).1),
      (f, g),
    )

any-append :
    (p : Mark → Bool) (marks : List Mark) (mark : Mark)
    → p mark ≡ false
    → any p (marks ++ mark ∷ []) ≡ any p marks
any-append p [] mark e = ground arith
any-append p (k ∷ marks) mark e = rw (any-append p marks mark e) refl

pub record Since (since : ℕ) (shared : Shared) : Type 0 where
  pub earlier : since ≤ length shared.marks
  pub fresh : All (Fresh since) shared.marks
  pub told : Told since (λ m. false) shared.bus.snapshot_components shared.marks

step-Since :
    (since : ℕ) (shared : Shared) (event : Event)
    → Sound shared
    → length (step shared event).marks < 2 ^ 64
    → Since since shared
    → Since since (step shared event)
unfolding step begin_mark
step-Since since shared (begins changed) sound fits h =
    let count = length-append shared.marks ((begin_mark shared.bus changed).1 ∷ []) in
    let next : next_version shared.bus ≡ suc (length shared.marks) =
      omega (arith, sound.counted, fits, count) in
    record {
      earlier = omega (arith, h.earlier, count);
      fresh = All-append _ shared.marks _ h.fresh (rw next (ground (arith, h.earlier)), tt);
      told = λ m.
          h.told m
          ∙ rw
              (any-append (later_stored since m) shared.marks (begin_mark shared.bus changed).1
                (ground arith))
              refl;
    }
step-Since since shared (stores i) sound fits h =
    let (t, f) =
      store_at-Told since i (λ m. false) shared.bus.snapshot_components shared.marks h.fresh
        h.told in
    record {
      earlier = omega (arith, h.earlier, step-length shared (stores i));
      fresh = f;
      told = t;
    }

run-Since :
    (since : ℕ) (shared : Shared) (events : List Event)
    → Sound shared
    → length (run shared events).marks < 2 ^ 64
    → Since since shared
    → Since since (run shared events)
unfolding run
run-Since since shared [] sound fits h = h
run-Since since shared (event ∷ events) sound fits h =
    let less : length (step shared event).marks < 2 ^ 64 =
      omega (arith, fits, run-length (step shared event) events) in
    run-Since since (step shared event) events (step-Sound shared event less sound) fits
      (step-Since since shared event sound less h)

-- The calls later than a version are those behind as many as the version.
any-Numbered :
    (n since : ℕ) (m : SnapshotModule) (marks : List Mark)
    → Numbered n marks
    → any (later_stored since m) marks ≡ any (λ mark. contains mark.done m) (drop (since - n) marks)
any-Numbered n since m [] h = rw (drop-nil (since - n)) refl
any-Numbered n since m (mark ∷ marks) (e, h) = elim (Bool-cases (leb since n)) [
  | inl le ↦
      let z : since - n ≡ 0 = ground arith in
      let y : since - suc n ≡ 0 = ground arith in
      let l : ltb since (suc n) ≡ true = ground arith in
      rw (e, l, z, any-Numbered (suc n) since m marks h, y) refl
  | inr gt ↦
      let z : since - n ≡ suc (since - suc n) = ground arith in
      let l : ltb since (suc n) ≡ false = ground arith in
      rw (e, l, z) (any-Numbered (suc n) since m marks h)
]

drop-length : (marks : List Mark) → drop (length marks) marks ≡ []
drop-length [] = refl
drop-length (mark ∷ marks) = drop-length marks

-- The start: no call is on its way.
settled-Fresh :
    (since : ℕ) (marks : List Mark)
    → all (λ mark. is_empty mark.to_store) marks ≡ true
    → All (Fresh since) marks
settled-Fresh since [] h = tt
settled-Fresh since (mark ∷ marks) h =
    (ground (arith, h), settled-Fresh since marks (ground (arith, h)))

settled-Since :
    (shared : Shared)
    → Sound shared
    → settled shared ≡ true
    → Since shared.bus.snapshot_version shared
settled-Since shared sound h =
    let since = shared.bus.snapshot_version in
    let none_left : drop since shared.marks ≡ [] = rw sound.counted (drop-length shared.marks) in
    record {
      earlier = omega (arith, sound.counted);
      fresh = settled-Fresh since shared.marks h;
      told = λ m.
          let low : ltb since (version_of shared.bus.snapshot_components m) ≡ false =
            ground (arith, sound.counted, sound.below m) in
          let whole : since - 0 ≡ since = omega arith in
          rw (low, any-Numbered 0 since m shared.marks sound.numbered, whole, none_left) refl;
    }

pub noticed :
    (shared : Shared) (events : List Event) (m : SnapshotModule)
    → Sound shared
    → settled shared ≡ true
    → length (run shared events).marks < 2 ^ 64
    → ltb shared.bus.snapshot_version (version_of (run shared events).bus.snapshot_components m)
      ≡ any (λ mark. contains mark.done m) (drop (length shared.marks) (run shared events).marks)
noticed shared events m sound h fits =
    let since = shared.bus.snapshot_version in
    let later = run-Since since shared events sound fits (settled-Since shared sound h) in
    let whole : since - 0 ≡ length shared.marks = omega (arith, sound.counted) in
    later.told m
    ∙ any-Numbered 0 since m (run shared events).marks (run-Sound shared events fits sound).numbered
    ∙ rw whole refl
