-- ===== src/SnapshotBus/Delta/Reported.antt =====
-- The report of the admin interface against the calls that marked changes.
use rginx.Prelude.{
  ℕ, ◌^◌, ◌<◌, ◌≡◌, refl, ap, ◌∙◌, true, Option, List, [], length, drop, any, ltb, arith,
}
use rginx.SnapshotBus.{SnapshotModule, SnapshotBus, contains, version_of}
use rginx.SnapshotBus.Changes.{Shared, Event, Sound, settled, run, run-length, run-Sound}
use rginx.SnapshotBus.Changes.Noticed.{noticed}
use rginx.SnapshotBus.Delta.{normalize, then_some, snapshot_delta_since, changed_field}

-- The bus of a new process.
abbrev pub new_bus : SnapshotBus
new_bus = record {
  snapshot_version = 0;
  snapshot_components = record {
    status = 0;
    counters = 0;
    traffic = 0;
    peer_health = 0;
    upstreams = 0;
    cache = 0;
  };
  traffic_component_versions = record { listeners = []; vhosts = []; routes = [] };
  peer_health_component_versions = [];
  upstream_component_versions = [];
  cache_component_versions = [];
}

changed_field-delta :
    (bus : SnapshotBus) (since : ℕ) (include : Option (List SnapshotModule)) (window : Option ℕ)
    (m : SnapshotModule)
    → changed_field (snapshot_delta_since bus since include window) m
      ≡ then_some
          (contains (normalize include) m)
          (ltb since (version_of bus.snapshot_components m))
unfolding snapshot_delta_since
changed_field-delta bus since include window SnapshotModule.status = refl
changed_field-delta bus since include window SnapshotModule.counters = refl
changed_field-delta bus since include window SnapshotModule.traffic = refl
changed_field-delta bus since include window SnapshotModule.peer_health = refl
changed_field-delta bus since include window SnapshotModule.upstreams = refl
changed_field-delta bus since include window SnapshotModule.cache = refl

new_version : (m : SnapshotModule) → version_of new_bus.snapshot_components m ≡ 0
new_version SnapshotModule.status = refl
new_version SnapshotModule.counters = refl
new_version SnapshotModule.traffic = refl
new_version SnapshotModule.peer_health = refl
new_version SnapshotModule.upstreams = refl
new_version SnapshotModule.cache = refl

-- At the start no call has begun.
abbrev pub idle : Shared
idle = record { bus = new_bus; marks = [] }

idle-Sound : Sound idle
idle-Sound = record { counted = refl; numbered = tt; below = λ m. rw (new_version m) (omega arith) }

-- The calls that mark changes run interleaved, each of their atomic operations being one event that all
-- threads see in the same order, and fewer than 2 ^ 64 of them begin. Take the version of the snapshot
-- after some events at which no call is on its way, and let the delta since that version load the
-- version of a module after any more events. If the module is asked for, the delta says that it has
-- changed exactly if one of the calls that began in between has stored its version there; for another
-- module it says nothing.
pub snapshot_delta_since-changed :
    (before after : List Event) (loads : SnapshotBus) (include : Option (List SnapshotModule))
    (window : Option ℕ) (m : SnapshotModule)
    → settled (run idle before) ≡ true
    → length (run (run idle before) after).marks < 2 ^ 64
    → version_of loads.snapshot_components m
      ≡ version_of (run (run idle before) after).bus.snapshot_components m
    → changed_field
        (snapshot_delta_since loads (run idle before).bus.snapshot_version include window)
        m
      ≡ then_some (contains (normalize include) m) (
          any
            (λ mark. contains mark.done m)
            (drop (length (run idle before).marks) (run (run idle before) after).marks))
snapshot_delta_since-changed before after loads include window m quiet fits loaded =
    let middle = run idle before in
    let sound = run-Sound idle before (omega (arith, fits, run-length middle after)) idle-Sound in
    changed_field-delta loads middle.bus.snapshot_version include window m
    ∙ ap (then_some (contains (normalize include) m))
        (ap (ltb middle.bus.snapshot_version) loaded ∙ noticed middle after m sound quiet fits)
