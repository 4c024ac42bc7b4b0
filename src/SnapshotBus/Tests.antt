-- ===== src/SnapshotBus/Tests.antt =====
-- Marks and reports, and the example of the theorem.
use rginx.Prelude.{
  ◌≡◌, refl, true, false, none, some, List, [], ◌∷◌, ◌<◌, ◌^◌, length, drop, any, arith, codes,
}
use rginx.SnapshotBus.{
  SnapshotModule, Changed, contains, stores_of, begin_mark, store_next,
  mark_traffic_targets_changed, changed_traffic_targets_since,
  changed_named_component_targets_since,
}
use rginx.SnapshotBus.Changes.{Shared, Event, begins, stores, settled, step, run}
use rginx.SnapshotBus.Delta.{snapshot_delta_since, changed_field, then_some, normalize}
use rginx.SnapshotBus.Delta.Reported.{new_bus, idle, snapshot_delta_since-changed}

abbrev only_traffic : Changed
only_traffic = record {
  status = false;
  counters = false;
  traffic = true;
  peer_health = false;
  upstreams = false;
  cache = false;
}

abbrev only_cache : Changed
only_cache = record only_traffic { traffic = false; cache = true }

-- One call for the traffic that ends, and two more that interleave: the call for the traffic makes its
-- store behind the one for the cache.
abbrev before : List Event
before = begins only_traffic ∷ stores 0 ∷ []

abbrev after : List Event
after = begins only_traffic ∷ begins only_cache ∷ stores 2 ∷ stores 1 ∷ []

abbrev at_end : Shared
at_end = run (run idle before) after

is_settled : settled (run idle before) ≡ true
unfolding run step begin_mark store_next stores_of
is_settled = refl

fits : length at_end.marks < 2 ^ 64
unfolding run step begin_mark store_next stores_of
fits = omega arith

version_one : (run idle before).bus.snapshot_version ≡ 1
unfolding run step begin_mark
version_one = refl

snapshot_delta_since-changed_example :
    changed_field
      (snapshot_delta_since at_end.bus (run idle before).bus.snapshot_version none none)
      SnapshotModule.traffic
    ≡ then_some (contains (normalize none) SnapshotModule.traffic) (
        any
          (λ mark. contains mark.done SnapshotModule.traffic)
          (drop (length (run idle before).marks) at_end.marks))
snapshot_delta_since-changed_example =
    snapshot_delta_since-changed before after at_end.bus none none SnapshotModule.traffic is_settled
      fits refl

reported :
    changed_field (snapshot_delta_since at_end.bus 1 none none) SnapshotModule.traffic ≡ some true
unfolding run step begin_mark store_next stores_of snapshot_delta_since
reported = refl

-- The version that is loaded between the two steps of a call hides its change.
unreported :
    changed_field
      (snapshot_delta_since
        (run (run idle (begins only_traffic ∷ [])) (stores 0 ∷ [])).bus
        (run idle (begins only_traffic ∷ [])).bus.snapshot_version
        none
        none)
      SnapshotModule.traffic
    ≡ some false
unfolding run step begin_mark store_next stores_of snapshot_delta_since
unreported = refl

-- The names come in their order.
changed_listeners :
    (changed_traffic_targets_since
      (mark_traffic_targets_changed
        (mark_traffic_targets_changed new_bus 2 (some (codes "web")) none (some (codes "r")))
        2
        (some (codes "api"))
        none
        none)
      1)
    ≡ (codes "api" ∷ codes "web" ∷ [], [], codes "r" ∷ [])
unfolding mark_traffic_targets_changed changed_traffic_targets_since
    changed_named_component_targets_since
changed_listeners = refl
