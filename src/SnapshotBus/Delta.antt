-- ===== src/SnapshotBus/Delta.antt =====
-- crates/rginx-http/src/state/snapshot_bus.rs and state/snapshots/delta.rs: what has changed since a
-- version, for the modules that were asked for.
pub mod Reported
use rginx.Prelude.{
  ℕ, Bool, true, false, ◌&&◌, Option, none, some, List, [], ◌∷◌, ltb, any, filter, is_some,
  unwrap_or, if◌then◌else◌, Bytes,
}
use rginx.SnapshotBus.{
  SnapshotModule, SnapshotBus, contains, version_of, changed_traffic_targets_since,
  changed_named_component_targets_since,
}

pub record SnapshotDeltaSnapshot : Type 0 where
  pub schema_version : ℕ
  pub since_version : ℕ
  pub current_snapshot_version : ℕ
  pub included_modules : List SnapshotModule
  pub recent_window_secs : Option ℕ
  pub status_version : Option ℕ
  pub counters_version : Option ℕ
  pub traffic_version : Option ℕ
  pub peer_health_version : Option ℕ
  pub upstreams_version : Option ℕ
  pub cache_version : Option ℕ
  pub status_changed : Option Bool
  pub counters_changed : Option Bool
  pub traffic_changed : Option Bool
  pub traffic_recent_changed : Option Bool
  pub peer_health_changed : Option Bool
  pub upstreams_changed : Option Bool
  pub cache_changed : Option Bool
  pub upstreams_recent_changed : Option Bool
  pub changed_listener_ids : Option (List Bytes)
  pub changed_vhost_ids : Option (List Bytes)
  pub changed_route_ids : Option (List Bytes)
  pub changed_recent_listener_ids : Option (List Bytes)
  pub changed_recent_vhost_ids : Option (List Bytes)
  pub changed_recent_route_ids : Option (List Bytes)
  pub changed_peer_health_upstream_names : Option (List Bytes)
  pub changed_upstream_names : Option (List Bytes)
  pub changed_recent_upstream_names : Option (List Bytes)
  pub changed_cache_zone_names : Option (List Bytes)

abbrev pub all_modules : List SnapshotModule
all_modules =
    SnapshotModule.status ∷ SnapshotModule.counters ∷ SnapshotModule.traffic
    ∷ SnapshotModule.peer_health ∷ SnapshotModule.upstreams ∷ SnapshotModule.cache ∷ []

-- `SnapshotModule::normalize`.
abbrev pub normalize : Option (List SnapshotModule) → List SnapshotModule
normalize requested = filter (contains (unwrap_or requested all_modules)) all_modules

-- `bool::then_some`.
abbrev pub then_some : {A : Type 0} → Bool → A → Option A
then_some b a = if b then some a else none

-- The bus is what the loads gave, each at its own moment.
unfoldable pub snapshot_delta_since :
    SnapshotBus → ℕ → Option (List SnapshotModule) → Option ℕ → SnapshotDeltaSnapshot
snapshot_delta_since bus since include window_secs =
    let modules = normalize include in
    let included = contains modules in
    let version = version_of bus.snapshot_components in
    let changed : SnapshotModule → Option Bool =
      λ m. then_some (included m) (ltb since (version m)) in
    let recent : SnapshotModule → Bool = λ m. included m && is_some window_secs in
    let (ls, vs, rs) = changed_traffic_targets_since bus since in
    let health_names =
      changed_named_component_targets_since bus.peer_health_component_versions since in
    let upstream_names =
      changed_named_component_targets_since bus.upstream_component_versions since in
    let zone_names = changed_named_component_targets_since bus.cache_component_versions since in
    record {
      schema_version = 3;
      since_version = since;
      current_snapshot_version = bus.snapshot_version;
      included_modules = modules;
      recent_window_secs = window_secs;
      status_version = then_some (included SnapshotModule.status) (version SnapshotModule.status);
      counters_version =
          then_some (included SnapshotModule.counters) (version SnapshotModule.counters);
      traffic_version =
          then_some (included SnapshotModule.traffic) (version SnapshotModule.traffic);
      peer_health_version =
          then_some (included SnapshotModule.peer_health) (version SnapshotModule.peer_health);
      upstreams_version =
          then_some (included SnapshotModule.upstreams) (version SnapshotModule.upstreams);
      cache_version = then_some (included SnapshotModule.cache) (version SnapshotModule.cache);
      status_changed = changed SnapshotModule.status;
      counters_changed = changed SnapshotModule.counters;
      traffic_changed = changed SnapshotModule.traffic;
      traffic_recent_changed =
          then_some (recent SnapshotModule.traffic) (ltb since (version SnapshotModule.traffic));
      peer_health_changed = changed SnapshotModule.peer_health;
      upstreams_changed = changed SnapshotModule.upstreams;
      upstreams_recent_changed =
          then_some (recent SnapshotModule.upstreams)
            (ltb since (version SnapshotModule.upstreams));
      cache_changed = changed SnapshotModule.cache;
      changed_listener_ids = then_some (included SnapshotModule.traffic) ls;
      changed_vhost_ids = then_some (included SnapshotModule.traffic) vs;
      changed_route_ids = then_some (included SnapshotModule.traffic) rs;
      changed_recent_listener_ids = then_some (recent SnapshotModule.traffic) ls;
      changed_recent_vhost_ids = then_some (recent SnapshotModule.traffic) vs;
      changed_recent_route_ids = then_some (recent SnapshotModule.traffic) rs;
      changed_peer_health_upstream_names =
          then_some (included SnapshotModule.peer_health) health_names;
      changed_upstream_names = then_some (included SnapshotModule.upstreams) upstream_names;
      changed_recent_upstream_names = then_some (recent SnapshotModule.upstreams) upstream_names;
      changed_cache_zone_names = then_some (included SnapshotModule.cache) zone_names;
    }

-- The field of a module that says whether it has changed.
abbrev pub changed_field : SnapshotDeltaSnapshot → SnapshotModule → Option Bool
changed_field delta SnapshotModule.status = delta.status_changed
changed_field delta SnapshotModule.counters = delta.counters_changed
changed_field delta SnapshotModule.traffic = delta.traffic_changed
changed_field delta SnapshotModule.peer_health = delta.peer_health_changed
changed_field delta SnapshotModule.upstreams = delta.upstreams_changed
changed_field delta SnapshotModule.cache = delta.cache_changed

-- Waiting for a change, once: the version, if it is a later one. A loop around this waits for a
-- notification, or answers with the version when the time is up.
pub snapshot_change : SnapshotBus → ℕ → Option ℕ
snapshot_change bus since =
    if ltb since bus.snapshot_version then some bus.snapshot_version else none
