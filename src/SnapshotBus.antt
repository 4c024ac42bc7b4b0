-- ===== src/SnapshotBus.antt =====
-- crates/rginx-http/src/state/snapshot_bus.rs and state/traffic/snapshot.rs: versions of the state that
-- the admin interface shows, and what has changed since a version, a `u64` that wraps. A call that
-- marks a change is the steps it makes on the shared state, one for each atomic operation. `HashMap` is
-- the list of its entries.
pub mod Delta
pub mod Changes
mod Tests
use rginx.Prelude.{
  ℕ, ◌+◌, ◌%◌, ◌^◌, Bool, true, false, ◌&&◌, ◌||◌, Option, none, some, List, [], ◌∷◌, ltb, any,
  filter, is_some, unwrap_or, if◌then◌else◌, Ordering, Bytes, bytes_cmp, Map, insert,
}
use mathlib.Core.List.{map}

pub data SnapshotModule : Type 0 where
  status counters traffic peer_health upstreams cache : SnapshotModule

pub record SnapshotComponentVersions : Type 0 where
  pub status : ℕ
  pub counters : ℕ
  pub traffic : ℕ
  pub peer_health : ℕ
  pub upstreams : ℕ
  pub cache : ℕ

pub record TrafficComponentVersions : Type 0 where
  pub listeners : Map ℕ
  pub vhosts : Map ℕ
  pub routes : Map ℕ

pub record SnapshotBus : Type 0 where
  pub snapshot_version : ℕ
  pub snapshot_components : SnapshotComponentVersions
  pub traffic_component_versions : TrafficComponentVersions
  pub peer_health_component_versions : Map ℕ
  pub upstream_component_versions : Map ℕ
  pub cache_component_versions : Map ℕ

-- The components that a change concerns: the arguments of the functions that mark it.
pub record Changed : Type 0 where
  pub status : Bool
  pub counters : Bool
  pub traffic : Bool
  pub peer_health : Bool
  pub upstreams : Bool
  pub cache : Bool

abbrev pub concerns : Changed → SnapshotModule → Bool
concerns c SnapshotModule.status = c.status
concerns c SnapshotModule.counters = c.counters
concerns c SnapshotModule.traffic = c.traffic
concerns c SnapshotModule.peer_health = c.peer_health
concerns c SnapshotModule.upstreams = c.upstreams
concerns c SnapshotModule.cache = c.cache

abbrev pub version_of : SnapshotComponentVersions → SnapshotModule → ℕ
version_of v SnapshotModule.status = v.status
version_of v SnapshotModule.counters = v.counters
version_of v SnapshotModule.traffic = v.traffic
version_of v SnapshotModule.peer_health = v.peer_health
version_of v SnapshotModule.upstreams = v.upstreams
version_of v SnapshotModule.cache = v.cache

abbrev pub module_eq : SnapshotModule → SnapshotModule → Bool
module_eq SnapshotModule.status SnapshotModule.status = true
module_eq SnapshotModule.counters SnapshotModule.counters = true
module_eq SnapshotModule.traffic SnapshotModule.traffic = true
module_eq SnapshotModule.peer_health SnapshotModule.peer_health = true
module_eq SnapshotModule.upstreams SnapshotModule.upstreams = true
module_eq SnapshotModule.cache SnapshotModule.cache = true
module_eq _ _ = false

abbrev pub contains : List SnapshotModule → SnapshotModule → Bool
contains modules m = any (λ other. module_eq other m) modules

abbrev pub stored : Bool → ℕ → ℕ → ℕ
stored here version old = if here then version else old

-- `store` into one of the components.
abbrev pub store_component :
    SnapshotComponentVersions → SnapshotModule → ℕ → SnapshotComponentVersions
store_component old m version = record {
  status = stored (module_eq m SnapshotModule.status) version old.status;
  counters = stored (module_eq m SnapshotModule.counters) version old.counters;
  traffic = stored (module_eq m SnapshotModule.traffic) version old.traffic;
  peer_health = stored (module_eq m SnapshotModule.peer_health) version old.peer_health;
  upstreams = stored (module_eq m SnapshotModule.upstreams) version old.upstreams;
  cache = stored (module_eq m SnapshotModule.cache) version old.cache;
}

-- A call that marks a change, on its way: its version, and the components into which it has stored that
-- and has yet to store it.
pub record Mark : Type 0 where
  pub version : ℕ
  pub done : List SnapshotModule
  pub to_store : List SnapshotModule

-- The components of the change in the order in which the call stores them.
pub stores_of : Changed → List SnapshotModule
stores_of changed = filter (concerns changed) (
    SnapshotModule.status ∷ SnapshotModule.counters ∷ SnapshotModule.traffic
    ∷ SnapshotModule.peer_health ∷ SnapshotModule.upstreams ∷ SnapshotModule.cache ∷ [])

abbrev pub next_version : SnapshotBus → ℕ
next_version bus = (bus.snapshot_version + 1) % 2 ^ 64

-- The first step of `mark_snapshot_changed_components_with_cache`, its `fetch_add`. The version that the call
-- returns is its own.
pub begin_mark : SnapshotBus → Changed → SnapshotBus × Mark
begin_mark bus changed = (
  record bus { snapshot_version = next_version bus },
  record { version = next_version bus; done = []; to_store = stores_of changed },
)

-- Each further step, a `store`; none is left at the end of the call.
pub store_next : SnapshotComponentVersions → Mark → SnapshotComponentVersions × Mark
store_next old mark = elim mark.to_store [
  | [] ↦ (old, mark)
  | m ∷ rest ↦
      (store_component old m mark.version, record mark { done = m ∷ mark.done; to_store = rest })
]

-- What `mark_snapshot_changed_components` passes on.
abbrev pub without_cache : Bool → Bool → Bool → Bool → Bool → Changed
without_cache s c t p u = record {
  status = s;
  counters = c;
  traffic = t;
  peer_health = p;
  upstreams = u;
  cache = false;
}

pub mark_named_component_target_changed : Map ℕ → Bytes → ℕ → Map ℕ
mark_named_component_target_changed versions name version = insert versions name version

abbrev pub insert_if : Map ℕ → Option Bytes → ℕ → Map ℕ
insert_if versions none version = versions
insert_if versions (some name) version = insert versions name version

pub mark_traffic_targets_changed :
    SnapshotBus → ℕ → Option Bytes → Option Bytes → Option Bytes → SnapshotBus
mark_traffic_targets_changed bus version listener_id vhost_id route_id =
    let versions = bus.traffic_component_versions in
    record bus {
      traffic_component_versions = record {
        listeners = insert_if versions.listeners listener_id version;
        vhosts = insert_if versions.vhosts vhost_id version;
        routes = insert_if versions.routes route_id version;
      };
    }

-- `sort` on names.
abbrev pub insert_sorted : Bytes → List Bytes → List Bytes
insert_sorted name [] = name ∷ []
insert_sorted name (n ∷ ns) =
    let rest = insert_sorted name ns in
    elim (bytes_cmp n name) [
      | Ordering.gt ↦ name ∷ n ∷ ns
      | Ordering.lt ↦ n ∷ rest
      | Ordering.eq ↦ n ∷ rest
    ]

abbrev pub sort : List Bytes → List Bytes
sort [] = []
sort (n ∷ ns) = insert_sorted n (sort ns)

pub changed_named_component_targets_since : Map ℕ → ℕ → List Bytes
changed_named_component_targets_since versions since_version =
    sort (
      map (λ (name, version). name)
        (filter (λ (name, version). ltb since_version version) versions))

pub changed_traffic_targets_since : SnapshotBus → ℕ → List Bytes × List Bytes × List Bytes
unfolding changed_named_component_targets_since
changed_traffic_targets_since bus since_version =
    let versions = bus.traffic_component_versions in
    (
      changed_named_component_targets_since versions.listeners since_version,
      changed_named_component_targets_since versions.vhosts since_version,
      changed_named_component_targets_since versions.routes since_version,
    )
