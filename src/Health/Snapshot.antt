-- ===== src/Health/Snapshot.antt =====
-- registry/snapshot.rs: what the admin interface shows of the health of an upstream. `is_hostname`
-- stands for `peer_is_hostname`, which parses the peer's URL with the `http` crate.
pub mod Totals
use rginx.Prelude.{
  ℕ, zero, suc, ◌+◌, ◌-◌, min, max, Bool, true, false, not, ◌&&◌, Option, none, some, List, [], ◌∷◌,
  map, any, all, filter, is_empty, if◌then◌else◌, ltb, leb, Bytes, Map, get, bytes_eq, unwrap_or,
  is_none_or,
}
use rginx.Upstream.{Upstream, UpstreamPeer}
use rginx.Health.State.{u64, PeerHealthState, PeerHealthPolicy, from_upstream}
use rginx.Health.Registry.{PeerHealthRegistry, lock, get_health, get_logical_peer}
use rginx.Health.Selection.{ResolvedUpstreamPeer}

pub record PeerHealthSnapshot : Type 0 where
  pub peer_url : Bytes
  pub backup : Bool
  pub weight : ℕ
  pub available : Bool
  pub passive_consecutive_failures : ℕ
  pub passive_cooldown_remaining_ms : Option ℕ
  pub passive_pending_recovery : Bool
  pub active_unhealthy : Bool
  pub active_consecutive_successes : ℕ
  pub active_requests : ℕ

pub record ResolvedEndpointHealthSnapshot : Type 0 where
  pub endpoint_key : Bytes
  pub logical_peer_url : Bytes
  pub display_url : Bytes
  pub dial_addr : Bytes
  pub server_name : Bytes
  pub backup : Bool
  pub weight : ℕ
  pub available : Bool
  pub passive_consecutive_failures : ℕ
  pub passive_cooldown_remaining_ms : Option ℕ
  pub passive_pending_recovery : Bool
  pub active_unhealthy : Bool
  pub active_consecutive_successes : ℕ
  pub active_requests : ℕ

-- `checked_duration_since` and the cut to a `u64`.
abbrev pub remaining_ms : Option ℕ → ℕ → Option ℕ
remaining_ms none now = none
remaining_ms (some until) now = if ltb until now then none else some (min (until - now) (u64 - 1))

pub snapshot : PeerHealthState → ℕ → UpstreamPeer → PeerHealthSnapshot
snapshot s now peer = record {
  peer_url = peer.url;
  backup = peer.backup;
  weight = peer.weight;
  available =
      is_none_or s.passive.unhealthy_until (λ until. leb until now) && not s.active.unhealthy;
  passive_consecutive_failures = s.passive.consecutive_failures;
  passive_cooldown_remaining_ms = remaining_ms s.passive.unhealthy_until now;
  passive_pending_recovery = s.passive.pending_recovery;
  active_unhealthy = s.active.unhealthy;
  active_consecutive_successes = s.active.consecutive_successes;
  active_requests = s.active_requests;
}

pub snapshot_endpoint : PeerHealthState → ℕ → ResolvedUpstreamPeer → ResolvedEndpointHealthSnapshot
snapshot_endpoint s now endpoint = record {
  endpoint_key = endpoint.endpoint_key;
  logical_peer_url = endpoint.logical_peer_url;
  display_url = endpoint.display_url;
  dial_addr = endpoint.dial_addr;
  server_name = endpoint.server_name;
  backup = endpoint.backup;
  weight = endpoint.weight;
  available =
      is_none_or s.passive.unhealthy_until (λ until. leb until now) && not s.active.unhealthy;
  passive_consecutive_failures = s.passive.consecutive_failures;
  passive_cooldown_remaining_ms = remaining_ms s.passive.unhealthy_until now;
  passive_pending_recovery = s.passive.pending_recovery;
  active_unhealthy = s.active.unhealthy;
  active_consecutive_successes = s.active.consecutive_successes;
  active_requests = s.active_requests;
}

pub default_peer_snapshot : UpstreamPeer → Bool → PeerHealthSnapshot
default_peer_snapshot peer available = record {
  peer_url = peer.url;
  backup = peer.backup;
  weight = peer.weight;
  available = available;
  passive_consecutive_failures = 0;
  passive_cooldown_remaining_ms = none;
  passive_pending_recovery = false;
  active_unhealthy = false;
  active_consecutive_successes = 0;
  active_requests = 0;
}

pub default_endpoint_snapshot : ResolvedUpstreamPeer → ResolvedEndpointHealthSnapshot
default_endpoint_snapshot endpoint = record {
  endpoint_key = endpoint.endpoint_key;
  logical_peer_url = endpoint.logical_peer_url;
  display_url = endpoint.display_url;
  dial_addr = endpoint.dial_addr;
  server_name = endpoint.server_name;
  backup = endpoint.backup;
  weight = endpoint.weight;
  available = true;
  passive_consecutive_failures = 0;
  passive_cooldown_remaining_ms = none;
  passive_pending_recovery = false;
  active_unhealthy = false;
  active_consecutive_successes = 0;
  active_requests = 0;
}

-- `max` over the iterator, 0 if there is nothing, and over those that are there.
abbrev pub max_all : List ℕ → ℕ
max_all [] = 0
max_all (n ∷ ns) = max n (max_all ns)

abbrev max_option : Option ℕ → Option ℕ → Option ℕ
max_option none b = b
max_option (some a) none = some a
max_option (some a) (some b) = some (max a b)

abbrev pub max_some : List (Option ℕ) → Option ℕ
max_some [] = none
max_some (o ∷ os) = max_option o (max_some os)

-- Of the numbers of requests at one moment, whose sum is far below 2 ^ 64.
abbrev pub sum : List ℕ → ℕ
sum [] = 0
sum (n ∷ ns) = n + sum ns

pub aggregate_peer_snapshot :
    UpstreamPeer → List ResolvedEndpointHealthSnapshot → PeerHealthSnapshot
aggregate_peer_snapshot peer endpoints = record {
  peer_url = peer.url;
  backup = peer.backup;
  weight = peer.weight;
  available = any (λ e. e.available) endpoints;
  passive_consecutive_failures = max_all (map (λ e. e.passive_consecutive_failures) endpoints);
  passive_cooldown_remaining_ms = max_some (map (λ e. e.passive_cooldown_remaining_ms) endpoints);
  passive_pending_recovery = any (λ e. e.passive_pending_recovery) endpoints;
  active_unhealthy = all (λ e. e.active_unhealthy) endpoints;
  active_consecutive_successes = max_all (map (λ e. e.active_consecutive_successes) endpoints);
  active_requests = sum (map (λ e. e.active_requests) endpoints);
}

pub record UpstreamHealthSnapshot : Type 0 where
  pub upstream_name : Bytes
  pub unhealthy_after_failures : ℕ
  pub cooldown_ms : ℕ
  pub active_health_enabled : Bool
  pub peers : List PeerHealthSnapshot
  pub endpoints : List ResolvedEndpointHealthSnapshot

module _ (r : PeerHealthRegistry) (now : ℕ) where
  pub endpoint_snapshot : Upstream → ResolvedUpstreamPeer → ResolvedEndpointHealthSnapshot
  unfolding snapshot_endpoint default_endpoint_snapshot
  endpoint_snapshot u endpoint = elim (get_health r u.name endpoint.endpoint_key) [
    | none ↦ default_endpoint_snapshot endpoint
    | some a ↦ snapshot_endpoint (lock r a) now endpoint
  ]

module _ (is_hostname : UpstreamPeer → Bool) (r : PeerHealthRegistry) (now : ℕ) where
  pub peer_snapshot :
      Upstream → List ResolvedEndpointHealthSnapshot → UpstreamPeer → PeerHealthSnapshot
  unfolding aggregate_peer_snapshot snapshot default_peer_snapshot
  peer_snapshot u endpoints peer =
      let own = filter (λ e. bytes_eq e.logical_peer_url peer.url) endpoints in
      if not (is_empty own)
      then aggregate_peer_snapshot peer own
      else elim (get_logical_peer r u.name peer.url) [
        | none ↦ default_peer_snapshot peer (not (is_hostname peer))
        | some a ↦ snapshot (lock r a) now peer
      ]

  pub snapshot_for_upstream : Upstream → List ResolvedUpstreamPeer → UpstreamHealthSnapshot
  unfolding endpoint_snapshot peer_snapshot
  snapshot_for_upstream u endpoints =
      let policy = unwrap_or (get r.policies u.name) (from_upstream u) in
      let shown = map (endpoint_snapshot r now u) endpoints in
      record {
        upstream_name = u.name;
        unhealthy_after_failures = policy.unhealthy_after_failures;
        cooldown_ms = min policy.cooldown (u64 - 1);
        active_health_enabled = policy.active_health_enabled;
        peers = map (peer_snapshot u shown) u.peers;
        endpoints = shown;
      }
