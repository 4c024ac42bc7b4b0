-- ===== src/Health/RegistryTests.antt =====
-- Runs of the registry and of the choice of endpoints, and the examples of their theorems.
use rginx.Prelude.{
  length, min, ◌-◌, ◌≡◌, ◌≤◌, refl, true, false, none, List, [], ◌∷◌, map, Bytes, codes, arith,
}
use rginx.Routing.Matcher.{v4}
use rginx.Upstream.{UpstreamPeer, Upstream, round_robin}
use rginx.Health.State
use rginx.Health.State.{PeerHealthPolicy, health_default}
use rginx.Health.Registry.{
  PeerHealthRegistry, track_active_request, drop_guard, ensure_endpoint, record_failure,
  is_available,
}
use rginx.Health.Registry.Guards.{track_active_request-drop_guard}
use rginx.Health.Registry.Sharing.{endpoints-fail-together}
use rginx.Health.Selection.{ResolvedUpstreamPeer, select_available_peers}
use rginx.Health.Selection.Complete.{resolved, select_available_peers_complete}
use rginx.Health.Selection.Pools.{select_peers}
use rginx.Health.Selection.Pools.Bounds.{chosen, select_peers-length}
use rginx.Health.Snapshot.{aggregate_peer_snapshot, endpoint_snapshot}
use rginx.Health.Snapshot.Totals.{aggregate_peer_snapshot-active_requests}

abbrev peer : UpstreamPeer
peer = record {
  url = codes "http://a";
  scheme = codes "http";
  authority = codes "a";
  weight = 1;
  backup = false;
  max_conns = none;
}

abbrev upstream : Upstream
upstream = record {
  name = codes "app";
  peers = peer ∷ [];
  load_balance = round_robin;
  unhealthy_after_failures = 1;
  unhealthy_cooldown = 100;
  active_health_check = none;
  cursor = 0;
}

-- The registry of one upstream with one peer, and the same with a request on its way.
abbrev registry : PeerHealthRegistry
registry = record {
  policies = (codes "app", State.from_upstream upstream) ∷ [];
  peers = (codes "app", (codes "http://a", 0) ∷ []) ∷ [];
  endpoint_peers = (codes "app", []) ∷ [];
  has_notifier = true;
  cells = health_default ∷ [];
  notified = [];
}

abbrev endpoint : Bytes → ResolvedUpstreamPeer
endpoint key = record {
  logical_peer_url = codes "http://a";
  endpoint_key = key;
  display_url = key;
  dial_authority = key;
  dial_addr = key;
  server_name = codes "a";
  weight = 1;
  backup = false;
  max_conns = none;
}

track_active_request-drop_guard_example :
    ((drop_guard
        (track_active_request registry (codes "app") (codes "http://a")).0
        (track_active_request registry (codes "app") (codes "http://a")).1).0.cells
      ≡ registry.cells)
    × ((drop_guard
          (track_active_request registry (codes "app") (codes "http://a")).0
          (track_active_request registry (codes "app") (codes "http://a")).1).1.peer
        ≡ none)
track_active_request-drop_guard_example =
    track_active_request-drop_guard registry (codes "app") (codes "http://a") 0 refl (omega arith)
      (omega arith)

abbrev both : PeerHealthRegistry
both =
    (ensure_endpoint (ensure_endpoint registry (codes "app") (codes "1") (codes "http://a")).0
      (codes "app") (codes "2") (codes "http://a")).0

endpoints-fail-together_example :
    is_available (record_failure both (codes "app") (codes "1") 50).0 (codes "app") (codes "2") 60
    ≡ State.is_available
        (State.record_failure health_default (State.from_upstream upstream) 50).0
        60
endpoints-fail-together_example =
    endpoints-fail-together registry (codes "app") (codes "1") (codes "2") (codes "http://a") 0 50
      60 (State.from_upstream upstream) refl refl refl refl refl (omega arith)

-- The endpoint that did not fail is unavailable as well.
sibling_down :
    State.is_available (State.record_failure health_default (State.from_upstream upstream) 50).0 60
    ≡ false
unfolding State.is_available State.record_failure
sibling_down = refl

abbrev resolve : UpstreamPeer → List ResolvedUpstreamPeer
resolve _ = endpoint (codes "1") ∷ endpoint (codes "2") ∷ []

select_peers-length_example :
    chosen (select_peers resolve 0 registry upstream (v4 (10 ∷ 0 ∷ 0 ∷ 1 ∷ [])) 1) ≤ 1
select_peers-length_example =
    select_peers-length resolve 0 registry upstream (v4 (10 ∷ 0 ∷ 0 ∷ 1 ∷ [])) 1

-- One request is on its way to a peer with two endpoints.
abbrev shared : PeerHealthRegistry
shared = record registry {
  endpoint_peers = (codes "app", (codes "1", 0) ∷ (codes "2", 0) ∷ []) ∷ [];
  cells = (record health_default { active_requests = 1 }) ∷ [];
}

aggregate_peer_snapshot-active_requests_example :
    (aggregate_peer_snapshot peer (
      map
        (endpoint_snapshot shared 0 upstream)
        (endpoint (codes "1") ∷ endpoint (codes "2") ∷ []))).active_requests
    ≡ 2
aggregate_peer_snapshot-active_requests_example =
    aggregate_peer_snapshot-active_requests shared 0 upstream peer 0
      (endpoint (codes "1") ∷ endpoint (codes "2") ∷ []) (refl, (refl, tt))

select_available_peers_complete_example :
    length (select_available_peers resolve 0 registry upstream (peer ∷ []) 1).1.peers
    ≡ min 1 (
        resolved resolve (peer ∷ [])
        - (select_available_peers resolve 0 registry upstream (peer ∷ []) 1).1.skipped_unhealthy)
select_available_peers_complete_example =
    select_available_peers_complete resolve 0 registry upstream (peer ∷ []) 1 (omega arith)
