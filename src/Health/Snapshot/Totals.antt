-- ===== src/Health/Snapshot/Totals.antt =====
-- The count of active requests that is shown for a peer with resolved endpoints.
use rginx.Prelude.{ℕ, ◌*◌, ◌≡◌, some, List, [], ◌∷◌, map, length, arith, All}
use rginx.Upstream.{Upstream, UpstreamPeer}
use rginx.Health.Registry.{PeerHealthRegistry, lock, get_health}
use rginx.Health.Selection.{ResolvedUpstreamPeer}
use rginx.Health.Snapshot.{endpoint_snapshot, aggregate_peer_snapshot, snapshot_endpoint}

module _ (r : PeerHealthRegistry) (now : ℕ) where
  -- A peer whose endpoints all share one cell, as `ensure_endpoint` makes them, is shown with as many
  -- times the active requests of that cell as it has endpoints.
  pub aggregate_peer_snapshot-active_requests :
      (u : Upstream) (peer : UpstreamPeer) (a : ℕ) (endpoints : List ResolvedUpstreamPeer)
      → All (λ e. get_health r u.name e.endpoint_key ≡ some a) endpoints
      → (aggregate_peer_snapshot peer (map (endpoint_snapshot r now u) endpoints)).active_requests
        ≡ length endpoints * (lock r a).active_requests
  unfolding aggregate_peer_snapshot endpoint_snapshot snapshot_endpoint
  aggregate_peer_snapshot-active_requests u peer a [] h = omega arith
  aggregate_peer_snapshot-active_requests u peer a (e ∷ es) (h, t) =
      rw (h, aggregate_peer_snapshot, endpoint_snapshot)
        (omega (arith, aggregate_peer_snapshot-active_requests u peer a es t))
