-- ===== src/Health/Selection.antt =====
-- registry/selection.rs: the choice of the endpoints to try. `resolve` is the resolver
-- (`ProxyClient::resolve_peer`, no endpoints when it fails), `now` the time of the choice.
pub mod Members
pub mod Pools
pub mod Complete
use rginx.Prelude.{
  ℕ, zero, suc, ◌+◌, ◌-◌, ◌*◌, min, max, compare, Ordering, Bool, true, false, not, ◌&&◌, ◌||◌,
  Option, none, some, List, [], ◌∷◌, ◌++◌, map, length, is_empty, get_elem?, take, any,
  if◌then◌else◌, ltb, leb, ◌==◌, Bytes, bytes_cmp, then_cmp, is_none_or,
}
use rginx.Routing.Matcher.{IpAddr}
use rginx.Upstream.{
  Upstream, UpstreamPeer, UpstreamLoadBalance, has_primary_peers, peers_for_client_ip_in_pool,
  bool_eq,
}
use rginx.Health.State.{u64}
use rginx.Health.Registry.{PeerHealthRegistry, ensure_endpoint, active_requests, is_available}

-- `ResolvedUpstreamPeer`: the fields that the choice and the snapshots read.
pub record ResolvedUpstreamPeer : Type 0 where
  pub logical_peer_url : Bytes
  pub endpoint_key : Bytes
  pub display_url : Bytes
  pub dial_authority : Bytes
  pub dial_addr : Bytes
  pub server_name : Bytes
  pub weight : ℕ
  pub backup : Bool
  pub max_conns : Option ℕ

pub record SelectedPeers : Type 0 where
  pub peers : List ResolvedUpstreamPeer
  pub skipped_unhealthy : ℕ

abbrev pub nobody : SelectedPeers
nobody = record { peers = []; skipped_unhealthy = 0 }

abbrev pub merge_selected_peers : SelectedPeers → SelectedPeers → SelectedPeers
merge_selected_peers primary secondary = record {
  peers = primary.peers ++ secondary.peers;
  skipped_unhealthy = primary.skipped_unhealthy + secondary.skipped_unhealthy;
}

abbrev saturating_add : ℕ → ℕ → ℕ
saturating_add a b = min (a + b) (u64 - 1)

pub projected_least_conn_load : ℕ → ℕ → ℕ → ℕ → Ordering
projected_least_conn_load left_active left_weight right_active right_weight =
    compare (saturating_add left_active 1 * max right_weight 1)
      (saturating_add right_active 1 * max left_weight 1)

-- `sort_by`, which is stable: an element goes in front of the first one that is greater.
module _ {A : Type 0} (cmp : A → A → Ordering) where
  abbrev pub insert_by : A → List A → List A
  insert_by x [] = x ∷ []
  insert_by x (y ∷ ys) =
      let rest = insert_by x ys in elim (cmp x y) [ Ordering.gt ↦ y ∷ rest | _ ↦ x ∷ y ∷ ys ]

  abbrev pub sort_by : List A → List A
  sort_by [] = []
  sort_by (x ∷ xs) = insert_by x (sort_by xs)

unfoldable pub endpoint_is_selectable :
    PeerHealthRegistry → Bytes → ℕ → ResolvedUpstreamPeer → ℕ → Bool
endpoint_is_selectable r upstream_name now endpoint active =
    if not (is_available r upstream_name endpoint.endpoint_key now)
    then false
    else is_none_or endpoint.max_conns (λ max_conns. ltb active max_conns)

abbrev ensure : PeerHealthRegistry → Bytes → ResolvedUpstreamPeer → PeerHealthRegistry
ensure r upstream_name e = (ensure_endpoint r upstream_name e.endpoint_key e.logical_peer_url).0

pub ensure_all : PeerHealthRegistry → Bytes → List ResolvedUpstreamPeer → PeerHealthRegistry
ensure_all r name [] = r
ensure_all r name (e ∷ es) = ensure_all (ensure r name e) name es

-- One pass over the endpoints of a peer: the registry, those that can be selected, and the number of
-- the others.
pub sift :
    ℕ
    → Bytes
    → PeerHealthRegistry
    → List ResolvedUpstreamPeer
    → PeerHealthRegistry × List ResolvedUpstreamPeer × ℕ
sift now name r [] = (r, [], 0)
sift now name r (e ∷ es) =
    let r' = ensure r name e in
    let (last, available, skipped) = sift now name r' es in
    if endpoint_is_selectable r' name now e (active_requests r' name e.logical_peer_url)
    then (last, e ∷ available, skipped)
    else (last, available, suc skipped)

pub order_endpoints :
    PeerHealthRegistry → Bytes → List ResolvedUpstreamPeer → List ResolvedUpstreamPeer
order_endpoints r name es =
    sort_by
      (λ left right.
        then_cmp
          (compare (active_requests r name left.logical_peer_url)
            (active_requests r name right.logical_peer_url))
          (bytes_cmp left.dial_authority right.dial_authority))
      es

module _ (resolve : UpstreamPeer → List ResolvedUpstreamPeer) (now : ℕ) where
  -- The loop over the ordered peers: a batch for each peer with an endpoint that can be selected.
  pub batches_of :
      Bytes
      → PeerHealthRegistry
      → List UpstreamPeer
      → PeerHealthRegistry × List (List ResolvedUpstreamPeer) × ℕ
  unfolding ensure_all sift order_endpoints
  batches_of name r [] = (r, [], 0)
  batches_of name r (peer ∷ peers) =
      let ensured = ensure_all r name (resolve peer) in
      let (r', available, skipped) =
        sift now name ensured (order_endpoints ensured name (resolve peer)) in
      let (last, batches, others) = batches_of name r' peers in
      (last, (if is_empty available then batches else available ∷ batches), skipped + others)

-- The `for` over the batches, at one depth: what is selected, and whether any batch was as deep.
pub pick_round :
    List (List ResolvedUpstreamPeer)
    → ℕ
    → ℕ
    → List ResolvedUpstreamPeer
    → List ResolvedUpstreamPeer × Bool
pick_round [] limit depth selected = (selected, false)
pick_round (batch ∷ batches) limit depth selected = elim (get_elem? batch depth) [
  | none ↦ pick_round batches limit depth selected
  | some endpoint ↦
      if length selected + 1 == limit
      then (selected ++ endpoint ∷ [], true)
      else ((pick_round batches limit depth (selected ++ endpoint ∷ [])).0, true)
]

-- The `while`. Each round but the last takes an endpoint, so `limit` rounds and one are enough.
pub pick_loop :
    ℕ
    → List (List ResolvedUpstreamPeer)
    → ℕ
    → ℕ
    → List ResolvedUpstreamPeer
    → List ResolvedUpstreamPeer
unfolding pick_round
pick_loop zero batches limit depth selected = selected
pick_loop (suc fuel) batches limit depth selected =
    let (picked, advanced) = pick_round batches limit depth selected in
    let rest = pick_loop fuel batches limit (depth + 1) picked in
    if ltb (length selected) limit then (if advanced then rest else picked) else selected

module _ (resolve : UpstreamPeer → List ResolvedUpstreamPeer) (now : ℕ) where
  pub select_available_peers :
      PeerHealthRegistry → Upstream → List UpstreamPeer → ℕ → PeerHealthRegistry × SelectedPeers
  unfolding batches_of pick_loop
  select_available_peers r u ordered limit =
      if limit == 0
      then (r, nobody)
      else let (r', batches, skipped) = batches_of resolve now u.name r ordered in
        (
          r',
          record { peers = pick_loop (limit + 1) batches limit 0 []; skipped_unhealthy = skipped },
        )

  -- The loop over the peers for the least connections: each endpoint with its active requests and the
  -- position of its peer.
  pub sift_least_conn :
      Bytes
      → PeerHealthRegistry
      → ℕ
      → List ResolvedUpstreamPeer
      → PeerHealthRegistry × List (ℕ × ℕ × ResolvedUpstreamPeer) × ℕ
  sift_least_conn name r order [] = (r, [], 0)
  sift_least_conn name r order (e ∷ es) =
      let r' = ensure r name e in
      let active = active_requests r' name e.logical_peer_url in
      let (last, available, skipped) = sift_least_conn name r' order es in
      if endpoint_is_selectable r' name now e active
      then (last, (active, order, e) ∷ available, skipped)
      else (last, available, suc skipped)

  pub gather :
      Bytes
      → PeerHealthRegistry
      → Bool
      → ℕ
      → List UpstreamPeer
      → PeerHealthRegistry × List (ℕ × ℕ × ResolvedUpstreamPeer) × ℕ
  unfolding sift_least_conn
  gather name r backup order [] = (r, [], 0)
  gather name r backup order (peer ∷ peers) =
      let (r', available, skipped) =
        (if bool_eq peer.backup backup
          then sift_least_conn name r order (resolve peer)
          else (r, [], 0)) in
      let (last, others, more) = gather name r' backup (suc order) peers in
      (last, available ++ others, skipped + more)
