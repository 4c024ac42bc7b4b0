-- ===== src/Health/Selection/Pools.antt =====
-- The two pools: the backup peers fill up what the primary ones leave.
pub mod Bounds
use rginx.Prelude.{
  ℕ, zero, suc, ◌+◌, ◌-◌, compare, Ordering, Bool, true, false, not, List, [], ◌∷◌, ◌++◌, map,
  length, is_empty, take, if◌then◌else◌, ◌==◌, bytes_cmp, then_cmp,
}
use rginx.Routing.Matcher.{IpAddr}
use rginx.Upstream.{
  Upstream, UpstreamPeer, UpstreamLoadBalance, has_primary_peers, peers_for_client_ip_in_pool,
}
use rginx.Upstream.UpstreamLoadBalance.{least_conn}
use rginx.Health.Registry.{PeerHealthRegistry}
use rginx.Health.Selection.{
  ResolvedUpstreamPeer, SelectedPeers, nobody, merge_selected_peers, projected_least_conn_load,
  sort_by, select_available_peers, gather,
}

-- The order of the endpoints with the least connections.
pub least_conn_order : ℕ × ℕ × ResolvedUpstreamPeer → ℕ × ℕ × ResolvedUpstreamPeer → Ordering
unfolding projected_least_conn_load
least_conn_order (la, lo, l) (ra, ro, r) =
    then_cmp (projected_least_conn_load la l.weight ra r.weight) (
      then_cmp (compare r.weight l.weight)
        (then_cmp (compare lo ro) (bytes_cmp l.dial_authority r.dial_authority)))

abbrev pub is_least_conn : UpstreamLoadBalance → Bool
is_least_conn least_conn = true
is_least_conn _ = false

-- The registry and the cursor after a choice, and what was chosen.
pub record Choice : Type 0 where
  pub registry : PeerHealthRegistry
  pub upstream : Upstream
  pub selected : SelectedPeers

-- How the backup pool is added to a choice in the primary one.
pub fill : ℕ → Choice → (ℕ → PeerHealthRegistry → Upstream → Choice) → Choice
fill limit primary backup =
    if is_empty primary.selected.peers
    then join primary (backup limit primary.registry primary.upstream)
    else if length primary.selected.peers == limit
    then primary
    else join primary
        (backup (limit - length primary.selected.peers) primary.registry primary.upstream)
  where
    join : Choice → Choice → Choice
    join p s = record s { selected = merge_selected_peers p.selected s.selected }

pub fill_unless_zero : ℕ → Choice → (ℕ → PeerHealthRegistry → Upstream → Choice) → Choice
unfolding fill
fill_unless_zero limit primary backup =
    if limit == 0 then record primary { selected = nobody } else fill limit primary backup

module _ (resolve : UpstreamPeer → List ResolvedUpstreamPeer) (now : ℕ) where
  pub select_peers_by_least_conn_in_pool : ℕ → Bool → PeerHealthRegistry → Upstream → Choice
  unfolding gather least_conn_order
  select_peers_by_least_conn_in_pool limit backup r u =
      let (r', available, skipped) = gather resolve now u.name r backup 0 u.peers in
      record {
        registry = r';
        upstream = u;
        selected = record {
          peers = map (λ (_, _, peer). peer) (take limit (sort_by least_conn_order available));
          skipped_unhealthy = skipped;
        };
      }

  pub select_peers_in_pool : IpAddr → ℕ → Bool → PeerHealthRegistry → Upstream → Choice
  unfolding select_available_peers
  select_peers_in_pool client_ip limit backup r u =
      let (ordered, u') = peers_for_client_ip_in_pool u client_ip (length u.peers) backup in
      let (r', selected) = select_available_peers resolve now r u' ordered limit in
      record { registry = r'; upstream = u'; selected = selected }

  pub select_peers_by_least_conn : PeerHealthRegistry → Upstream → ℕ → Choice
  unfolding fill select_peers_by_least_conn_in_pool
  select_peers_by_least_conn r u limit =
      if limit == 0
      then record { registry = r; upstream = u; selected = nobody }
      else if not (has_primary_peers u)
      then select_peers_by_least_conn_in_pool limit true r u
      else fill limit (select_peers_by_least_conn_in_pool limit false r u)
          (λ remaining. select_peers_by_least_conn_in_pool remaining true)

  pub select_peers : PeerHealthRegistry → Upstream → IpAddr → ℕ → Choice
  unfolding fill_unless_zero select_peers_in_pool select_peers_by_least_conn
  select_peers r u client_ip limit =
      if is_least_conn u.load_balance
      then select_peers_by_least_conn r u limit
      else if not (has_primary_peers u)
      then select_peers_in_pool client_ip limit true r u
      else fill_unless_zero limit (select_peers_in_pool client_ip limit false r u)
          (λ remaining. select_peers_in_pool client_ip remaining true)
