-- ===== src/Health/Selection/Pools/Bounds.antt =====
-- No more endpoints are chosen than asked for.
use rginx.Prelude.{
  ℕ, suc, ◌+◌, ◌-◌, ◌≤◌, ◌≡◌, refl, ap, inl, inr, Bool, true, false, List, [], ◌∷◌, map, length,
  length-append, length-take, is_empty, take, Bool-cases, arith, ◌==◌,
}
use rginx.Routing.Matcher.{IpAddr}
use rginx.Upstream.{Upstream, UpstreamPeer, has_primary_peers, peers_for_client_ip_in_pool}
use rginx.Health.Registry.{PeerHealthRegistry}
use rginx.Health.Selection.{ResolvedUpstreamPeer, sort_by, select_available_peers, gather}
use rginx.Health.Selection.Members.{pick_loop-length}
use rginx.Health.Selection.Pools.{
  Choice, fill, fill_unless_zero, is_least_conn, least_conn_order, select_peers,
  select_peers_in_pool, select_peers_by_least_conn, select_peers_by_least_conn_in_pool,
}

length-map : {A B : Type 0} (f : A → B) (xs : List A) → length (map f xs) ≡ length xs
length-map f [] = refl
length-map f (x ∷ xs) = ap suc (length-map f xs)

is_empty-length : {A : Type 0} (xs : List A) → is_empty xs ≡ true → length xs ≡ 0
is_empty-length [] h = refl
is_empty-length (x ∷ xs) h = absurd (cc)

abbrev pub chosen : Choice → ℕ
chosen c = length c.selected.peers

fill-length :
    (limit : ℕ) (primary : Choice) (backup : ℕ → PeerHealthRegistry → Upstream → Choice)
    → chosen primary ≤ limit
    → ((n : ℕ) (r : PeerHealthRegistry) (u : Upstream) → chosen (backup n r u) ≤ n)
    → chosen (fill limit primary backup) ≤ limit
unfolding fill
fill-length limit primary backup h b = elim (Bool-cases (is_empty primary.selected.peers)) [
  | inl e ↦
      rw (e, fill)
        (omega (
          arith,
          length-append primary.selected.peers
              (backup limit primary.registry primary.upstream).selected.peers,
          is_empty-length primary.selected.peers e,
          b limit primary.registry primary.upstream,
        ))
  | inr e ↦ elim (Bool-cases (length primary.selected.peers == limit)) [
    | inl full ↦ rw (e, full, fill) h
    | inr room ↦
        rw (e, room, fill)
          (omega (
            arith,
            h,
            length-append primary.selected.peers
                (backup (limit - length primary.selected.peers) primary.registry
                  primary.upstream).selected.peers,
            b (limit - length primary.selected.peers) primary.registry primary.upstream,
          ))
  ]
]

fill_unless_zero-length :
    (limit : ℕ) (primary : Choice) (backup : ℕ → PeerHealthRegistry → Upstream → Choice)
    → chosen primary ≤ limit
    → ((n : ℕ) (r : PeerHealthRegistry) (u : Upstream) → chosen (backup n r u) ≤ n)
    → chosen (fill_unless_zero limit primary backup) ≤ limit
unfolding fill_unless_zero
fill_unless_zero-length limit primary backup h b = elim (Bool-cases (limit == 0)) [
  | inl z ↦ rw (z, fill_unless_zero) (omega arith)
  | inr z ↦ rw (z, fill_unless_zero) (fill-length limit primary backup h b)
]

module _ (resolve : UpstreamPeer → List ResolvedUpstreamPeer) (now : ℕ) where
  select_available_peers-length :
      (r : PeerHealthRegistry) (u : Upstream) (ordered : List UpstreamPeer) (limit : ℕ)
      → length (select_available_peers resolve now r u ordered limit).1.peers ≤ limit
  unfolding select_available_peers
  select_available_peers-length r u ordered limit = elim (Bool-cases (limit == 0)) [
    | inl e ↦ rw (e, select_available_peers) (omega arith)
    | inr e ↦
        rw (e, select_available_peers) (pick_loop-length (limit + 1) _ limit 0 [] (omega arith))
  ]

  in_pool-length :
      (client_ip : IpAddr) (limit : ℕ) (backup : Bool) (r : PeerHealthRegistry) (u : Upstream)
      → chosen (select_peers_in_pool resolve now client_ip limit backup r u) ≤ limit
  unfolding select_peers_in_pool
  in_pool-length client_ip limit backup r u =
      let (ordered, u') = peers_for_client_ip_in_pool u client_ip (length u.peers) backup in
      select_available_peers-length r u' ordered limit

  least_conn_in_pool-length :
      (limit : ℕ) (backup : Bool) (r : PeerHealthRegistry) (u : Upstream)
      → chosen (select_peers_by_least_conn_in_pool resolve now limit backup r u) ≤ limit
  unfolding select_peers_by_least_conn_in_pool
  least_conn_in_pool-length limit backup r u =
      let (_, available, _) = gather resolve now u.name r backup 0 u.peers in
      omega (
        arith,
        length-map (λ (_, _, peer). peer) (take limit (sort_by least_conn_order available)),
        length-take limit (sort_by least_conn_order available),
      )

  by_least_conn-length :
      (r : PeerHealthRegistry) (u : Upstream) (limit : ℕ)
      → chosen (select_peers_by_least_conn resolve now r u limit) ≤ limit
  unfolding select_peers_by_least_conn
  by_least_conn-length r u limit = elim (Bool-cases (limit == 0)) [
    | inl e ↦ rw (e, select_peers_by_least_conn) (omega arith)
    | inr e ↦ elim (Bool-cases (has_primary_peers u)) [
      | inr p ↦ rw (e, p, select_peers_by_least_conn) (least_conn_in_pool-length limit true r u)
      | inl p ↦
          rw (e, p, select_peers_by_least_conn)
            (fill-length limit (select_peers_by_least_conn_in_pool resolve now limit false r u)
              (λ n. select_peers_by_least_conn_in_pool resolve now n true)
              (least_conn_in_pool-length limit false r u) (λ n. least_conn_in_pool-length n true))
    ]
  ]

  -- Whatever the way of balancing and the state of the peers, no more endpoints are chosen than asked
  -- for, those of the backup peers included.
  pub select_peers-length :
      (r : PeerHealthRegistry) (u : Upstream) (client_ip : IpAddr) (limit : ℕ)
      → chosen (select_peers resolve now r u client_ip limit) ≤ limit
  unfolding select_peers
  select_peers-length r u client_ip limit = elim (Bool-cases (is_least_conn u.load_balance)) [
    | inl l ↦ rw (l, select_peers) (by_least_conn-length r u limit)
    | inr l ↦ elim (Bool-cases (has_primary_peers u)) [
      | inr p ↦ rw (l, p, select_peers) (in_pool-length client_ip limit true r u)
      | inl p ↦
          rw (l, p, select_peers)
            (fill_unless_zero-length limit
              (select_peers_in_pool resolve now client_ip limit false r u)
              (λ n. select_peers_in_pool resolve now client_ip n true)
              (in_pool-length client_ip limit false r u) (λ n. in_pool-length client_ip n true))
    ]
  ]
