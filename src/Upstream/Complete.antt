-- ===== src/Upstream/Complete.antt =====
-- What the weighted order returns: no more peers than asked for, all of the pool, and every peer
-- that has a weight if as many are asked for as the pool has.
use rginx.Prelude.{
  ℕ, ◌%◌, ◌<◌, ◌≤◌, ◌≡◌, refl, sym, ap, Bool, false, List, [], ◌∷◌, Memᴰ, arith, length,
  length-take, ◌==◌, min, is_empty, ◌||◌,
}
use native.Mathlib.Nat.{mod-lt}
use rginx.Routing.Matcher.{IpAddr}
use rginx.Upstream.{
  UpstreamPeer, Upstream, round_robin, ip_hash, least_conn, UpstreamLoadBalance, peers_for_pool,
  total_weight, stable_ip_hash, next_peers_in_pool, ip_hash_peers_in_pool, by_load_balance,
  peers_for_client_ip_in_pool,
}
use rginx.Upstream.Rounds.{weighted_peers-complete, weighted_peers-length}

-- No more peers are returned than are asked for, nor than the pool has.
next_peers_in_pool-length :
    (u : Upstream) (limit : ℕ) (backup : Bool)
    → length (next_peers_in_pool u limit backup).0
      ≤ min limit (length (peers_for_pool u.peers backup))
unfolding next_peers_in_pool
next_peers_in_pool-length u limit backup = ground (
  arith,
  length-take limit (peers_for_pool u.peers backup),
  weighted_peers-length (peers_for_pool u.peers backup)
      (u.cursor % total_weight (peers_for_pool u.peers backup)) limit,
)

mem-filled : {x : UpstreamPeer} {ps : List UpstreamPeer} → Memᴰ x ps → is_empty ps ≡ false
mem-filled (Memᴰ.head _) = refl
mem-filled (Memᴰ.tail _) = refl

mem-length : (ps : List UpstreamPeer) {x : UpstreamPeer} → Memᴰ x ps → 0 < length ps
mem-length [] m = elim m [ ]
mem-length (y ∷ ys) m = omega arith

mem-weighty :
    (ps : List UpstreamPeer) {x : UpstreamPeer} → Memᴰ x ps → 0 < x.weight → 0 < total_weight ps
mem-weighty [] m w = elim m [ ]
mem-weighty (y ∷ ys) {x} (Memᴰ.head e) w =
    let k : y.weight ≡ x.weight = ap (λ (p : UpstreamPeer). p.weight) (sym e) in omega arith
mem-weighty (y ∷ ys) (Memᴰ.tail m) w = omega (arith, mem-weighty ys m w)

module _ (u : Upstream) (limit : ℕ) (backup : Bool) (x : UpstreamPeer) where
  abbrev pool_of : List UpstreamPeer
  pool_of = peers_for_pool u.peers backup

  next_peers_in_pool-complete :
      length pool_of ≤ limit
      → Memᴰ x pool_of
      → 0 < x.weight
      → Memᴰ x (next_peers_in_pool u limit backup).0
  unfolding next_peers_in_pool
  next_peers_in_pool-complete l m w =
      let heavy : 0 < total_weight pool_of = mem-weighty pool_of m w in
      let filled : (is_empty pool_of || limit == 0) ≡ false =
        ground (arith, mem-filled m, mem-length pool_of m) in
      let weighty : (total_weight pool_of == 0) ≡ false = ground arith in
      rw (filled, weighty)
        (weighted_peers-complete pool_of (u.cursor % total_weight pool_of) limit x (mod-lt _ heavy)
          l m w)

  ip_hash_peers_in_pool-complete :
      (client_ip : IpAddr)
      → length pool_of ≤ limit
      → Memᴰ x pool_of
      → 0 < x.weight
      → Memᴰ x (ip_hash_peers_in_pool client_ip limit pool_of)
  unfolding ip_hash_peers_in_pool
  ip_hash_peers_in_pool-complete client_ip l m w =
      let heavy : 0 < total_weight pool_of = mem-weighty pool_of m w in
      let filled : (is_empty pool_of || limit == 0) ≡ false =
        ground (arith, mem-filled m, mem-length pool_of m) in
      let weighty : (total_weight pool_of == 0) ≡ false = ground arith in
      rw (filled, weighty)
        (weighted_peers-complete pool_of (stable_ip_hash client_ip % total_weight pool_of) limit x
          (mod-lt _ heavy) l m w)

  by_load_balance-complete :
      (balance : UpstreamLoadBalance) (client_ip : IpAddr)
      → length pool_of ≤ limit
      → Memᴰ x pool_of
      → 0 < x.weight
      → Memᴰ x (by_load_balance balance u client_ip limit backup).0
  unfolding by_load_balance
  by_load_balance-complete round_robin client_ip l m w = next_peers_in_pool-complete l m w
  by_load_balance-complete ip_hash client_ip l m w = ip_hash_peers_in_pool-complete client_ip l m w
  by_load_balance-complete least_conn client_ip l m w = next_peers_in_pool-complete l m w

-- Whatever the way of balancing, if at least as many peers are asked for as the pool has, then every
-- peer of the pool with a positive weight is among those that are returned.
pub peers_for_client_ip_in_pool-complete :
    (u : Upstream) (client_ip : IpAddr) (limit : ℕ) (backup : Bool) (x : UpstreamPeer)
    → length (peers_for_pool u.peers backup) ≤ limit
    → Memᴰ x (peers_for_pool u.peers backup)
    → 0 < x.weight
    → Memᴰ x (peers_for_client_ip_in_pool u client_ip limit backup).0
unfolding peers_for_client_ip_in_pool
peers_for_client_ip_in_pool-complete u client_ip limit backup x l m w =
    let filled : (is_empty (peers_for_pool u.peers backup) || limit == 0) ≡ false =
      ground (arith, mem-filled m, mem-length (peers_for_pool u.peers backup) m) in
    rw filled (by_load_balance-complete u limit backup x u.load_balance client_ip l m w)
