-- ===== src/Upstream/Tests.antt =====
-- Runs of the peer selection, and its theorems at concrete inputs.
use Prim.Native.String.{String}
use rginx.Prelude.{
  ℕ, ◌≡◌, refl, Bool, true, false, none, [], ◌∷◌, Memᴰ, arith, codes, bytes_eq, filter,
}
use rginx.Routing.Matcher.{v4}
use rginx.Upstream.{
  UpstreamPeer, Upstream, round_robin, ip_hash, peers_for_pool, total_weight, next_peers,
  next_peers_in_pool, peers_for_client_ip_in_pool, stable_ip_hash, weighted_peers,
}
use rginx.Upstream.Slots.{count_range}
use rginx.Upstream.Turns.{head_is, after, next_peers_in_pool-fair}
use rginx.Upstream.Complete.{peers_for_client_ip_in_pool-complete}

abbrev peer : String → ℕ → Bool → UpstreamPeer
peer url weight backup = record {
  url = codes url;
  scheme = codes "http";
  authority = codes url;
  weight = weight;
  backup = backup;
  max_conns = none;
}

abbrev a : UpstreamPeer
a = peer "a" 3 false

abbrev b : UpstreamPeer
b = peer "b" 1 false

abbrev spare : UpstreamPeer
spare = peer "s" 1 true

abbrev upstream : Upstream
upstream = record {
  name = codes "app";
  peers = a ∷ spare ∷ b ∷ [];
  load_balance = round_robin;
  unhealthy_after_failures = 2;
  unhealthy_cooldown = 10000;
  active_health_check = none;
  cursor = 2;
}

abbrev is_a : UpstreamPeer → Bool
is_a p = bytes_eq p.url (codes "a")

orders :
    ((next_peers upstream 2).0 ≡ a ∷ b ∷ [])
    × ((next_peers (record upstream { cursor = 3 }) 2).0 ≡ b ∷ a ∷ [])
    × ((next_peers (record upstream { peers = spare ∷ [] }) 2).0 ≡ spare ∷ [])
unfolding next_peers next_peers_in_pool peers_for_pool weighted_peers
orders = (refl, refl, refl)

-- FNV-1a of the bytes 10, 0, 0, 1.
hashed : stable_ip_hash (v4 (10 ∷ 0 ∷ 0 ∷ 1 ∷ [])) ≡ 10155667543913099244
unfolding stable_ip_hash
hashed = refl

next_peers_in_pool-fair_example :
    count_range
      (λ k. head_is is_a (next_peers_in_pool (after k upstream 2 false) 2 false).0)
      0
      (total_weight (peers_for_pool upstream.peers false))
    ≡ total_weight (filter is_a (peers_for_pool upstream.peers false))
unfolding peers_for_pool
next_peers_in_pool-fair_example =
    next_peers_in_pool-fair upstream 2 false is_a (omega arith) (omega arith) (omega arith)

peers_for_client_ip_in_pool-complete_example :
    Memᴰ b
      (peers_for_client_ip_in_pool
        (record upstream { load_balance = ip_hash })
        (v4 (10 ∷ 0 ∷ 0 ∷ 1 ∷ []))
        2
        false).0
unfolding peers_for_pool
peers_for_client_ip_in_pool-complete_example =
    peers_for_client_ip_in_pool-complete (record upstream { load_balance = ip_hash })
      (v4 (10 ∷ 0 ∷ 0 ∷ 1 ∷ [])) 2 false b (omega arith) (Memᴰ.tail (Memᴰ.head refl)) (omega arith)
