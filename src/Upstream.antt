-- ===== src/Upstream.antt =====
-- crates/rginx-core/src/config/upstream/{types,selection}.rs: upstreams, and the order in which
-- their peers are tried. A list of indices into `peers` stands here as the peers that it points
-- at, since the code only ever reads `peers` through it. `usize` and `u64` have 64 bits.
pub mod Slots
pub mod Loop
pub mod Rounds
pub mod Complete
pub mod Turns
mod Tests
use Prim.Native.Nat.{bit_xor}
use rginx.Prelude.{
  ℕ, zero, suc, ◌+◌, ◌*◌, ◌%◌, ◌^◌, min, Bool, true, false, not, ◌||◌, Option, none, some, List, [],
  ◌∷◌, ◌++◌, map, length, is_empty, take, any, filter, get_elem?, ltb, ◌==◌, if◌then◌else◌, Bytes,
}
use mathlib.Core.List.{foldl, head?}
use rginx.Routing.Matcher.{IpAddr, v4, v6}

pub data UpstreamLoadBalance : Type 0 where
  round_robin ip_hash least_conn : UpstreamLoadBalance

pub record ActiveHealthCheck : Type 0 where
  pub path : Bytes
  pub grpc_service : Option Bytes
  pub interval : ℕ
  pub timeout : ℕ
  pub healthy_successes_required : ℕ

pub record UpstreamPeer : Type 0 where
  pub url : Bytes
  pub scheme : Bytes
  pub authority : Bytes
  pub weight : ℕ
  pub backup : Bool
  pub max_conns : Option ℕ

-- The fields for TLS, DNS, timeouts and connection pools are left out: selection reads none.
pub record Upstream : Type 0 where
  pub name : Bytes
  pub peers : List UpstreamPeer
  pub load_balance : UpstreamLoadBalance
  pub unhealthy_after_failures : ℕ
  pub unhealthy_cooldown : ℕ
  pub active_health_check : Option ActiveHealthCheck
  pub cursor : ℕ

unfoldable pub has_primary_peers : Upstream → Bool
has_primary_peers u = any (λ peer. not peer.backup) u.peers

abbrev pub bool_eq : Bool → Bool → Bool
bool_eq true b = b
bool_eq false b = not b

unfoldable pub peers_for_pool : List UpstreamPeer → Bool → List UpstreamPeer
peers_for_pool peers backup = filter (λ peer. bool_eq peer.backup backup) peers

abbrev pub total_weight : List UpstreamPeer → ℕ
total_weight [] = 0
total_weight (peer ∷ peers) = peer.weight + total_weight peers

-- The loop of `peer_position_for_weighted_slot`.
pub position_from : List UpstreamPeer → ℕ → ℕ → ℕ → Option ℕ
position_from [] position offset slot = none
position_from (peer ∷ peers) position offset slot =
    if ltb slot (offset + peer.weight)
    then some position
    else position_from peers (suc position) (offset + peer.weight) slot

pub peer_position_for_weighted_slot : List UpstreamPeer → ℕ → Option ℕ
unfolding position_from
peer_position_for_weighted_slot pool slot = position_from pool 0 0 slot

-- The vector `seen`: a read, and the write of `true`.
abbrev pub is_seen : List Bool → ℕ → Bool
is_seen [] i = false
is_seen (b ∷ bs) zero = b
is_seen (b ∷ bs) (suc i) = is_seen bs i

abbrev pub mark : List Bool → ℕ → List Bool
mark [] i = []
mark (b ∷ bs) zero = true ∷ bs
mark (b ∷ bs) (suc i) = b ∷ mark bs i

abbrev pub unseen : List UpstreamPeer → List Bool
unseen [] = []
unseen (p ∷ ps) = false ∷ unseen ps

-- `selected.push(peers[position])`.
pub push_at : List UpstreamPeer → ℕ → List UpstreamPeer → List UpstreamPeer
push_at pool position selected = elim (get_elem? pool position) [
  | none ↦ selected
  | some peer ↦ selected ++ peer ∷ []
]

-- One round of the loop over the offsets: it ends the loop with the result, or goes on.
pub data Round : Type 0 where
  done : List UpstreamPeer → Round
  go : List Bool → List UpstreamPeer → Round

pub weighted_round : List UpstreamPeer → ℕ → ℕ → ℕ → ℕ → List Bool → List UpstreamPeer → Round
weighted_round pool total start count offset seen selected =
    elim (peer_position_for_weighted_slot pool ((start + offset) % total)) [
      | none ↦ go seen selected
      | some position ↦
          if is_seen seen position
          then go seen selected
          else let pushed = push_at pool position selected in
            if length pushed == count then done pushed else go (mark seen position) pushed
    ]

-- The loop, by the rounds that are left.
pub weighted_loop :
    List UpstreamPeer → ℕ → ℕ → ℕ → ℕ → ℕ → List Bool → List UpstreamPeer → List UpstreamPeer
weighted_loop pool total start count zero offset seen selected = selected
weighted_loop pool total start count (suc rounds) offset seen selected =
    elim (weighted_round pool total start count offset seen selected) [
      | done result ↦ result
      | go seen' selected' ↦
          weighted_loop pool total start count rounds (suc offset) seen' selected'
    ]

pub weighted_peers : List UpstreamPeer → ℕ → ℕ → List UpstreamPeer
unfolding weighted_loop weighted_round peer_position_for_weighted_slot push_at
weighted_peers pool start limit =
    let total = total_weight pool in
    if total == 0
    then []
    else weighted_loop pool total start (min limit (length pool)) total 0 (unseen pool) []

abbrev pub word : ℕ
word = 2 ^ 64

-- One step of FNV-1a: `(hash ^ byte).wrapping_mul(FNV_PRIME)`.
abbrev fnv_step : ℕ → ℕ → ℕ
fnv_step hash byte = (bit_xor hash byte * 0x100000001b3) % word

abbrev octets : IpAddr → Bytes
octets (v4 bytes) = bytes
octets (v6 bytes) = bytes

unfoldable pub stable_ip_hash : IpAddr → ℕ
stable_ip_hash ip = foldl fnv_step 0xcbf29ce484222325 (octets ip)

-- The cursor is an atomic counter, which wraps: the result has its next value.
pub next_peers_in_pool : Upstream → ℕ → Bool → List UpstreamPeer × Upstream
next_peers_in_pool u limit backup =
    let pool = peers_for_pool u.peers backup in
    if is_empty pool || limit == 0
    then ([], u)
    else if total_weight pool == 0
    then (take limit pool, u)
    else (
      weighted_peers pool (u.cursor % total_weight pool) limit,
      record u { cursor = (u.cursor + 1) % word },
    )

pub ip_hash_peers_in_pool : IpAddr → ℕ → List UpstreamPeer → List UpstreamPeer
ip_hash_peers_in_pool client_ip limit pool =
    if is_empty pool || limit == 0
    then []
    else if total_weight pool == 0
    then take limit pool
    else weighted_peers pool (stable_ip_hash client_ip % total_weight pool) limit

pub by_load_balance :
    UpstreamLoadBalance → Upstream → IpAddr → ℕ → Bool → List UpstreamPeer × Upstream
by_load_balance round_robin u client_ip limit backup = next_peers_in_pool u limit backup
by_load_balance ip_hash u client_ip limit backup =
    (ip_hash_peers_in_pool client_ip limit (peers_for_pool u.peers backup), u)
by_load_balance least_conn u client_ip limit backup = next_peers_in_pool u limit backup

unfoldable pub peers_for_client_ip_in_pool :
    Upstream → IpAddr → ℕ → Bool → List UpstreamPeer × Upstream
peers_for_client_ip_in_pool u client_ip limit backup =
    if is_empty (peers_for_pool u.peers backup) || limit == 0
    then ([], u)
    else by_load_balance u.load_balance u client_ip limit backup

-- The other pool is tried if the first one gives nothing.
abbrev or_backup :
    List UpstreamPeer × Upstream
    → (Upstream → List UpstreamPeer × Upstream)
    → List UpstreamPeer × Upstream
or_backup (primary, u) other = if is_empty primary then other u else (primary, u)

pub next_peers : Upstream → ℕ → List UpstreamPeer × Upstream
next_peers u limit =
    or_backup (next_peers_in_pool u limit false) (λ v. next_peers_in_pool v limit true)

pub next_peer : Upstream → Option UpstreamPeer × Upstream
unfolding next_peers
next_peer u = let (peers, v) = next_peers u 1 in (head? peers, v)

pub peers_for_client_ip : Upstream → IpAddr → ℕ → List UpstreamPeer × Upstream
peers_for_client_ip u client_ip limit =
    or_backup (peers_for_client_ip_in_pool u client_ip limit false)
      (λ v. peers_for_client_ip_in_pool v client_ip limit true)
