-- ===== src/Health/Registry.antt =====
-- registry/{state,guards}.rs: the health of all peers. `Arc<PeerHealth>` is the address of a cell in
-- `cells`, so that two keys can share one; `notified` lists the calls of the notifier, the last first.
pub mod Sharing
pub mod Guards
use rginx.Prelude.{
  ℕ, zero, suc, ◌+◌, Bool, true, false, Option, none, some, List, [], ◌∷◌, ◌++◌, length, get_elem?,
  unwrap_or, or, if◌then◌else◌, Bytes, Map, get, insert, map, is_none_or, is_some_and,
}
use rginx.Upstream.{Upstream, UpstreamPeer}
use rginx.Health.State
use rginx.Health.State.{
  PeerHealthPolicy, from_upstream, PeerFailureStatus, ActiveProbeStatus, PeerHealthState,
  health_default,
}

pub record PeerHealthRegistry : Type 0 where
  pub policies : Map PeerHealthPolicy
  pub peers : Map (Map ℕ)
  pub endpoint_peers : Map (Map ℕ)
  pub has_notifier : Bool
  pub cells : List PeerHealthState
  pub notified : List Bytes

-- The cell at an address, and its update.
abbrev pub lock : PeerHealthRegistry → ℕ → PeerHealthState
lock r a = unwrap_or (get_elem? r.cells a) health_default

abbrev pub set_elem : List PeerHealthState → ℕ → PeerHealthState → List PeerHealthState
set_elem [] i s = []
set_elem (x ∷ xs) zero s = s ∷ xs
set_elem (x ∷ xs) (suc i) s = x ∷ set_elem xs i s

abbrev pub store : PeerHealthRegistry → ℕ → PeerHealthState → PeerHealthRegistry
store r a s = record r { cells = set_elem r.cells a s }

-- The peers of one upstream get the cells from `next` on.
pub peer_cells : ℕ → List UpstreamPeer → Map ℕ → Map ℕ × ℕ
peer_cells next [] m = (m, next)
peer_cells next (peer ∷ peers) m = peer_cells (suc next) peers (insert m peer.url next)

pub upstream_cells : ℕ → List (Bytes × Upstream) → Map (Map ℕ) × ℕ
unfolding peer_cells
upstream_cells next [] = ([], next)
upstream_cells next ((name, u) ∷ rest) =
    let (m, after) = peer_cells next u.peers [] in
    let (ms, end) = upstream_cells after rest in ((name, m) ∷ ms, end)

abbrev pub defaults : ℕ → List PeerHealthState
defaults zero = []
defaults (suc n) = health_default ∷ defaults n

pub from_config_with_notifier : List (Bytes × Upstream) → Bool → PeerHealthRegistry
unfolding upstream_cells
from_config_with_notifier upstreams has_notifier =
    let (ms, end) = upstream_cells 0 upstreams in
    record {
      policies = map (λ (name, u). (name, from_upstream u)) upstreams;
      peers = ms;
      endpoint_peers = map (λ (name, u). (name, [])) upstreams;
      has_notifier = has_notifier;
      cells = defaults end;
      notified = [];
    }

abbrev pub lookup : Map (Map ℕ) → Bytes → Bytes → Option ℕ
lookup m upstream_name key = elim (get m upstream_name) [ none ↦ none | some inner ↦ get inner key ]

abbrev pub get_logical_peer : PeerHealthRegistry → Bytes → Bytes → Option ℕ
get_logical_peer r upstream_name peer_url = lookup r.peers upstream_name peer_url

abbrev pub get_endpoint : PeerHealthRegistry → Bytes → Bytes → Option ℕ
get_endpoint r upstream_name peer_url = lookup r.endpoint_peers upstream_name peer_url

abbrev pub get_health : PeerHealthRegistry → Bytes → Bytes → Option ℕ
get_health r upstream_name peer_url =
    or (get_endpoint r upstream_name peer_url) (get_logical_peer r upstream_name peer_url)

abbrev pub notify_change : PeerHealthRegistry → Bytes → PeerHealthRegistry
notify_change r upstream_name =
    if r.has_notifier then record r { notified = upstream_name ∷ r.notified } else r

unfoldable pub record_success : PeerHealthRegistry → Bytes → Bytes → PeerHealthRegistry × Bool
record_success r upstream_name peer_url = elim (get_health r upstream_name peer_url) [
  | none ↦ (r, false)
  | some a ↦
      let (s, recovered) = State.record_success (lock r a) in
      (notify_change (store r a s) upstream_name, recovered)
]

abbrev no_failure : PeerFailureStatus
no_failure = record { consecutive_failures = 0; entered_cooldown = false }

unfoldable pub record_failure :
    PeerHealthRegistry → Bytes → Bytes → ℕ → PeerHealthRegistry × PeerFailureStatus
record_failure r upstream_name peer_url now = elim (get r.policies upstream_name) [
  | none ↦ (r, no_failure)
  | some policy ↦ elim (get_health r upstream_name peer_url) [
    | none ↦ (r, no_failure)
    | some a ↦
        let (s, status) = State.record_failure (lock r a) policy now in
        (notify_change (store r a s) upstream_name, status)
  ]
]

unfoldable pub is_available : PeerHealthRegistry → Bytes → Bytes → ℕ → Bool
is_available r upstream_name peer_url now =
    is_none_or (get_health r upstream_name peer_url) (λ a. State.is_available (lock r a) now)

unfoldable pub record_active_success :
    PeerHealthRegistry → Bytes → Bytes → ℕ → PeerHealthRegistry × ActiveProbeStatus
record_active_success r upstream_name peer_url required =
    elim (get_health r upstream_name peer_url) [
      | none ↦ (r, record { healthy = true; recovered = false; consecutive_successes = 0 })
      | some a ↦
          let (s, status) = State.record_active_success (lock r a) required in
          (notify_change (store r a s) upstream_name, status)
    ]

unfoldable pub record_active_failure :
    PeerHealthRegistry → Bytes → Bytes → PeerHealthRegistry × Bool
record_active_failure r upstream_name peer_url = elim (get_health r upstream_name peer_url) [
  | none ↦ (r, false)
  | some a ↦
      let (s, changed) = State.record_active_failure (lock r a) in
      (notify_change (store r a s) upstream_name, changed)
]

pub record ActivePeerGuard : Type 0 where
  pub peer : Option ℕ
  pub upstream_name : Bytes

unfoldable pub track_active_request :
    PeerHealthRegistry → Bytes → Bytes → PeerHealthRegistry × ActivePeerGuard
track_active_request r upstream_name peer_url = elim (get_health r upstream_name peer_url) [
  | none ↦ (r, record { peer = none; upstream_name = upstream_name })
  | some a ↦
      let (s, transitioned_from_idle) = State.increment_active_requests (lock r a) in
      let r' = store r a s in
      (
        (if transitioned_from_idle then notify_change r' upstream_name else r'),
        record { peer = some a; upstream_name = upstream_name },
      )
]

-- `Drop for ActivePeerGuard`: the guard is left without its peer.
unfoldable pub drop_guard :
    PeerHealthRegistry → ActivePeerGuard → PeerHealthRegistry × ActivePeerGuard
drop_guard r g = elim g.peer [
  | none ↦ (r, g)
  | some a ↦
      let (s, transitioned_to_idle) = State.decrement_active_requests (lock r a) in
      let r' = store r a s in
      (
        (if transitioned_to_idle then notify_change r' g.upstream_name else r'),
        record g { peer = none },
      )
]

abbrev pub active_requests : PeerHealthRegistry → Bytes → Bytes → ℕ
active_requests r upstream_name peer_url = elim (get_health r upstream_name peer_url) [
  | none ↦ 0
  | some a ↦ (lock r a).active_requests
]

-- `or_insert_with`: the cell of the logical peer, or a new one at the end.
abbrev cell_for : PeerHealthRegistry → Option ℕ → PeerHealthRegistry × ℕ
cell_for r (some a) = (r, a)
cell_for r none = (record r { cells = r.cells ++ health_default ∷ [] }, length r.cells)

unfoldable pub ensure_endpoint : PeerHealthRegistry → Bytes → Bytes → Bytes → PeerHealthRegistry × ℕ
ensure_endpoint r upstream_name endpoint_key logical_peer_url =
    elim (get_endpoint r upstream_name endpoint_key) [
      | some a ↦ (r, a)
      | none ↦
          let (r', a) = cell_for r (get_logical_peer r upstream_name logical_peer_url) in
          let inner = unwrap_or (get r.endpoint_peers upstream_name) [] in
          (
            record r' {
              endpoint_peers = insert r.endpoint_peers upstream_name (insert inner endpoint_key a);
            },
            a,
          )
    ]
