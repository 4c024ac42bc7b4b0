-- ===== src/Transition.antt =====
-- crates/rginx-http/src/transition.rs: whether a new configuration can be loaded without a restart.
-- A changed field is a value instead of its text, and of the configuration there are the fields that
-- the plan reads.
pub mod Boundary
mod Tests
use rginx.Prelude.{
  ℕ, Bool, true, false, not, ◌&&◌, Option, none, some, List, [], ◌∷◌, ◌++◌, is_empty, if◌then◌else◌,
  ◌==◌, Bytes, bytes_eq, Map, get, insert, Result, ok, err,
}

-- The flow information and the scope of an IPv4 address are none.
pub record SocketAddr : Type 0 where
  pub octets : Bytes
  pub port : ℕ
  pub flowinfo_scope : Option (ℕ × ℕ)

pub record Listener : Type 0 where
  pub id : Bytes
  pub listen_addr : SocketAddr
  pub http3 : Option SocketAddr

pub record ConfigSnapshot : Type 0 where
  pub listeners : List Listener
  pub worker_threads : Option ℕ
  pub accept_workers : ℕ

pub data Change : Type 0 where
  listen : Bytes → SocketAddr → SocketAddr → Change
  http3_listen : Bytes → Option SocketAddr → Option SocketAddr → Change
  worker_threads_changed : Option ℕ → Option ℕ → Change
  accept_workers_changed : ℕ → ℕ → Change

pub data ConfigTransitionKind : Type 0 where
  hot_reload restart_required : ConfigTransitionKind

pub record ConfigTransitionPlan : Type 0 where
  pub kind : ConfigTransitionKind
  pub changed_restart_required_fields : List Change

abbrev pub option_eq {ℓ} : {A : Type ℓ} → (A → A → Bool) → Option A → Option A → Bool
option_eq eq none none = true
option_eq eq (some a) (some b) = eq a b
option_eq eq none (some b) = false
option_eq eq (some a) none = false

abbrev pub pair_eq : ℕ × ℕ → ℕ × ℕ → Bool
pair_eq (flow, scope) (other_flow, other_scope) = flow == other_flow && scope == other_scope

abbrev pub addr_eq : SocketAddr → SocketAddr → Bool
addr_eq a b =
    bytes_eq a.octets b.octets
    && a.port == b.port
    && option_eq pair_eq a.flowinfo_scope b.flowinfo_scope

-- `collect` into a map by id: the last of two listeners with one id stays.
pub index_by_id : List Listener → Map Listener → Map Listener
index_by_id [] m = m
index_by_id (l ∷ ls) m = index_by_id ls (insert m l.id l)

pub next_by_id : ConfigSnapshot → Map Listener
unfolding index_by_id
next_by_id next = index_by_id next.listeners []

pub listener_changes : Listener → Option Listener → List Change
listener_changes l none = []
listener_changes l (some n) =
    (if not (addr_eq l.listen_addr n.listen_addr)
      then listen l.id l.listen_addr n.listen_addr ∷ []
      else [])
    ++ (if not (option_eq addr_eq l.http3 n.http3)
        then http3_listen l.id l.http3 n.http3 ∷ []
        else [])

pub all_listener_changes : Map Listener → List Listener → List Change
unfolding listener_changes
all_listener_changes next [] = []
all_listener_changes next (l ∷ ls) =
    listener_changes l (get next l.id) ++ all_listener_changes next ls

pub runtime_changes : ConfigSnapshot → ConfigSnapshot → List Change
runtime_changes current next =
    (if not (option_eq (λ a b. a == b) current.worker_threads next.worker_threads)
      then worker_threads_changed current.worker_threads next.worker_threads ∷ []
      else [])
    ++ (if not (current.accept_workers == next.accept_workers)
        then accept_workers_changed current.accept_workers next.accept_workers ∷ []
        else [])

pub plan_config_transition : ConfigSnapshot → ConfigSnapshot → ConfigTransitionPlan
unfolding next_by_id all_listener_changes runtime_changes
plan_config_transition current next =
    let changes =
      all_listener_changes (next_by_id next) current.listeners ++ runtime_changes current next in
    record {
      kind =
          if is_empty changes
          then ConfigTransitionKind.hot_reload
          else ConfigTransitionKind.restart_required;
      changed_restart_required_fields = changes;
    }

abbrev pub requires_restart : ConfigTransitionPlan → Bool
requires_restart plan = elim plan.kind [
  | ConfigTransitionKind.hot_reload ↦ false
  | ConfigTransitionKind.restart_required ↦ true
]

-- The error carries the plan from which its message is made.
pub validate_config_transition :
    ConfigSnapshot → ConfigSnapshot → Result ConfigTransitionPlan (Unit {0})
unfolding plan_config_transition
validate_config_transition current next =
    let plan = plan_config_transition current next in
    if requires_restart plan then err plan else ok tt
