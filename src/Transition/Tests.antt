-- ===== src/Transition/Tests.antt =====
-- Plans for two configurations, and the example of the theorem.
use rginx.Prelude.{ℕ, ◌≡◌, ◌↔◌, refl, false, none, some, [], ◌∷◌, codes, ok}
use rginx.Transition.{
  SocketAddr, ConfigSnapshot, listen, plan_config_transition, validate_config_transition,
  requires_restart, next_by_id, index_by_id, all_listener_changes, listener_changes,
  runtime_changes,
}
use rginx.Transition.Boundary.{Reloadable, validate_config_transition_iff}

abbrev at : ℕ → SocketAddr
at port = record { octets = 127 ∷ 0 ∷ 0 ∷ 1 ∷ []; port = port; flowinfo_scope = none }

abbrev config : ℕ → ConfigSnapshot
config port = record {
  listeners = (record { id = codes "a"; listen_addr = at port; http3 = none }) ∷ [];
  worker_threads = some 2;
  accept_workers = 1;
}

port_changed :
    (plan_config_transition (config 80) (config 81)).changed_restart_required_fields
    ≡ listen (codes "a") (at 80) (at 81) ∷ []
unfolding plan_config_transition next_by_id index_by_id all_listener_changes listener_changes
    runtime_changes
port_changed = refl

-- A listener that is dropped does not ask for a restart.
listener_dropped :
    requires_restart (plan_config_transition (config 80) (record (config 80) { listeners = [] }))
    ≡ false
unfolding plan_config_transition next_by_id index_by_id all_listener_changes listener_changes
    runtime_changes
listener_dropped = refl

validate_config_transition_iff_example :
    (validate_config_transition (config 80) (config 81) ≡ ok tt)
    ↔ Reloadable (config 80) (config 81)
validate_config_transition_iff_example = validate_config_transition_iff (config 80) (config 81)
