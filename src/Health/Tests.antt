-- ===== src/Health/Tests.antt =====
-- Runs of the health of a peer, and the examples of its theorems.
use rginx.Prelude.{ℕ, ◌≡◌, refl, true, List, [], ◌∷◌, leb, arith}
use rginx.Health.State.{
  PeerHealthPolicy, health_default, record_failure, record_success, is_available,
  record_active_failure,
}
use rginx.Health.State.Passive.{
  IsSound, Event, run, run-IsSound, failures, failures-cooldown, default-IsSound,
}
use rginx.Health.State.Active.{successes, record_active_failure-recovers}

abbrev policy : PeerHealthPolicy
policy = record { unhealthy_after_failures = 2; cooldown = 100; active_health_enabled = true }

abbrev events : List Event
events =
    Event.failure 5
    ∷ Event.active_failure
    ∷ Event.failure 6
    ∷ Event.active_success 1
    ∷ Event.success
    ∷ []

second_failure :
    (record_failure (record_failure health_default policy 5).0 policy 6).1.entered_cooldown ≡ true
unfolding record_failure
second_failure = refl

success_recovers :
    (record_success (record_failure (record_failure health_default policy 5).0 policy 6).0).1 ≡ true
unfolding record_failure record_success
success_recovers = refl

run-IsSound_example : IsSound policy (run policy health_default events)
run-IsSound_example =
    run-IsSound policy (omega arith) health_default events (default-IsSound policy (omega arith))

failures-cooldown_example :
    ((t : ℕ) → is_available (failures policy health_default (5 ∷ [])) t ≡ true)
    × ((t : ℕ) → is_available (failures policy health_default (5 ∷ 6 ∷ [])) t ≡ leb 106 t)
failures-cooldown_example =
    failures-cooldown policy (omega arith) health_default (5 ∷ []) 6 refl refl refl

record_active_failure-recovers_example :
    (successes 2 1 (record_active_failure health_default).0).active.unhealthy ≡ true
record_active_failure-recovers_example =
    record_active_failure-recovers 2 (omega arith) 1 health_default (omega arith)
