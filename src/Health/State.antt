-- ===== src/Health/State.antt =====
-- registry/{mod,policy,state}.rs: the health of one peer. `Instant::now()` is an argument; `u32` and
-- `u64` counters wrap.
pub mod Passive
pub mod Active
use rginx.Prelude.{
  ℕ, ◌+◌, ◌-◌, ◌%◌, ◌^◌, Bool, true, false, not, ◌&&◌, Option, none, some, ltb, leb, ◌==◌,
  is_none_or, is_some_and, is_some, if◌then◌else◌,
}
use rginx.Upstream.{Upstream}

abbrev pub u32 : ℕ
u32 = 2 ^ 32

abbrev pub u64 : ℕ
u64 = 2 ^ 64

pub record PeerHealthPolicy : Type 0 where
  pub unhealthy_after_failures : ℕ
  pub cooldown : ℕ
  pub active_health_enabled : Bool

abbrev pub from_upstream : Upstream → PeerHealthPolicy
from_upstream u = record {
  unhealthy_after_failures = u.unhealthy_after_failures;
  cooldown = u.unhealthy_cooldown;
  active_health_enabled = is_some u.active_health_check;
}

pub record PeerFailureStatus : Type 0 where
  pub consecutive_failures : ℕ
  pub entered_cooldown : Bool

pub record PassiveHealthState : Type 0 where
  pub consecutive_failures : ℕ
  pub unhealthy_until : Option ℕ
  pub pending_recovery : Bool

pub record ActiveHealthState : Type 0 where
  pub unhealthy : Bool
  pub consecutive_successes : ℕ

pub record PeerHealthState : Type 0 where
  pub passive : PassiveHealthState
  pub active : ActiveHealthState
  pub active_requests : ℕ

pub record ActiveProbeStatus : Type 0 where
  pub healthy : Bool
  pub recovered : Bool
  pub consecutive_successes : ℕ

abbrev pub passive_default : PassiveHealthState
passive_default = record {
  consecutive_failures = 0;
  unhealthy_until = none;
  pending_recovery = false;
}

abbrev pub active_default : ActiveHealthState
active_default = record { unhealthy = false; consecutive_successes = 0 }

abbrev pub health_default : PeerHealthState
health_default = record { passive = passive_default; active = active_default; active_requests = 0 }

unfoldable pub is_available : PeerHealthState → ℕ → Bool
is_available s now =
    is_none_or s.passive.unhealthy_until (λ until. leb until now) && not s.active.unhealthy

unfoldable pub record_success : PeerHealthState → PeerHealthState × Bool
record_success s = (record s { passive = passive_default }, s.passive.pending_recovery)

-- A cooldown that is over is forgotten, with the failures that led to it.
pub expire : PassiveHealthState → ℕ → PassiveHealthState
expire p now =
    if is_some_and p.unhealthy_until (λ until. leb until now)
    then record p { unhealthy_until = none; consecutive_failures = 0 }
    else p

-- The rest of `record_failure`, on the passive state.
pub fail : PeerHealthPolicy → PassiveHealthState → ℕ → PassiveHealthState × PeerFailureStatus
fail policy p now =
    let already_in_cooldown = is_some_and p.unhealthy_until (λ until. ltb now until) in
    let failures = (p.consecutive_failures + 1) % u32 in
    let entered_cooldown =
      not already_in_cooldown && leb policy.unhealthy_after_failures failures in
    (
      (if entered_cooldown
          then record {
            consecutive_failures = failures;
            unhealthy_until = some (now + policy.cooldown);
            pending_recovery = true;
          }
          else if already_in_cooldown
          then record p {
            consecutive_failures = failures;
            unhealthy_until = some (now + policy.cooldown);
          }
          else record p { consecutive_failures = failures }),
      record { consecutive_failures = failures; entered_cooldown = entered_cooldown },
    )

unfoldable pub record_failure :
    PeerHealthState → PeerHealthPolicy → ℕ → PeerHealthState × PeerFailureStatus
unfolding expire fail
record_failure s policy now =
    let (p, status) = fail policy (expire s.passive now) now in (record s { passive = p }, status)

unfoldable pub record_active_success : PeerHealthState → ℕ → PeerHealthState × ActiveProbeStatus
record_active_success s healthy_successes_required =
    if not s.active.unhealthy
    then (s, record { healthy = true; recovered = false; consecutive_successes = 0 })
    else let successes = (s.active.consecutive_successes + 1) % u32 in
      let recovered = leb healthy_successes_required successes in
      (
        record s {
          active =
              if recovered
              then active_default
              else record { unhealthy = true; consecutive_successes = successes };
        },
        record { healthy = recovered; recovered = recovered; consecutive_successes = successes },
      )

unfoldable pub record_active_failure : PeerHealthState → PeerHealthState × Bool
record_active_failure s = (
  record s { active = record { unhealthy = true; consecutive_successes = 0 } },
  not s.active.unhealthy,
)

unfoldable pub increment_active_requests : PeerHealthState → PeerHealthState × Bool
increment_active_requests s =
    (record s { active_requests = (s.active_requests + 1) % u64 }, s.active_requests == 0)

unfoldable pub decrement_active_requests : PeerHealthState → PeerHealthState × Bool
decrement_active_requests s =
    let left = s.active_requests - 1 in
    (record s { active_requests = left }, ltb 0 s.active_requests && left == 0)
