-- ===== src/Health/State/Passive.antt =====
-- Passive health: failures in a row, and the cooldown.
use rginx.Prelude.{
  ℕ, ◌+◌, ◌<◌, ◌≡◌, ◌≢◌, refl, inl, inr, true, false, none, some, List, [], ◌∷◌, ◌++◌, arith,
  length, leb, Option-cases, Bool-cases,
}
use rginx.Health.State.{
  u32, PeerHealthPolicy, PassiveHealthState, PeerHealthState, health_default, is_available,
  record_success, record_failure, expire, fail, record_active_success, record_active_failure,
  increment_active_requests, decrement_active_requests,
}

-- Outside a cooldown the failures in a row are below the limit; a cooldown has a recovery pending.
pub record IsSound (policy : PeerHealthPolicy) (s : PeerHealthState) : Type 0 where
  pub below :
      s.passive.unhealthy_until ≡ none
      → s.passive.consecutive_failures < policy.unhealthy_after_failures
  pub pending : s.passive.unhealthy_until ≢ none → s.passive.pending_recovery ≡ true

-- One operation on the health of a peer.
pub data Event : Type 0 where
  success : Event
  failure : ℕ → Event
  active_success : ℕ → Event
  active_failure : Event
  starts : Event
  ends : Event

pub apply : PeerHealthPolicy → PeerHealthState → Event → PeerHealthState
apply policy s Event.success = (record_success s).0
apply policy s (Event.failure now) = (record_failure s policy now).0
apply policy s (Event.active_success required) = (record_active_success s required).0
apply policy s Event.active_failure = (record_active_failure s).0
apply policy s Event.starts = (increment_active_requests s).0
apply policy s Event.ends = (decrement_active_requests s).0

pub run : PeerHealthPolicy → PeerHealthState → List Event → PeerHealthState
unfolding apply
run policy s [] = s
run policy s (e ∷ es) = run policy (apply policy s e) es

module _ (policy : PeerHealthPolicy) (positive : 0 < policy.unhealthy_after_failures) where
  pub default-IsSound : IsSound policy health_default
  default-IsSound = record { below = λ _. positive; pending = λ h. absurd (h refl) }

  fail-below :
      (p : PassiveHealthState) (now : ℕ)
      → (fail policy p now).0.unhealthy_until ≡ none
      → (fail policy p now).0.consecutive_failures < policy.unhealthy_after_failures
  unfolding fail
  fail-below p now h = ground arith

  fail-pending :
      (p : PassiveHealthState) (now : ℕ)
      → (p.unhealthy_until ≢ none → p.pending_recovery ≡ true)
      → (fail policy p now).0.unhealthy_until ≢ none
      → (fail policy p now).0.pending_recovery ≡ true
  unfolding fail
  fail-pending p now v h = elim (Option-cases p.unhealthy_until) [
    | inl e ↦ ground arith
    | inr (t, e) ↦ ground arith
  ]

  expire-pending :
      (p : PassiveHealthState) (now : ℕ)
      → (p.unhealthy_until ≢ none → p.pending_recovery ≡ true)
      → (expire p now).unhealthy_until ≢ none
      → (expire p now).pending_recovery ≡ true
  unfolding expire
  expire-pending p now v h = ground arith

  apply-IsSound :
      (s : PeerHealthState) (e : Event) → IsSound policy s → IsSound policy (apply policy s e)
  unfolding apply record_success record_failure record_active_success record_active_failure
      increment_active_requests decrement_active_requests
  apply-IsSound s Event.success v = record { below = λ _. positive; pending = λ h. absurd (h refl) }
  apply-IsSound s (Event.failure now) v = record {
    below = λ h. fail-below (expire s.passive now) now h;
    pending =
        λ h. fail-pending (expire s.passive now) now (expire-pending s.passive now v.pending) h;
  }
  apply-IsSound s (Event.active_success required) v = elim (Bool-cases s.active.unhealthy) [
    | inl e ↦ rw e record { below = v.below; pending = v.pending }
    | inr e ↦ rw e record { below = v.below; pending = v.pending }
  ]
  apply-IsSound s Event.active_failure v = record { below = v.below; pending = v.pending }
  apply-IsSound s Event.starts v = record { below = v.below; pending = v.pending }
  apply-IsSound s Event.ends v = record { below = v.below; pending = v.pending }

  -- If the limit is positive, no sequence of events breaks the invariant: outside a cooldown a peer has fewer failures in a row
  -- than the limit, and a peer with a cooldown has a recovery pending.
  pub run-IsSound :
      (s : PeerHealthState) (es : List Event) → IsSound policy s → IsSound policy (run policy s es)
  unfolding run
  run-IsSound s [] v = v
  run-IsSound s (e ∷ es) v = run-IsSound (apply policy s e) es (apply-IsSound s e v)

module _ (policy : PeerHealthPolicy) (p : PassiveHealthState) (now : ℕ)
    (fresh : p.unhealthy_until ≡ none) (small : policy.unhealthy_after_failures < u32) where
  expire-fresh : expire p now ≡ p
  unfolding expire
  expire-fresh = rw fresh refl

  fail_below_limit :
      p.consecutive_failures + 1 < policy.unhealthy_after_failures
      → ((fail policy p now).0.unhealthy_until ≡ none)
        × ((fail policy p now).0.consecutive_failures ≡ p.consecutive_failures + 1)
  unfolding fail
  fail_below_limit low = rw fresh (ground arith)

  fail_at_limit :
      p.consecutive_failures + 1 ≡ policy.unhealthy_after_failures
      → ((fail policy p now).0.unhealthy_until ≡ some (now + policy.cooldown))
        × ((fail policy p now).1.entered_cooldown ≡ true)
  unfolding fail
  fail_at_limit low = rw fresh (ground arith)

-- Failures one after the other, at the given times.
pub failures : PeerHealthPolicy → PeerHealthState → List ℕ → PeerHealthState
failures policy s [] = s
failures policy s (t ∷ ts) = failures policy (record_failure s policy t).0 ts

module _ (policy : PeerHealthPolicy) (small : policy.unhealthy_after_failures < u32) where
  -- For a peer that is neither cooling down nor found unhealthy by probes, and a limit below 2 ^ 32:
  -- as long as the failures in a row are fewer than the limit the peer is available, and the one that
  -- reaches it makes the peer unavailable until the cooldown after it is over, and available then.
  pub failures-cooldown :
      (s : PeerHealthState) (ts : List ℕ) (last : ℕ)
      → s.passive.unhealthy_until ≡ none
      → s.active.unhealthy ≡ false
      → s.passive.consecutive_failures + length ts + 1 ≡ policy.unhealthy_after_failures
      → ((t : ℕ) → is_available (failures policy s ts) t ≡ true)
        × ((t : ℕ)
            → is_available (failures policy s (ts ++ last ∷ [])) t ≡ leb (last + policy.cooldown) t)
  unfolding failures is_available record_failure
  failures-cooldown s [] last fresh healthy e =
      let (f, _) = fail_at_limit policy s.passive last fresh small (omega arith) in
      (
        λ t. rw (fresh, healthy) refl,
        λ t. rw (expire-fresh policy s.passive last fresh small, f, healthy) (ground arith),
      )
  failures-cooldown s (t ∷ ts) last fresh healthy e =
      let (f, g) = fail_below_limit policy s.passive t fresh small (omega arith) in
      failures-cooldown (record_failure s policy t).0 ts last
        (rw (expire-fresh policy s.passive t fresh small) f) healthy
        (rw (expire-fresh policy s.passive t fresh small) (omega (arith, g)))
