-- ===== src/Health/State/Active.antt =====
-- Active health: the probes that succeed in a row after one that failed.
use rginx.Prelude.{
  ℕ, zero, suc, inl, inr, ◌+◌, ◌<◌, ◌≡◌, ap, ◌∙◌, refl, true, false, arith, ltb, Bool-cases,
}
use rginx.Health.State.{u32, PeerHealthState, record_active_success, record_active_failure}

-- `n` probes that succeed, one after the other.
pub successes : ℕ → ℕ → PeerHealthState → PeerHealthState
successes required zero s = s
successes required (suc n) s = successes required n (record_active_success s required).0

module _ (required : ℕ) (small : required < u32) where
  success-counts :
      (s : PeerHealthState)
      → s.active.unhealthy ≡ true
      → s.active.consecutive_successes + 1 < required
      → ((record_active_success s required).0.active.unhealthy ≡ true)
        × ((record_active_success s required).0.active.consecutive_successes
            ≡ s.active.consecutive_successes + 1)
  unfolding record_active_success
  success-counts s u low = rw u (ground arith)

  success-recovers :
      (s : PeerHealthState)
      → s.active.unhealthy ≡ true
      → s.active.consecutive_successes + 1 ≡ required
      → ((record_active_success s required).0.active.unhealthy ≡ false)
        × ((record_active_success s required).1.recovered ≡ true)
  unfolding record_active_success
  success-recovers s u low = rw u (ground arith)

  success-healthy :
      (s : PeerHealthState)
      → s.active.unhealthy ≡ false
      → (record_active_success s required).0.active.unhealthy ≡ false
  unfolding record_active_success
  success-healthy s h = rw h refl

  successes-healthy :
      (n : ℕ) (s : PeerHealthState)
      → s.active.unhealthy ≡ false
      → (successes required n s).active.unhealthy ≡ false
  unfolding successes
  successes-healthy zero s h = h
  successes-healthy (suc n) s h =
      successes-healthy n (record_active_success s required).0 (success-healthy s h)

  successes-unhealthy :
      (n : ℕ) (s : PeerHealthState)
      → s.active.unhealthy ≡ true
      → s.active.consecutive_successes < required
      → (successes required n s).active.unhealthy
        ≡ ltb (s.active.consecutive_successes + n) required
  unfolding successes
  successes-unhealthy zero s u low = rw u (ground arith)
  successes-unhealthy (suc n) s u low =
      elim (Bool-cases (ltb (s.active.consecutive_successes + 1) required)) [
        | inl e ↦
            let (h, k) = success-counts s u (ground arith) in
            rw (successes-unhealthy n (record_active_success s required).0 h (ground arith), k)
              (ground arith)
        | inr e ↦
            let (h, k) = success-recovers s u (ground arith) in
            rw (successes-healthy n (record_active_success s required).0 h) (ground arith)
      ]

  -- After a failed probe a peer is unhealthy until `required` probes in a row have succeeded, and
  -- healthy from then on, for a positive `required` below 2 ^ 32.
  pub record_active_failure-recovers :
      (n : ℕ) (s : PeerHealthState)
      → 0 < required
      → (successes required n (record_active_failure s).0).active.unhealthy ≡ ltb n required
  unfolding record_active_failure
  record_active_failure-recovers n s positive =
      successes-unhealthy n (record_active_failure s).0 refl positive
      ∙ ap (λ k. ltb k required) (omega arith)
