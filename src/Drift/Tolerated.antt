-- ===== src/Drift/Tolerated.antt =====
-- What a comparison tolerates, in terms of the arithmetic of floats alone.
use atlas_pulse.Prelude.{Bool, true, false, arith, ◌≡◌, ◌↔◌, ◌⊎◌, inl, inr, Bool-cases}
use atlas_pulse.Release.Types.{AgentTrajectoryDriftThresholds}
use atlas_pulse.Drift.Types.{Floats, AgentTrajectoryMetricSummary}
use atlas_pulse.Drift.{is_within, is_within?, max_of, relative_increase}

module _ {F : Type 0} (f : Floats F) where
  -- A change that is at most the limit and 1e-12, or that is no deterioration, where 0.0 is at most that.
  abbrev pub Within : F → F → Type 0
  Within change limit =
      ((f.lt f.zero change ≡ true) × (f.le change (f.add limit f.slack) ≡ true))
      ⊎ ((f.lt f.zero change ≡ false) × (f.le f.zero (f.add limit f.slack) ≡ true))

  -- A rate falls by the difference of its values.
  abbrev pub RateHolds : F → F → F → Type 0
  RateHolds before after limit = Within (f.sub before after) limit

  -- A percentile grows by its quotient less one; from a baseline that is not positive, it stays at zero.
  abbrev pub IncreaseHolds : F → F → F → Type 0
  IncreaseHolds before after limit =
      ((f.lt f.zero before ≡ true) × Within (f.sub (f.div after before) f.one) limit)
      ⊎ ((f.lt f.zero before ≡ false)
          × (f.same after f.zero ≡ true)
          × (f.le f.zero (f.add limit f.slack) ≡ true))

  module _ (policy : AgentTrajectoryDriftThresholds F)
      (before after : AgentTrajectoryMetricSummary F) where
    -- No metric deteriorates by more than its limit.
    pub record IsTolerated : Type 0 where
      pub trajectory :
          RateHolds before.strict_trajectory_pass_rate after.strict_trajectory_pass_rate
            policy.max_strict_trajectory_pass_rate_drop
      pub end_to_end :
          RateHolds before.strict_end_to_end_pass_rate after.strict_end_to_end_pass_rate
            policy.max_strict_end_to_end_pass_rate_drop
      pub compliance :
          RateHolds before.policy_compliance_rate after.policy_compliance_rate
            policy.max_policy_compliance_rate_drop
      pub inspection :
          RateHolds before.evidence_inspection_rate after.evidence_inspection_rate
            policy.max_evidence_inspection_rate_drop
      pub claims :
          RateHolds before.claim_trace_rate after.claim_trace_rate policy.max_claim_trace_rate_drop
      pub latency :
          IncreaseHolds before.p95_latency_ms after.p95_latency_ms
            policy.max_p95_latency_relative_increase
      pub steps :
          IncreaseHolds before.p95_step_count after.p95_step_count
            policy.max_p95_step_relative_increase

  -- The tests that the checks make.
  abbrev pub rate_holds : F → F → F → Bool
  rate_holds before after limit = is_within f (max_of f f.zero (f.sub before after)) limit

  abbrev pub increase_holds : F → F → F → Bool
  increase_holds before after limit = is_within? f (relative_increase f before after) limit

  is_within-Within :
      (change limit : F) → (is_within f (max_of f f.zero change) limit ≡ true) ↔ Within change limit
  unfolding is_within max_of
  is_within-Within change limit = elim (Bool-cases (f.lt f.zero change)) [
    | inl worse ↦ ((λ h. inl (worse, ground (arith, worse))), (λ h. ground (arith, worse, h)))
    | inr fine ↦ ((λ h. inr (fine, ground (arith, fine))), (λ h. ground (arith, fine, h)))
  ]

  pub rate_holds-RateHolds :
      (before after limit : F)
      → (rate_holds before after limit ≡ true) ↔ RateHolds before after limit
  rate_holds-RateHolds before after limit = is_within-Within (f.sub before after) limit

  -- A baseline that is not positive
  unchanged_zero :
      (before after limit : F)
      → f.lt f.zero before ≡ false
      → increase_holds before after limit ≡ true
      → (f.same after f.zero ≡ true) × (f.le f.zero (f.add limit f.slack) ≡ true)
  unfolding is_within is_within? relative_increase
  unchanged_zero before after limit not_positive h = (
    ground (arith, not_positive, Bool-cases (f.same after f.zero)),
    ground (arith, not_positive, Bool-cases (f.same after f.zero)),
  )

  zero_holds :
      (before after limit : F)
      → f.lt f.zero before ≡ false
      → f.same after f.zero ≡ true
      → f.le f.zero (f.add limit f.slack) ≡ true
      → increase_holds before after limit ≡ true
  unfolding is_within is_within? relative_increase
  zero_holds before after limit not_positive unchanged allowed =
      ground (arith, not_positive, unchanged, allowed)

  pub increase_holds-IncreaseHolds :
      (before after limit : F)
      → (increase_holds before after limit ≡ true) ↔ IncreaseHolds before after limit
  unfolding is_within? relative_increase
  increase_holds-IncreaseHolds before after limit =
      let (to, from) = is_within-Within (f.sub (f.div after before) f.one) limit in
      elim (Bool-cases (f.lt f.zero before)) [
        | inl positive ↦ (
          λ h. inl (positive, to (ground (arith, positive))),
          λ h. elim h [
            | inl (_, within) ↦ ground (arith, positive, from within)
            | inr (not_positive, _, _) ↦ absurd (ground (arith, positive, not_positive))
          ],
        )
        | inr not_positive ↦ (
          λ h.
              (let (unchanged, allowed) = unchanged_zero before after limit not_positive h in
                inr (not_positive, unchanged, allowed)),
          λ h. elim h [
            | inl (positive, _) ↦ absurd (ground (arith, positive, not_positive))
            | inr (_, unchanged, allowed) ↦
                zero_holds before after limit not_positive unchanged allowed
          ],
        )
      ]
