-- ===== src/Scoring/Summary.antt =====
-- agent_trajectory/scoring.py: the summary of outcomes, with its validator.
use atlas_pulse.Prelude.{
  ℕ, zero, suc, ◌+◌, ◌-◌, Bool, ◌&&◌, ◌||◌, not, List, [], ◌∷◌, length, map, all, keep, ok, ◌>>◌,
  raise_if, ltb, leb, ◌==◌, nat_eq, bool_eq, if◌then◌else◌, sorted,
}
use atlas_pulse.AgentRuns.{is_empty}
use atlas_pulse.Drift.Types.{Floats, AgentTrajectoryMetricSummary}
use atlas_pulse.Drift.{is_bounded}
use atlas_pulse.Trajectory.Types.{AnswerStatus, answer_status_eq}
use atlas_pulse.Scoring.Types.{AgentTrajectoryCaseOutcome, ScoreEnv}
use atlas_pulse.Scoring.{
  Scored, field_constraint, empty_slice, answered_mismatch, single_case_mismatch, is_rate,
}

-- `sum` of integers
unfoldable pub sum : List ℕ → ℕ
sum [] = 0
sum (n ∷ ns) = n + sum ns

unfoldable pub count_of : {A : Type 0} → (A → Bool) → List A → ℕ
count_of test xs = length (keep test xs)

abbrev pub is_answered : {F : Type 0} → AgentTrajectoryCaseOutcome F → Bool
is_answered o = o.response_status == AnswerStatus.answered

-- The element at a position. There is one below the length.
unfoldable pub element : {F : Type 0} → F → List F → ℕ → F
element default [] n = default
element default (x ∷ xs) zero = x
element default (x ∷ xs) (suc n) = element default xs n

abbrev pub smaller : ℕ → ℕ → ℕ
smaller a b = if leb a b then a else b

module _ {F : Type 0} (env : ScoreEnv F) where
  abbrev pub f : Floats F
  f = env.trajectory.floats

  -- An integer as a float.
  unfoldable pub float_of : ℕ → F
  float_of n = f.ratio n 1

  -- `_percentile` of at least one value
  unfoldable pub percentile : List F → F → F
  percentile values fraction =
      let ordered = sorted f.le values in
      let position = env.mul (float_of (length ordered - 1)) fraction in
      let lower = env.truncate position in
      let upper = smaller (lower + 1) (length ordered - 1) in
      let weight = f.sub position (float_of lower) in
      f.add (env.mul (element f.zero ordered lower) (f.sub f.one weight))
        (env.mul (element f.zero ordered upper) weight)

  unfoldable pub mean : List F → F
  mean xs = f.div (env.trajectory.total xs) (float_of (length xs))

  -- AgentTrajectoryMetricSummary: the bounds of its fields, then `validate_counts`
  unfoldable pub is_at_least_one : F → Bool
  is_at_least_one x = f.is_finite x && f.le f.one x

  unfoldable pub is_step_count : F → Bool
  is_step_count x = is_at_least_one x && f.le x (float_of 64)

  unfoldable pub rates_of : AgentTrajectoryMetricSummary F → List F
  rates_of s =
      s.policy_compliance_rate ∷ s.termination_consistency_rate ∷ s.evidence_inspection_rate
      ∷ s.claim_trace_rate ∷ s.strict_trajectory_pass_rate ∷ s.grounded_strict_pass_rate
      ∷ s.strict_end_to_end_pass_rate ∷ []

  unfoldable pub validate_counts : AgentTrajectoryMetricSummary F → Scored (Unit {0})
  validate_counts s = do
    raise_if
        (ltb s.case_count 1
          || not (all (is_rate f) (rates_of s))
          || not (is_step_count s.mean_step_count)
          || not (is_step_count s.p95_step_count)
          || not (is_at_least_one s.mean_input_tokens)
          || not (is_at_least_one s.mean_output_tokens)
          || not (is_bounded f s.mean_latency_ms)
          || not (is_bounded f s.p95_latency_ms))
        field_constraint
    raise_if (not (s.answered_case_count + s.abstained_case_count == s.case_count))
        answered_mismatch
    raise_if (s.case_count == 1 && f.lt s.p95_step_count s.mean_step_count) single_case_mismatch

  -- The summary of outcomes, before its validation.
  unfoldable pub draft_summary :
      List (AgentTrajectoryCaseOutcome F) → AgentTrajectoryMetricSummary F
  draft_summary outcomes =
      let count = length outcomes in
      let answered = count_of is_answered outcomes in
      record {
        case_count = count;
        answered_case_count = answered;
        abstained_case_count = count - answered;
        policy_compliance_rate = f.ratio (count_of (λ o. o.policy_compliant) outcomes) count;
        termination_consistency_rate =
            f.ratio (count_of (λ o. o.termination_consistent) outcomes) count;
        evidence_inspection_rate = mean (map (λ o. o.evidence_inspection_rate) outcomes);
        claim_trace_rate = mean (map (λ o. o.claim_trace_rate) outcomes);
        strict_trajectory_pass_rate =
            f.ratio (count_of (λ o. o.strict_trajectory_pass) outcomes) count;
        grounded_strict_pass_rate = f.ratio (count_of (λ o. o.grounded_strict_pass) outcomes) count;
        strict_end_to_end_pass_rate =
            f.ratio (count_of (λ o. o.strict_end_to_end_pass) outcomes) count;
        mean_step_count = f.ratio (sum (map (λ o. o.step_count) outcomes)) count;
        p95_step_count = percentile (map (λ o. float_of o.step_count) outcomes) env.fraction95;
        mean_input_tokens = f.ratio (sum (map (λ o. o.input_tokens) outcomes)) count;
        mean_output_tokens = f.ratio (sum (map (λ o. o.output_tokens) outcomes)) count;
        mean_latency_ms = mean (map (λ o. o.latency_ms) outcomes);
        p95_latency_ms = percentile (map (λ o. o.latency_ms) outcomes) env.fraction95;
      }

  unfoldable pub summarize_outcomes :
      List (AgentTrajectoryCaseOutcome F) → Scored (AgentTrajectoryMetricSummary F)
  summarize_outcomes outcomes = do
    raise_if (is_empty outcomes) empty_slice
    validate_counts (draft_summary outcomes)
    ok (draft_summary outcomes)
