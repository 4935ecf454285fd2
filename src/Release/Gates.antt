-- ===== src/Release/Gates.antt =====
-- The 22 gates of `evaluate_agent_release` of agent_trajectory/release.py, in groups.
use atlas_pulse.Prelude.{
  Bool, false, ◌&&◌, Option, none, some, List, [], ◌∷◌, ◌++◌, length, map, all, keep, sum_by, leb,
  ◌==◌, text_eq, if◌then◌else◌, Text, codes,
}
use atlas_pulse.Prelude.Decimal.{print_nat}
use atlas_pulse.Release.Types.{
  DriftStatus, ReleaseGateId, PolicyPayload, AgentReleaseGate, drift_status_eq,
}
use atlas_pulse.Release.Reports.{
  GroundedAnswerEvaluationReport, RelationshipCandidateComparisonReport,
}
use atlas_pulse.Release.Measures.{
  min_count, distinct_count, min_from, max_from, minimum, maximum, consecutive_reports, pair_of,
  drift_chain_complete, drift_stable,
}
use atlas_pulse.Drift.Types.{
  Floats, AgentTrajectoryScoreReport, DriftPayload, AgentTrajectoryDriftReport,
}
use atlas_pulse.Drift.{same_system}

-- `_gate`
unfoldable pub new_gate : ReleaseGateId → Bool → Text → Text → Text → AgentReleaseGate
new_gate gate_id passed observed required reason = record {
  gate_id = gate_id;
  passed = passed;
  observed = observed;
  required = required;
  blocking_reason = if passed then none else some reason;
}

-- `f">={limit}..."` and `f"<={limit}..."`
unfoldable pub at_least : Text → Text → Text
at_least limit unit = codes ">=" ++ limit ++ unit

unfoldable pub at_most : Text → Text → Text
at_most limit unit = codes "<=" ++ limit ++ unit

unfoldable pub is_detected : {F : Type 0} → AgentTrajectoryDriftReport F → Bool
is_detected r = r.payload.status == DriftStatus.drift_detected

module _ {F : Type 0} (f : Floats F) where
  -- `_number`
  unfoldable pub number : Option F → Text
  number none = codes "unavailable"
  number (some x) = f.fixed6 x

  unfoldable pub reaches : Option F → F → Bool
  reaches none limit = false
  reaches (some x) limit = f.le limit x

  unfoldable pub stays_below : Option F → F → Bool
  stays_below none limit = false
  stays_below (some x) limit = f.le x limit

  -- The first capture and the others, and so for the grounded reports, in the order of the captures.
  module _ (digest : DriftPayload F → Text) (p : PolicyPayload F)
      (relationship : RelationshipCandidateComparisonReport F)
      (first : AgentTrajectoryScoreReport F) (rest : List (AgentTrajectoryScoreReport F))
      (first_grounded : GroundedAnswerEvaluationReport F)
      (rest_grounded : List (GroundedAnswerEvaluationReport F))
      (drift_reports : List (AgentTrajectoryDriftReport F)) where
    abbrev ordered : List (AgentTrajectoryScoreReport F)
    ordered = first ∷ rest

    abbrev grounded : List (GroundedAnswerEvaluationReport F)
    grounded = first_grounded ∷ rest_grounded

    unfoldable pub systems_stable : Bool
    systems_stable =
        all (λ r. same_system f r.system first.system) ordered
        && all (λ g. same_system f g.system first.system) grounded
        && all (λ r. r.benchmark_id == first.benchmark_id) ordered

    unfoldable pub lowest : (AgentTrajectoryScoreReport F → F) → F
    lowest value = min_from f (value first) (map value rest)

    unfoldable pub highest : (AgentTrajectoryScoreReport F → F) → F
    highest value = max_from f (value first) (map value rest)

    -- One candidate system and benchmark across the captures and their grounded reports.
    unfoldable pub identity_gate : List AgentReleaseGate
    identity_gate =
        let stable = systems_stable in
        new_gate ReleaseGateId.agent_candidate_identity (stable)
          (if stable then codes "stable" else codes "mixed candidate or benchmark identities")
          (codes "one exact candidate system and benchmark across every capture")
          (codes "agent_candidate_identity_mismatch")
        ∷ []

    -- The gates of the relationship benchmark.
    unfoldable pub relationship_gates : List AgentReleaseGate
    relationship_gates =
        let regression_rate = f.ratio relationship.regressions relationship.case_count in
        new_gate ReleaseGateId.relationship_sample_size
          (leb p.min_relationship_case_count relationship.case_count)
          (print_nat relationship.case_count)
          (at_least (print_nat p.min_relationship_case_count) (codes " cases"))
          (codes "relationship_sample_too_small")
        ∷ new_gate ReleaseGateId.relationship_macro_f1
            (reaches relationship.macro_f1 p.min_relationship_macro_f1)
            (number relationship.macro_f1) (at_least (f.fixed6 p.min_relationship_macro_f1) [])
            (codes "relationship_macro_f1_below_threshold")
        ∷ new_gate ReleaseGateId.relationship_accuracy_delta
            (f.le p.min_relationship_accuracy_delta relationship.accuracy_delta)
            (f.fixed6 relationship.accuracy_delta)
            (at_least (f.fixed6 p.min_relationship_accuracy_delta) [])
            (codes "relationship_accuracy_regressed")
        ∷ new_gate ReleaseGateId.relationship_regression_rate
            (f.le regression_rate p.max_relationship_regression_rate) (f.fixed6 regression_rate)
            (at_most (f.fixed6 p.max_relationship_regression_rate) [])
            (codes "relationship_case_regression_rate_too_high")
        ∷ []

    -- The gates of the sizes of the captures.
    unfoldable pub capture_gates : List AgentReleaseGate
    capture_gates =
        let total_cases = sum_by (λ r. r.case_count) ordered in
        let minimum_cases = min_count first.case_count (map (λ r. r.case_count) rest) in
        new_gate ReleaseGateId.trajectory_capture_count
          (leb p.min_trajectory_capture_count (length ordered)) (print_nat (length ordered))
          (at_least (print_nat p.min_trajectory_capture_count) (codes " captures"))
          (codes "trajectory_capture_count_too_small")
        ∷ new_gate ReleaseGateId.trajectory_total_cases
            (leb p.min_total_trajectory_case_count total_cases) (print_nat total_cases)
            (at_least (print_nat p.min_total_trajectory_case_count) (codes " cases"))
            (codes "trajectory_total_sample_too_small")
        ∷ new_gate ReleaseGateId.trajectory_capture_sample_size
            (leb p.min_case_count_per_capture minimum_cases) (print_nat minimum_cases)
            (at_least (print_nat p.min_case_count_per_capture) (codes " cases per capture"))
            (codes "trajectory_capture_sample_too_small")
        ∷ []

    -- The gates of the grounded answers.
    unfoldable pub grounded_gates : List AgentReleaseGate
    grounded_gates =
        let adjudicated = all (λ g. g.is_adjudicated) grounded in
        let answered_rate =
          f.ratio (sum_by (λ g. g.answered_case_count) grounded)
            (sum_by (λ g. g.case_count) grounded) in
        let grounded_pass =
          min_from f first_grounded.strict_case_pass_rate
            (map (λ g. g.strict_case_pass_rate) rest_grounded) in
        let unsupported =
          maximum f (map (λ g. g.unsupported_or_contradicted_claim_rate) grounded) in
        let citations = minimum f (map (λ g. g.complete_citation_rate) grounded) in
        new_gate ReleaseGateId.grounded_review_adjudication (adjudicated)
          (if adjudicated then codes "complete" else codes "missing adjudication")
          (codes "independent review plus disagreement-only adjudication for every capture")
          (codes "grounded_review_not_adjudicated")
        ∷ new_gate ReleaseGateId.grounded_answer_coverage
            (f.le p.min_answered_case_rate answered_rate) (f.fixed6 answered_rate)
            (at_least (f.fixed6 p.min_answered_case_rate) [])
            (codes "grounded_answer_coverage_too_low")
        ∷ new_gate ReleaseGateId.grounded_strict_pass
            (f.le p.min_grounded_strict_pass_rate grounded_pass) (f.fixed6 grounded_pass)
            (at_least (f.fixed6 p.min_grounded_strict_pass_rate) (codes " in every capture"))
            (codes "grounded_strict_pass_below_threshold")
        ∷ new_gate ReleaseGateId.grounded_unsupported_claims
            (stays_below unsupported p.max_grounded_unsupported_claim_rate) (number unsupported)
            (at_most (f.fixed6 p.max_grounded_unsupported_claim_rate) (codes " in every capture"))
            (codes "grounded_unsupported_claim_rate_too_high")
        ∷ new_gate ReleaseGateId.grounded_complete_citations
            (reaches citations p.min_grounded_complete_citation_rate) (number citations)
            (at_least (f.fixed6 p.min_grounded_complete_citation_rate) (codes " in every capture"))
            (codes "grounded_complete_citation_rate_too_low")
        ∷ []

    -- The gates of the trajectories.
    unfoldable pub quality_gates : List AgentReleaseGate
    quality_gates =
        new_gate ReleaseGateId.trajectory_policy_compliance
          (f.le p.min_trajectory_policy_compliance_rate
            (lowest (λ r. r.overall.policy_compliance_rate)))
          (f.fixed6 (lowest (λ r. r.overall.policy_compliance_rate)))
          (at_least (f.fixed6 p.min_trajectory_policy_compliance_rate) (codes " in every capture"))
          (codes "trajectory_policy_compliance_below_threshold")
        ∷ new_gate ReleaseGateId.trajectory_evidence_inspection
            (f.le p.min_trajectory_evidence_inspection_rate
              (lowest (λ r. r.overall.evidence_inspection_rate)))
            (f.fixed6 (lowest (λ r. r.overall.evidence_inspection_rate)))
            (at_least (f.fixed6 p.min_trajectory_evidence_inspection_rate)
              (codes " in every capture"))
            (codes "trajectory_evidence_inspection_below_threshold")
        ∷ new_gate ReleaseGateId.trajectory_claim_trace
            (f.le p.min_trajectory_claim_trace_rate (lowest (λ r. r.overall.claim_trace_rate)))
            (f.fixed6 (lowest (λ r. r.overall.claim_trace_rate)))
            (at_least (f.fixed6 p.min_trajectory_claim_trace_rate) (codes " in every capture"))
            (codes "trajectory_claim_trace_below_threshold")
        ∷ new_gate ReleaseGateId.trajectory_strict_pass
            (f.le p.min_trajectory_strict_pass_rate
              (lowest (λ r. r.overall.strict_trajectory_pass_rate)))
            (f.fixed6 (lowest (λ r. r.overall.strict_trajectory_pass_rate)))
            (at_least (f.fixed6 p.min_trajectory_strict_pass_rate) (codes " in every capture"))
            (codes "trajectory_strict_pass_below_threshold")
        ∷ new_gate ReleaseGateId.trajectory_end_to_end_pass
            (f.le p.min_trajectory_end_to_end_pass_rate
              (lowest (λ r. r.overall.strict_end_to_end_pass_rate)))
            (f.fixed6 (lowest (λ r. r.overall.strict_end_to_end_pass_rate)))
            (at_least (f.fixed6 p.min_trajectory_end_to_end_pass_rate) (codes " in every capture"))
            (codes "trajectory_end_to_end_pass_below_threshold")
        ∷ new_gate ReleaseGateId.trajectory_step_budget
            (f.le (highest (λ r. r.overall.p95_step_count)) p.max_trajectory_p95_step_count)
            (f.fixed3 (highest (λ r. r.overall.p95_step_count)))
            (at_most (f.fixed3 p.max_trajectory_p95_step_count) (codes " p95 steps"))
            (codes "trajectory_step_budget_exceeded")
        ∷ new_gate ReleaseGateId.trajectory_latency_budget
            (f.le (highest (λ r. r.overall.p95_latency_ms)) p.max_trajectory_p95_latency_ms)
            (f.fixed3 (highest (λ r. r.overall.p95_latency_ms)) ++ codes " ms")
            (at_most (f.fixed3 p.max_trajectory_p95_latency_ms) (codes " ms p95"))
            (codes "trajectory_latency_budget_exceeded")
        ∷ []

    -- The gates of the drift between the captures.
    unfoldable pub drift_gates : List AgentReleaseGate
    drift_gates =
        let chain = drift_chain_complete f digest p.drift_thresholds drift_reports ordered in
        let steady = drift_stable f digest p.drift_thresholds drift_reports ordered in
        new_gate ReleaseGateId.trajectory_drift_chain (chain)
          (print_nat (distinct_count (map pair_of drift_reports))
            ++ codes " of "
            ++ print_nat (length (consecutive_reports ordered))
            ++ codes " consecutive comparisons")
          (codes "one exact policy-matched drift report per consecutive capture pair")
          (codes "trajectory_drift_chain_incomplete")
        ∷ new_gate ReleaseGateId.trajectory_drift_stability (steady)
            (if steady
              then codes "stable"
              else print_nat (length (keep is_detected drift_reports)) ++ codes " alert(s)")
            (codes "zero drift alerts across the complete consecutive chain")
            (codes "trajectory_drift_detected")
        ∷ []

    unfoldable pub gates_of : List AgentReleaseGate
    gates_of =
        identity_gate
        ++ (relationship_gates
            ++ (capture_gates ++ (grounded_gates ++ (quality_gates ++ drift_gates))))
