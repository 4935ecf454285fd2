-- ===== src/Release/Reports.antt =====
-- The reports that a release assessment is made of: of each the fields that `evaluate_agent_release`
-- of agent_trajectory/release.py reads, and the equality of drift reports.
use atlas_pulse.Prelude.{
  ℕ, Bool, true, false, ◌&&◌, Option, none, some, List, [], ◌∷◌, ◌==◌, text_eq, Text,
}
use atlas_pulse.Prelude.{bool_eq, nat_eq}
use atlas_pulse.Release.Types.{
  CandidateSystemDefinition, AgentTrajectoryDriftThresholds, drift_status_eq,
}
use atlas_pulse.Drift.Types.{
  Floats, AgentTrajectoryDriftCheck, AgentTrajectoryDriftReport, metrics_eq,
}
use atlas_pulse.Drift.{same_system, metric_rank}

-- GroundedAnswerEvaluationReport of grounded_answer_evaluation/metrics.py, with its overall summary;
-- `is_adjudicated` says that its `adjudication` is not None.
pub record GroundedAnswerEvaluationReport (F : Type 0) : Type 0 where
  pub report_id : Text
  pub report_sha256 : Text
  pub task_id : Text
  pub task_sha256 : Text
  pub batch_id : Text
  pub batch_sha256 : Text
  pub is_adjudicated : Bool
  pub system : CandidateSystemDefinition F
  pub case_count : ℕ
  pub answered_case_count : ℕ
  pub strict_case_pass_rate : F
  pub unsupported_or_contradicted_claim_rate : Option F
  pub complete_citation_rate : Option F

-- RelationshipCandidateComparisonReport of relationship_evaluation/candidates.py, with its canonical
-- SHA-256.
pub record RelationshipCandidateComparisonReport (F : Type 0) : Type 0 where
  pub report_id : Text
  pub canonical_sha256 : Text
  pub candidate_system : CandidateSystemDefinition F
  pub case_count : ℕ
  pub macro_f1 : Option F
  pub accuracy_delta : F
  pub regressions : ℕ

module _ {F : Type 0} (f : Floats F) where
  unfoldable pub same_thresholds :
      AgentTrajectoryDriftThresholds F → AgentTrajectoryDriftThresholds F → Bool
  same_thresholds a b =
      f.same a.max_strict_trajectory_pass_rate_drop b.max_strict_trajectory_pass_rate_drop
      && f.same a.max_strict_end_to_end_pass_rate_drop b.max_strict_end_to_end_pass_rate_drop
      && f.same a.max_policy_compliance_rate_drop b.max_policy_compliance_rate_drop
      && f.same a.max_evidence_inspection_rate_drop b.max_evidence_inspection_rate_drop
      && f.same a.max_claim_trace_rate_drop b.max_claim_trace_rate_drop
      && f.same a.max_p95_latency_relative_increase b.max_p95_latency_relative_increase
      && f.same a.max_p95_step_relative_increase b.max_p95_step_relative_increase

  unfoldable pub same_number? : Option F → Option F → Bool
  same_number? none none = true
  same_number? none (some y) = false
  same_number? (some x) none = false
  same_number? (some x) (some y) = f.same x y

  unfoldable pub same_check : AgentTrajectoryDriftCheck F → AgentTrajectoryDriftCheck F → Bool
  same_check a b =
      metric_rank a.metric == metric_rank b.metric
      && f.same a.baseline b.baseline
      && f.same a.current b.current
      && same_number? a.deterioration b.deterioration
      && f.same a.maximum_deterioration b.maximum_deterioration
      && a.passed == b.passed
      && a.comparison == b.comparison

  unfoldable pub same_checks :
      List (AgentTrajectoryDriftCheck F) → List (AgentTrajectoryDriftCheck F) → Bool
  same_checks [] [] = true
  same_checks [] (b ∷ bs) = false
  same_checks (a ∷ more) [] = false
  same_checks (a ∷ more) (b ∷ bs) = same_check a b && same_checks more bs

  -- `==` of two drift reports, whose times are aware ones
  unfoldable pub same_drift_report :
      AgentTrajectoryDriftReport F → AgentTrajectoryDriftReport F → Bool
  same_drift_report a b =
      a.drift_report_id == b.drift_report_id
      && a.drift_report_sha256 == b.drift_report_sha256
      && a.payload.generated_at.instant == b.payload.generated_at.instant
      && a.payload.benchmark_id == b.payload.benchmark_id
      && same_system f a.payload.system b.payload.system
      && a.payload.baseline_report_id == b.payload.baseline_report_id
      && a.payload.baseline_report_sha256 == b.payload.baseline_report_sha256
      && a.payload.baseline_captured_at.instant == b.payload.baseline_captured_at.instant
      && a.payload.current_report_id == b.payload.current_report_id
      && a.payload.current_report_sha256 == b.payload.current_report_sha256
      && a.payload.current_captured_at.instant == b.payload.current_captured_at.instant
      && same_thresholds a.payload.thresholds b.payload.thresholds
      && a.payload.status == b.payload.status
      && a.payload.failed_metrics == b.payload.failed_metrics
      && same_checks a.payload.checks b.payload.checks
