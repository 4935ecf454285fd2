-- ===== src/Drift/Types.antt =====
-- The data of agent_trajectory/drift.py, and the score reports of agent_trajectory/scoring.py that it
-- compares. `F` is the type of floats. Fields whose type is one literal are left out, and so are the
-- outcomes of a score report, which no comparison reads; of its slices only the names are kept.
use atlas_pulse.Prelude.{ℕ, Bool, Option, List, Text, Eq}
use atlas_pulse.Polling.Types.{Datetime}
use atlas_pulse.Release.Types.{
  DriftStatus, ParameterValue, CandidateSystemDefinition, AgentTrajectoryDriftThresholds,
}

pub data DriftMetric : Type 0 where
  strict_trajectory_pass_rate strict_end_to_end_pass_rate policy_compliance_rate : DriftMetric
  evidence_inspection_rate claim_trace_rate : DriftMetric
  p95_latency_relative_increase p95_step_relative_increase : DriftMetric

unfoldable pub Metrics-discrete : Discrete (List DriftMetric)
Metrics-discrete = hlevel

instance abbrev pub metrics_eq : Eq (List DriftMetric)
metrics_eq = record { discrete = Metrics-discrete }

-- The arithmetic of Python's floats. `slack` is 1e-12, `same` is `==`, `ratio` is the quotient of two
-- integers, `fixed6` and `fixed3` are the formats `.6f` and `.3f`, and `same_parameters` is the
-- equality of two dictionaries of parameters.
pub record Floats (F : Type 0) : Type 0 where
  pub zero : F
  pub one : F
  pub slack : F
  pub add : F → F → F
  pub sub : F → F → F
  pub div : F → F → F
  pub lt : F → F → Bool
  pub le : F → F → Bool
  pub same : F → F → Bool
  pub is_finite : F → Bool
  pub ratio : ℕ → ℕ → F
  pub fixed6 : F → Text
  pub fixed3 : F → Text
  pub same_parameters : List (Text × ParameterValue F) → List (Text × ParameterValue F) → Bool

pub record AgentTrajectoryMetricSummary (F : Type 0) : Type 0 where
  pub case_count : ℕ
  pub answered_case_count : ℕ
  pub abstained_case_count : ℕ
  pub policy_compliance_rate : F
  pub termination_consistency_rate : F
  pub evidence_inspection_rate : F
  pub claim_trace_rate : F
  pub strict_trajectory_pass_rate : F
  pub grounded_strict_pass_rate : F
  pub strict_end_to_end_pass_rate : F
  pub mean_step_count : F
  pub p95_step_count : F
  pub mean_input_tokens : F
  pub mean_output_tokens : F
  pub mean_latency_ms : F
  pub p95_latency_ms : F

pub record AgentTrajectoryScoreReport (F : Type 0) : Type 0 where
  pub report_id : Text
  pub report_sha256 : Text
  pub generated_at : Datetime
  pub benchmark_id : Text
  pub captured_at : Datetime
  pub task_id : Text
  pub task_sha256 : Text
  pub candidate_batch_id : Text
  pub candidate_batch_sha256 : Text
  pub grounded_report_id : Text
  pub grounded_report_sha256 : Text
  pub trajectory_batch_id : Text
  pub trajectory_batch_sha256 : Text
  pub system : CandidateSystemDefinition F
  pub case_count : ℕ
  pub overall : AgentTrajectoryMetricSummary F
  pub slices : List Text

pub record AgentTrajectoryDriftCheck (F : Type 0) : Type 0 where
  pub metric : DriftMetric
  pub baseline : F
  pub current : F
  pub deterioration : Option F
  pub maximum_deterioration : F
  pub passed : Bool
  pub comparison : Text

pub record DriftPayload (F : Type 0) : Type 0 where
  pub generated_at : Datetime
  pub benchmark_id : Text
  pub system : CandidateSystemDefinition F
  pub baseline_report_id : Text
  pub baseline_report_sha256 : Text
  pub baseline_captured_at : Datetime
  pub current_report_id : Text
  pub current_report_sha256 : Text
  pub current_captured_at : Datetime
  pub thresholds : AgentTrajectoryDriftThresholds F
  pub status : DriftStatus
  pub failed_metrics : List DriftMetric
  pub checks : List (AgentTrajectoryDriftCheck F)

pub record AgentTrajectoryDriftReport (F : Type 0) : Type 0 where
  pub drift_report_id : Text
  pub drift_report_sha256 : Text
  pub payload : DriftPayload F
