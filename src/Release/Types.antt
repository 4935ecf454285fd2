-- ===== src/Release/Types.antt =====
-- The data of agent_trajectory/release.py, and the candidate system of
-- relationship_evaluation/candidates.py. `F` is the type of floats. The fields of an artifact that its
-- digest covers are its payload, and fields whose type is one literal are left out.
use atlas_pulse.Prelude.{ℕ, Bool, Option, List, Text, Eq, ℕ_discrete}
use atlas_pulse.Polling.Types.{Datetime}

pub data ReleaseStatus : Type 0 where
  blocked eligible_for_human_review : ReleaseStatus

pub data DriftStatus : Type 0 where
  stable drift_detected : DriftStatus

pub data ReleaseGateId : Type 0 where
  agent_candidate_identity relationship_sample_size relationship_macro_f1 : ReleaseGateId
  relationship_accuracy_delta relationship_regression_rate : ReleaseGateId
  trajectory_capture_count trajectory_total_cases trajectory_capture_sample_size : ReleaseGateId
  grounded_review_adjudication grounded_answer_coverage grounded_strict_pass : ReleaseGateId
  grounded_unsupported_claims grounded_complete_citations : ReleaseGateId
  trajectory_policy_compliance trajectory_evidence_inspection : ReleaseGateId
  trajectory_claim_trace trajectory_strict_pass trajectory_end_to_end_pass : ReleaseGateId
  trajectory_step_budget trajectory_latency_budget : ReleaseGateId
  trajectory_drift_chain trajectory_drift_stability : ReleaseGateId

unfoldable pub GateId-discrete : Discrete ReleaseGateId
GateId-discrete = hlevel

unfoldable pub GateIds-discrete : Discrete (List ReleaseGateId)
GateIds-discrete = hlevel

unfoldable pub ReleaseStatus-discrete : Discrete ReleaseStatus
ReleaseStatus-discrete = hlevel

unfoldable pub DriftStatus-discrete : Discrete DriftStatus
DriftStatus-discrete = hlevel

unfoldable pub Texts-discrete : Discrete (List Text)
Texts-discrete = hlevel ℕ_discrete

unfoldable pub Pairs-discrete : Discrete (List (Text × Text))
Pairs-discrete = hlevel ℕ_discrete

unfoldable pub Pair-discrete : Discrete (Text × Text)
Pair-discrete = hlevel ℕ_discrete

instance abbrev pub gate_id_eq : Eq ReleaseGateId
gate_id_eq = record { discrete = GateId-discrete }

instance abbrev pub gate_ids_eq : Eq (List ReleaseGateId)
gate_ids_eq = record { discrete = GateIds-discrete }

instance abbrev pub status_eq : Eq ReleaseStatus
status_eq = record { discrete = ReleaseStatus-discrete }

instance abbrev pub drift_status_eq : Eq DriftStatus
drift_status_eq = record { discrete = DriftStatus-discrete }

instance abbrev pub texts_eq : Eq (List Text)
texts_eq = record { discrete = Texts-discrete }

instance abbrev pub pairs_eq : Eq (List (Text × Text))
pairs_eq = record { discrete = Pairs-discrete }

instance abbrev pub pair_eq : Eq (Text × Text)
pair_eq = record { discrete = Pair-discrete }

-- A parameter of a candidate system: `str | int | float | bool`. Integers are their decimal texts.
pub data ParameterValue (F : Type 0) : Type 0 where
  text_value int_value : Text → ParameterValue F
  float_value : F → ParameterValue F
  bool_value : Bool → ParameterValue F

pub record CandidateSystemDefinition (F : Type 0) : Type 0 where
  pub candidate_id : Text
  pub model_id : Text
  pub model_revision : Text
  pub model_artifact_sha256 : Text
  pub adapter_version : Text
  pub input_template_sha256 : Text
  pub runtime : Text
  pub runtime_version : Text
  pub parameters : List (Text × ParameterValue F)

pub record AgentTrajectoryDriftThresholds (F : Type 0) : Type 0 where
  pub max_strict_trajectory_pass_rate_drop : F
  pub max_strict_end_to_end_pass_rate_drop : F
  pub max_policy_compliance_rate_drop : F
  pub max_evidence_inspection_rate_drop : F
  pub max_claim_trace_rate_drop : F
  pub max_p95_latency_relative_increase : F
  pub max_p95_step_relative_increase : F

pub record PolicyPayload (F : Type 0) : Type 0 where
  pub min_relationship_case_count : ℕ
  pub min_relationship_macro_f1 : F
  pub min_relationship_accuracy_delta : F
  pub max_relationship_regression_rate : F
  pub min_trajectory_capture_count : ℕ
  pub min_total_trajectory_case_count : ℕ
  pub min_case_count_per_capture : ℕ
  pub min_answered_case_rate : F
  pub min_grounded_strict_pass_rate : F
  pub max_grounded_unsupported_claim_rate : F
  pub min_grounded_complete_citation_rate : F
  pub min_trajectory_policy_compliance_rate : F
  pub min_trajectory_evidence_inspection_rate : F
  pub min_trajectory_claim_trace_rate : F
  pub min_trajectory_strict_pass_rate : F
  pub min_trajectory_end_to_end_pass_rate : F
  pub max_trajectory_p95_step_count : F
  pub max_trajectory_p95_latency_ms : F
  pub drift_thresholds : AgentTrajectoryDriftThresholds F

pub record AgentReleaseThresholdPolicy (F : Type 0) : Type 0 where
  pub policy_id : Text
  pub policy_sha256 : Text
  pub payload : PolicyPayload F

pub record AgentReleaseGate : Type 0 where
  pub gate_id : ReleaseGateId
  pub passed : Bool
  pub observed : Text
  pub required : Text
  pub blocking_reason : Option Text

pub record RelationshipReleaseEvidence (F : Type 0) : Type 0 where
  pub report_id : Text
  pub report_sha256 : Text
  pub candidate_id : Text
  pub case_count : ℕ
  pub macro_f1 : Option F
  pub accuracy_delta : F
  pub regression_rate : F

pub record TrajectoryReleaseEvidence : Type 0 where
  pub report_id : Text
  pub report_sha256 : Text
  pub task_id : Text
  pub grounded_report_id : Text
  pub grounded_report_sha256 : Text
  pub captured_at : Datetime
  pub case_count : ℕ

pub record DriftReleaseEvidence : Type 0 where
  pub drift_report_id : Text
  pub drift_report_sha256 : Text
  pub baseline_report_id : Text
  pub current_report_id : Text
  pub status : DriftStatus

pub record AssessmentPayload (F : Type 0) : Type 0 where
  pub generated_at : Datetime
  pub policy : AgentReleaseThresholdPolicy F
  pub agent_system : CandidateSystemDefinition F
  pub relationship_system : CandidateSystemDefinition F
  pub relationship_evidence : RelationshipReleaseEvidence F
  pub trajectory_evidence : List TrajectoryReleaseEvidence
  pub drift_evidence : List DriftReleaseEvidence
  pub gate_count : ℕ
  pub passed_gate_count : ℕ
  pub blocked_gate_count : ℕ
  pub blocking_reasons : List Text
  pub gates : List AgentReleaseGate
  pub status : ReleaseStatus

pub record AgentReleaseAssessment (F : Type 0) : Type 0 where
  pub assessment_id : Text
  pub assessment_sha256 : Text
  pub payload : AssessmentPayload F

-- SHA-256 over canonical JSON.
pub record ReleaseHashes (F : Type 0) : Type 0 where
  pub policy_digest : PolicyPayload F → Text
  pub assessment_digest : AssessmentPayload F → Text
