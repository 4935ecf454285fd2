-- ===== src/Tests/Release.antt =====
-- A release assessment of one capture in which every gate has passed.
use atlas_pulse.Prelude.{
  ℕ, true, none, some, [], ◌∷◌, ◌++◌, map, Text, codes, take, ok, refl, ◌≡◌, ℕ_discrete,
  Text-discrete, Bool-discrete, sort_insert, sorted,
}
use atlas_pulse.AgentRuns.{is_empty, validate_release_observation}
use atlas_pulse.Release.Types.{
  ReleaseStatus, ReleaseGateId, AgentReleaseGate, AgentTrajectoryDriftThresholds, PolicyPayload,
  CandidateSystemDefinition, TrajectoryReleaseEvidence, AgentReleaseAssessment, ReleaseHashes,
  GateId-discrete, GateIds-discrete, ReleaseStatus-discrete, DriftStatus-discrete, Texts-discrete,
  Pairs-discrete, Pair-discrete, text_value,
}
use atlas_pulse.Release.{
  agent_release_gate_ids, validate_gate, validate_gates, require_aware, validate_captures,
  reasons_of, gate_passed, consecutive, has_passed, release_status, drift_pairs, validate_policy,
  check_gates, check_evidence, validate_assessment, observed_status, agent_release_observation,
}
use atlas_pulse.Release.Observed.{agent_release_observation-validates}
use atlas_pulse.Tests.Polling.{at}

unfoldable pub release_program : Unit {0}
unfolding ℕ_discrete Text-discrete Bool-discrete GateId-discrete GateIds-discrete
    ReleaseStatus-discrete DriftStatus-discrete Texts-discrete Pairs-discrete Pair-discrete
    sort_insert sorted is_empty agent_release_gate_ids validate_gate validate_gates require_aware
    validate_captures reasons_of gate_passed consecutive has_passed release_status drift_pairs
    validate_policy check_gates check_evidence validate_assessment observed_status
    agent_release_observation
release_program = tt

abbrev pub digest : Text
digest = codes "00112233445566778899aabbccddeeff00112233445566778899aabbccddeeff"

abbrev pub hashes : ReleaseHashes ℕ
hashes = record { policy_digest = λ p. digest; assessment_digest = λ a. digest }

-- Rates in percent.
abbrev pub thresholds : AgentTrajectoryDriftThresholds ℕ
thresholds = record {
  max_strict_trajectory_pass_rate_drop = 2;
  max_strict_end_to_end_pass_rate_drop = 2;
  max_policy_compliance_rate_drop = 0;
  max_evidence_inspection_rate_drop = 0;
  max_claim_trace_rate_drop = 0;
  max_p95_latency_relative_increase = 25;
  max_p95_step_relative_increase = 25;
}

abbrev pub policy_payload : PolicyPayload ℕ
policy_payload = record {
  min_relationship_case_count = 10;
  min_relationship_macro_f1 = 80;
  min_relationship_accuracy_delta = 0;
  max_relationship_regression_rate = 5;
  min_trajectory_capture_count = 1;
  min_total_trajectory_case_count = 10;
  min_case_count_per_capture = 10;
  min_answered_case_rate = 50;
  min_grounded_strict_pass_rate = 90;
  max_grounded_unsupported_claim_rate = 1;
  min_grounded_complete_citation_rate = 90;
  min_trajectory_policy_compliance_rate = 100;
  min_trajectory_evidence_inspection_rate = 90;
  min_trajectory_claim_trace_rate = 90;
  min_trajectory_strict_pass_rate = 90;
  min_trajectory_end_to_end_pass_rate = 90;
  max_trajectory_p95_step_count = 20;
  max_trajectory_p95_latency_ms = 9000;
  drift_thresholds = thresholds;
}

abbrev pub system : CandidateSystemDefinition ℕ
system = record {
  candidate_id = codes "agent-v1";
  model_id = codes "model";
  model_revision = codes "r1";
  model_artifact_sha256 = digest;
  adapter_version = codes "1";
  input_template_sha256 = digest;
  runtime = codes "cpu";
  runtime_version = codes "1";
  parameters = (codes "seed", text_value (codes "0")) ∷ [];
}

abbrev passing_gate : ReleaseGateId → AgentReleaseGate
passing_gate id = record {
  gate_id = id;
  passed = true;
  observed = codes "1";
  required = codes "1";
  blocking_reason = none;
}

abbrev capture : TrajectoryReleaseEvidence
capture = record {
  report_id = codes "trajectory-report-1";
  report_sha256 = digest;
  task_id = codes "grounded-task-1";
  grounded_report_id = codes "grounded-report-1";
  grounded_report_sha256 = digest;
  captured_at = at 5;
  case_count = 12;
}

abbrev pub assessment : AgentReleaseAssessment ℕ
unfolding agent_release_gate_ids
assessment = record {
  assessment_id = codes "release-assessment-" ++ take 20 digest;
  assessment_sha256 = digest;
  payload = record {
    generated_at = at 9;
    policy = record {
      policy_id = codes "release-policy-" ++ take 20 digest;
      policy_sha256 = digest;
      payload = policy_payload;
    };
    agent_system = system;
    relationship_system = system;
    relationship_evidence = record {
      report_id = codes "relationship-1";
      report_sha256 = digest;
      candidate_id = codes "agent-v1";
      case_count = 12;
      macro_f1 = some 90;
      accuracy_delta = 1;
      regression_rate = 0;
    };
    trajectory_evidence = capture ∷ [];
    drift_evidence = [];
    gate_count = 22;
    passed_gate_count = 22;
    blocked_gate_count = 0;
    blocking_reasons = [];
    gates = map passing_gate agent_release_gate_ids;
    status = ReleaseStatus.eligible_for_human_review;
  };
}

assessment_valid : validate_assessment hashes assessment ≡ ok tt
unfolding release_program
assessment_valid = refl

agent_release_observation-validates_example :
    validate_release_observation (agent_release_observation assessment) ≡ ok tt
agent_release_observation-validates_example =
    agent_release_observation-validates hashes assessment assessment_valid
