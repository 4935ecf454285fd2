-- ===== src/Release.antt =====
-- agent_trajectory/release.py: release assessments with their validator, and the observation that
-- agent_runs.py makes of one.
pub mod Types
pub mod Observed
pub mod Reports
pub mod Measures
pub mod Gates
pub mod Evaluate
pub mod Captures
pub mod Passed
pub mod Eligible
pub mod Refused
use atlas_pulse.Prelude.{
  ℕ, Bool, true, false, ◌&&◌, ◌||◌, not, Option, none, some, List, [], ◌∷◌, ◌++◌, length, map, all,
  any, keep, unique, Result, ok, raise, ◌>>◌, ◌>>=◌, raise_if, ltb, leb, ◌==◌, ◌*◌, text_eq, nat_eq,
  bool_eq, if◌then◌else◌, Text, codes, take, sorted,
}
use atlas_pulse.Polling.Types.{Datetime}
use atlas_pulse.Polling.Validate.{is_some}
use atlas_pulse.AgentRuns.Types.{AgentReleaseStatus, AgentReleaseObservation}
use atlas_pulse.AgentRuns.{is_empty}
use atlas_pulse.Release.Types.{
  ReleaseStatus, DriftStatus, ReleaseGateId, AgentReleaseThresholdPolicy, AgentReleaseGate,
  TrajectoryReleaseEvidence, DriftReleaseEvidence, AgentReleaseAssessment, AssessmentPayload,
  ReleaseHashes, gate_id_eq, gate_ids_eq, status_eq, drift_status_eq, texts_eq, pairs_eq, pair_eq,
}

pub data ReleaseError : Type 0 where
  policy_floor policy_digest_mismatch policy_id_mismatch gate_reason : ReleaseError
  naive_timestamp trajectory_count drift_count gate_count_mismatch gates_not_canonical :
      ReleaseError
  gate_totals reasons_mismatch status_mismatch not_chronological reports_repeated : ReleaseError
  drift_pairs_repeated chain_without_evidence stability_mismatch : ReleaseError
  assessment_digest_mismatch assessment_id_mismatch : ReleaseError

abbrev pub Assessed : Type 0 → Type 0
Assessed A = Result ReleaseError A

-- AGENT_RELEASE_GATE_IDS
unfoldable pub agent_release_gate_ids : List ReleaseGateId
agent_release_gate_ids =
    ReleaseGateId.agent_candidate_identity ∷ ReleaseGateId.relationship_sample_size
    ∷ ReleaseGateId.relationship_macro_f1 ∷ ReleaseGateId.relationship_accuracy_delta
    ∷ ReleaseGateId.relationship_regression_rate ∷ ReleaseGateId.trajectory_capture_count
    ∷ ReleaseGateId.trajectory_total_cases ∷ ReleaseGateId.trajectory_capture_sample_size
    ∷ ReleaseGateId.grounded_review_adjudication ∷ ReleaseGateId.grounded_answer_coverage
    ∷ ReleaseGateId.grounded_strict_pass ∷ ReleaseGateId.grounded_unsupported_claims
    ∷ ReleaseGateId.grounded_complete_citations ∷ ReleaseGateId.trajectory_policy_compliance
    ∷ ReleaseGateId.trajectory_evidence_inspection ∷ ReleaseGateId.trajectory_claim_trace
    ∷ ReleaseGateId.trajectory_strict_pass ∷ ReleaseGateId.trajectory_end_to_end_pass
    ∷ ReleaseGateId.trajectory_step_budget ∷ ReleaseGateId.trajectory_latency_budget
    ∷ ReleaseGateId.trajectory_drift_chain ∷ ReleaseGateId.trajectory_drift_stability ∷ []

-- AgentReleaseGate.validate_reason
unfoldable pub validate_gate : AgentReleaseGate → Assessed (Unit {0})
validate_gate g = raise_if (g.passed == is_some g.blocking_reason) gate_reason

unfoldable pub validate_gates : List AgentReleaseGate → Assessed (Unit {0})
validate_gates [] = ok tt
validate_gates (g ∷ gates) = validate_gate g >> validate_gates gates

-- A timestamp that is timezone-aware.
unfoldable pub require_aware : Datetime → Assessed (Unit {0})
require_aware d = elim d.offset [ none ↦ raise naive_timestamp | some _ ↦ ok tt ]

unfoldable pub validate_captures : List TrajectoryReleaseEvidence → Assessed (Unit {0})
validate_captures [] = ok tt
validate_captures (t ∷ evidence) = require_aware t.captured_at >> validate_captures evidence

-- `tuple(gate.blocking_reason for gate in blocked if gate.blocking_reason is not None)`
unfoldable pub reasons_of : List AgentReleaseGate → List Text
reasons_of [] = []
reasons_of (g ∷ gates) =
    let rest = reasons_of gates in elim g.blocking_reason [ none ↦ rest | some r ↦ r ∷ rest ]

-- `{gate.gate_id: gate.passed for gate in gates}`, at one key; of equal keys the last counts.
unfoldable pub gate_passed : ReleaseGateId → List AgentReleaseGate → Option Bool
gate_passed id [] = none
gate_passed id (g ∷ gates) = elim (gate_passed id gates) [
  | some passed ↦ some passed
  | none ↦ if g.gate_id == id then some g.passed else none
]

-- The identities of consecutive reports.
unfoldable pub consecutive : List Text → List (Text × Text)
consecutive [] = []
consecutive (a ∷ []) = []
consecutive (a ∷ b ∷ rest) = (a, b) ∷ consecutive (b ∷ rest)

-- `passed.get(gate_id, False)`. `gates[gate_id].passed` of the validator is the same, since it has
-- checked by then that all ids are there.
unfoldable pub has_passed : List AgentReleaseGate → ReleaseGateId → Bool
has_passed gates id = elim (gate_passed id gates) [ none ↦ false | some passed ↦ passed ]

abbrev pub is_passed : AgentReleaseGate → Bool
is_passed g = g.passed

abbrev pub is_blocked : AgentReleaseGate → Bool
is_blocked g = not g.passed

unfoldable pub release_status : List AgentReleaseGate → ReleaseStatus
release_status gates =
    if is_empty (keep is_blocked gates)
    then ReleaseStatus.eligible_for_human_review
    else ReleaseStatus.blocked

unfoldable pub drift_pairs : List DriftReleaseEvidence → List (Text × Text)
drift_pairs evidence = map (λ d. (d.baseline_report_id, d.current_report_id)) evidence

module _ {F : Type 0} (h : ReleaseHashes F) where
  -- AgentReleaseThresholdPolicy.validate_policy
  unfoldable pub validate_policy : AgentReleaseThresholdPolicy F → Assessed (Unit {0})
  validate_policy p = do
    raise_if
        (ltb p.payload.min_total_trajectory_case_count
          (p.payload.min_trajectory_capture_count * p.payload.min_case_count_per_capture))
        policy_floor
    raise_if (not (p.policy_sha256 == h.policy_digest p.payload)) policy_digest_mismatch
    raise_if (not (p.policy_id == codes "release-policy-" ++ take 20 (h.policy_digest p.payload)))
        policy_id_mismatch

  -- The part of `validate_assessment` on the gates.
  unfoldable pub check_gates : AssessmentPayload F → Assessed (Unit {0})
  check_gates a = do
    raise_if (not (a.gate_count == length a.gates)) gate_count_mismatch
    raise_if (not (map (λ g. g.gate_id) a.gates == agent_release_gate_ids)) gates_not_canonical
    raise_if
        (not (a.passed_gate_count == length (keep is_passed a.gates))
          || not (a.blocked_gate_count == length (keep is_blocked a.gates)))
        gate_totals
    raise_if (not (a.blocking_reasons == reasons_of (keep is_blocked a.gates))) reasons_mismatch
    raise_if (not (a.status == release_status a.gates)) status_mismatch

  -- The part on the captures and the drift between them.
  unfoldable pub check_evidence : AssessmentPayload F → Assessed (Unit {0})
  check_evidence a = do
    let times = map (λ t. t.captured_at.instant) a.trajectory_evidence
    raise_if (not (times == sorted leb times) || not (unique times)) not_chronological
    let reports = map (λ t. t.report_id) a.trajectory_evidence
    raise_if (not (unique reports)) reports_repeated
    raise_if (not (unique (drift_pairs a.drift_evidence))) drift_pairs_repeated
    let chain = has_passed a.gates ReleaseGateId.trajectory_drift_chain
    raise_if (chain && not (drift_pairs a.drift_evidence == consecutive reports))
        chain_without_evidence
    let drift_stable = chain && all (λ d. d.status == DriftStatus.stable) a.drift_evidence
    raise_if (not (has_passed a.gates ReleaseGateId.trajectory_drift_stability == drift_stable))
        stability_mismatch

  -- AgentReleaseAssessment: the bounds of its fields and its parts, then `validate_assessment`. The
  -- patterns of its two identities hold by their equation with the digest.
  unfoldable pub validate_assessment : AgentReleaseAssessment F → Assessed (Unit {0})
  validate_assessment r = do
    let a = r.payload
    validate_policy a.policy
    raise_if (is_empty a.trajectory_evidence || ltb 100 (length a.trajectory_evidence))
        trajectory_count
    validate_captures a.trajectory_evidence
    raise_if (ltb 99 (length a.drift_evidence)) drift_count
    validate_gates a.gates
    require_aware a.generated_at
    check_gates a
    check_evidence a
    raise_if (not (r.assessment_sha256 == h.assessment_digest a)) assessment_digest_mismatch
    raise_if
        (not (r.assessment_id == codes "release-assessment-" ++ take 20 (h.assessment_digest a)))
        assessment_id_mismatch

-- The status of an assessment as that of a preflight observation.
unfoldable pub observed_status : ReleaseStatus → AgentReleaseStatus
observed_status ReleaseStatus.blocked = AgentReleaseStatus.blocked
observed_status ReleaseStatus.eligible_for_human_review =
    AgentReleaseStatus.eligible_for_human_review

-- agent_release_observation of agent_runs.py
unfoldable pub agent_release_observation :
    {F : Type 0} → AgentReleaseAssessment F → AgentReleaseObservation
agent_release_observation r =
    let a = r.payload in
    let every = all (has_passed a.gates) in
    record {
      status = observed_status a.status;
      assessment_id = some r.assessment_id;
      assessment_sha256 = some r.assessment_sha256;
      policy_id = some a.policy.policy_id;
      policy_sha256 = some a.policy.policy_sha256;
      agent_candidate_id = some a.agent_system.candidate_id;
      relationship_report_id = some a.relationship_evidence.report_id;
      trajectory_report_ids = map (λ t. t.report_id) a.trajectory_evidence;
      model_adapter_evaluated = every (ReleaseGateId.agent_candidate_identity ∷ []);
      relationship_benchmark_passed = every (
          ReleaseGateId.relationship_sample_size ∷ ReleaseGateId.relationship_macro_f1
          ∷ ReleaseGateId.relationship_accuracy_delta ∷ ReleaseGateId.relationship_regression_rate
          ∷ []);
      grounded_answer_evaluation_passed = every (
          ReleaseGateId.grounded_review_adjudication ∷ ReleaseGateId.grounded_answer_coverage
          ∷ ReleaseGateId.grounded_strict_pass ∷ ReleaseGateId.grounded_unsupported_claims
          ∷ ReleaseGateId.grounded_complete_citations ∷ []);
      agent_trajectory_evaluation_passed = every (
          ReleaseGateId.trajectory_capture_count ∷ ReleaseGateId.trajectory_total_cases
          ∷ ReleaseGateId.trajectory_capture_sample_size
          ∷ ReleaseGateId.trajectory_policy_compliance
          ∷ ReleaseGateId.trajectory_evidence_inspection ∷ ReleaseGateId.trajectory_claim_trace
          ∷ ReleaseGateId.trajectory_strict_pass ∷ ReleaseGateId.trajectory_end_to_end_pass
          ∷ ReleaseGateId.trajectory_step_budget ∷ ReleaseGateId.trajectory_latency_budget ∷ []);
      trajectory_drift_monitoring_passed =
          every
            (ReleaseGateId.trajectory_drift_chain ∷ ReleaseGateId.trajectory_drift_stability ∷ []);
      release_threshold_policy_passed = a.status == ReleaseStatus.eligible_for_human_review;
      blocking_reasons = a.blocking_reasons;
    }
