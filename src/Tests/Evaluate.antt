-- ===== src/Tests/Evaluate.antt =====
-- The evaluation of a release of two captures with the drift report between them.
use atlas_pulse.Prelude.{
  ℕ, ◌≡◌, true, some, List, [], ◌∷◌, ◌++◌, codes, take, ok, raise, refl, Result,
}
use atlas_pulse.Prelude.Decimal.{print_nat, print_from}
use atlas_pulse.AgentRuns.{validate_release_observation}
use atlas_pulse.Release.Types.{ReleaseStatus, AgentReleaseThresholdPolicy, AgentReleaseAssessment}
use atlas_pulse.Release.{agent_release_observation}
use atlas_pulse.Release.Reports.{
  GroundedAnswerEvaluationReport, RelationshipCandidateComparisonReport, same_thresholds,
  same_number?, same_check, same_checks, same_drift_report,
}
use atlas_pulse.Release.Measures.{
  min_count, distinct_count, same_pairs, present, min_of, min_from, max_from, minimum, maximum,
  consecutive_reports, pair_of, drift_by_pair, is_expected, drift_matches, drift_chain_complete,
  is_stable, drift_stable,
}
use atlas_pulse.Release.Gates.{
  new_gate, at_least, at_most, is_detected, number, reaches, stays_below, systems_stable, lowest,
  highest, identity_gate, relationship_gates, capture_gates, grounded_gates, quality_gates,
  drift_gates, gates_of,
}
use atlas_pulse.Release.Evaluate.{
  EvaluateError, in_order, grounded_by_id, check_grounded, bind_grounded, relationship_evidence_of,
  trajectory_evidence_of, drift_evidence_of, is_earlier, check_generated_at, assessment_of, assess,
  evaluate_agent_release,
}
use atlas_pulse.Release.Eligible.{
  evaluated, IsReleasable, evaluated-validates, eligible-IsReleasable,
}
use atlas_pulse.Release.Refused.{evaluated-refused}
use atlas_pulse.Drift.Types.{AgentTrajectoryScoreReport, AgentTrajectoryDriftReport}
use atlas_pulse.Drift.{report_of}
use atlas_pulse.Tests.Polling.{at}
use atlas_pulse.Tests.Release.{
  release_program, digest, system, thresholds, policy_payload, hashes, assessment,
}
use atlas_pulse.Tests.Drift.{drift_program, floats, drift_sha256, first, second, checks}

evaluate_program : Unit {0}
unfolding release_program drift_program print_nat print_from same_thresholds same_number? same_check
    same_checks same_drift_report min_count distinct_count same_pairs present min_of min_from
    max_from minimum maximum consecutive_reports pair_of drift_by_pair is_expected drift_matches
    drift_chain_complete is_stable drift_stable new_gate at_least at_most is_detected number reaches
    stays_below systems_stable lowest highest identity_gate relationship_gates capture_gates
    grounded_gates quality_gates drift_gates gates_of in_order grounded_by_id check_grounded
    bind_grounded relationship_evidence_of trajectory_evidence_of drift_evidence_of is_earlier
    check_generated_at assessment_of assess evaluate_agent_release
evaluate_program = tt

abbrev policy : AgentReleaseThresholdPolicy ℕ
policy = record {
  policy_id = codes "release-policy-" ++ take 20 digest;
  policy_sha256 = digest;
  payload = policy_payload;
}

abbrev grounded_report : GroundedAnswerEvaluationReport ℕ
grounded_report = record {
  report_id = codes "grounded-report-1";
  report_sha256 = digest;
  task_id = codes "grounded-task-1";
  task_sha256 = digest;
  batch_id = codes "grounded-batch-1";
  batch_sha256 = digest;
  is_adjudicated = true;
  system = system;
  case_count = 12;
  answered_case_count = 11;
  strict_case_pass_rate = 96;
  unsupported_or_contradicted_claim_rate = some 0;
  complete_citation_rate = some 97;
}

abbrev relationship_report : RelationshipCandidateComparisonReport ℕ
relationship_report = record {
  report_id = codes "relationship-1";
  canonical_sha256 = digest;
  candidate_system = system;
  case_count = 12;
  macro_f1 = some 91;
  accuracy_delta = 2;
  regressions = 0;
}

abbrev drift_report : AgentTrajectoryDriftReport ℕ
drift_report = report_of floats drift_sha256 first second thresholds (at 9) checks

-- The captures are given in the wrong order.
abbrev run :
    List (AgentTrajectoryScoreReport ℕ)
    → List (AgentTrajectoryDriftReport ℕ)
    → Result EvaluateError (AgentReleaseAssessment ℕ)
run captures drifts =
    evaluated floats drift_sha256 hashes policy relationship_report (grounded_report ∷ []) captures
      drifts (at 10)

abbrev eligible : AgentReleaseAssessment ℕ
unfolding evaluate_program
eligible = elim (run (second ∷ first ∷ []) (drift_report ∷ [])) [ ok r ↦ r | raise _ ↦ assessment ]

eligible_returned : run (second ∷ first ∷ []) (drift_report ∷ []) ≡ ok eligible
unfolding evaluate_program
eligible_returned = refl

evaluated-validates_example :
    validate_release_observation (agent_release_observation eligible) ≡ ok tt
evaluated-validates_example =
    evaluated-validates floats drift_sha256 hashes policy relationship_report (grounded_report ∷ [])
      (second ∷ first ∷ []) (drift_report ∷ []) (at 10) eligible eligible_returned

eligible_status : eligible.payload.status ≡ ReleaseStatus.eligible_for_human_review
unfolding evaluate_program
eligible_status = refl

eligible-IsReleasable_example :
    IsReleasable floats drift_sha256 hashes policy relationship_report
      (grounded_report ∷ [])
      (second ∷ first ∷ [])
      (drift_report ∷ [])
      (at 10)
      eligible
eligible-IsReleasable_example =
    eligible-IsReleasable floats drift_sha256 hashes policy relationship_report
      (grounded_report ∷ []) (second ∷ first ∷ []) (drift_report ∷ []) (at 10) eligible
      eligible_returned eligible_status

-- Without the drift report the assessment is made, and blocked.
blocked_without_drift :
    elim (run (first ∷ second ∷ []) []) [ ok r ↦ r.payload.blocking_reasons | raise _ ↦ [] ]
    ≡ codes "trajectory_drift_chain_incomplete" ∷ codes "trajectory_drift_detected" ∷ []
unfolding evaluate_program
blocked_without_drift = refl

-- A capture that names a grounded report that is not given.
abbrev unbound : AgentTrajectoryScoreReport ℕ
unbound = record first { grounded_report_id = codes "grounded-report-2" }

evaluated-refused_example : (e : EvaluateError) × (run (unbound ∷ second ∷ []) [] ≡ raise e)
unfolding evaluate_program
evaluated-refused_example =
    evaluated-refused floats drift_sha256 hashes policy relationship_report (grounded_report ∷ [])
      (unbound ∷ second ∷ []) [] (at 10) refl
