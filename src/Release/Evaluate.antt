-- ===== src/Release/Evaluate.antt =====
-- `evaluate_agent_release` of agent_trajectory/release.py: the checks of its inputs, the evidence and
-- the assessment.
use atlas_pulse.Prelude.{
  ◌-◌, Bool, ◌&&◌, ◌||◌, not, Option, none, some, List, [], ◌∷◌, ◌++◌, length, map, all, contains,
  keep, unique, Result, ok, raise, map_error, ◌>>◌, ◌>>=◌, raise_if, ltb, leb, ◌==◌, text_eq,
  nat_eq, if◌then◌else◌, Text, codes, take, sorted,
}
use atlas_pulse.Prelude.Int.{pos}
use atlas_pulse.Polling.Types.{Datetime}
use atlas_pulse.Release.Types.{
  AgentReleaseThresholdPolicy, RelationshipReleaseEvidence, TrajectoryReleaseEvidence,
  DriftReleaseEvidence, AssessmentPayload, AgentReleaseAssessment, ReleaseHashes,
}
use atlas_pulse.Release.{ReleaseError, validate_assessment, is_blocked, reasons_of, release_status}
use atlas_pulse.Release.Reports.{
  GroundedAnswerEvaluationReport, RelationshipCandidateComparisonReport,
}
use atlas_pulse.Release.Gates.{gates_of}
use atlas_pulse.Drift.Types.{
  Floats, AgentTrajectoryScoreReport, DriftPayload, AgentTrajectoryDriftReport,
}

pub data EvaluateError : Type 0 where
  no_trajectory reports_repeated captures_repeated grounded_repeated : EvaluateError
  grounded_missing grounded_mismatch grounded_unreferenced naive_generated_at : EvaluateError
  invalid : ReleaseError → EvaluateError

abbrev pub Evaluated : Type 0 → Type 0
Evaluated A = Result EvaluateError A

unfoldable pub check_generated_at : Datetime → Evaluated (Unit {0})
check_generated_at d = elim d.offset [ none ↦ raise naive_generated_at | some _ ↦ ok tt ]

module _ {F : Type 0} where
  -- `sorted(trajectory_reports, key=lambda report: report.captured_at)`
  unfoldable pub in_order :
      List (AgentTrajectoryScoreReport F) → List (AgentTrajectoryScoreReport F)
  in_order reports = sorted (λ a b. leb a.captured_at.instant b.captured_at.instant) reports

  -- `grounded_by_id.get(id)`, where the ids are distinct
  unfoldable pub grounded_by_id :
      Text → List (GroundedAnswerEvaluationReport F) → Option (GroundedAnswerEvaluationReport F)
  grounded_by_id id [] = none
  grounded_by_id id (g ∷ reports) =
      let rest = grounded_by_id id reports in if g.report_id == id then some g else rest

  unfoldable pub check_grounded :
      AgentTrajectoryScoreReport F
      → Option (GroundedAnswerEvaluationReport F)
      → Evaluated (GroundedAnswerEvaluationReport F)
  check_grounded t none = raise grounded_missing
  check_grounded t (some g) = do
    raise_if
        (not (g.report_sha256 == t.grounded_report_sha256)
          || not (g.task_id == t.task_id)
          || not (g.task_sha256 == t.task_sha256)
          || not (g.batch_id == t.candidate_batch_id)
          || not (g.batch_sha256 == t.candidate_batch_sha256))
        grounded_mismatch
    ok g

  -- The grounded report of each capture: the loop over `ordered`, and `ordered_grounded`.
  unfoldable pub bind_grounded :
      List (GroundedAnswerEvaluationReport F)
      → List (AgentTrajectoryScoreReport F)
      → Evaluated (List (GroundedAnswerEvaluationReport F))
  bind_grounded reports [] = ok []
  bind_grounded reports (t ∷ ordered) = do
    g ← check_grounded t (grounded_by_id t.grounded_report_id reports)
    rest ← bind_grounded reports ordered
    ok (g ∷ rest)

  unfoldable pub relationship_evidence_of :
      Floats F → RelationshipCandidateComparisonReport F → RelationshipReleaseEvidence F
  relationship_evidence_of f r = record {
    report_id = r.report_id;
    report_sha256 = r.canonical_sha256;
    candidate_id = r.candidate_system.candidate_id;
    case_count = r.case_count;
    macro_f1 = r.macro_f1;
    accuracy_delta = r.accuracy_delta;
    regression_rate = f.ratio r.regressions r.case_count;
  }

  unfoldable pub trajectory_evidence_of : AgentTrajectoryScoreReport F → TrajectoryReleaseEvidence
  trajectory_evidence_of r = record {
    report_id = r.report_id;
    report_sha256 = r.report_sha256;
    task_id = r.task_id;
    grounded_report_id = r.grounded_report_id;
    grounded_report_sha256 = r.grounded_report_sha256;
    captured_at = r.captured_at;
    case_count = r.case_count;
  }

  unfoldable pub drift_evidence_of : AgentTrajectoryDriftReport F → DriftReleaseEvidence
  drift_evidence_of r = record {
    drift_report_id = r.drift_report_id;
    drift_report_sha256 = r.drift_report_sha256;
    baseline_report_id = r.payload.baseline_report_id;
    current_report_id = r.payload.current_report_id;
    status = r.payload.status;
  }

  -- The order of drift reports: by the pair of the times of their captures.
  unfoldable pub is_earlier : AgentTrajectoryDriftReport F → AgentTrajectoryDriftReport F → Bool
  is_earlier a b =
      ltb a.payload.baseline_captured_at.instant b.payload.baseline_captured_at.instant
      || (a.payload.baseline_captured_at.instant == b.payload.baseline_captured_at.instant
          && leb a.payload.current_captured_at.instant b.payload.current_captured_at.instant)

module _ {F : Type 0} (f : Floats F) (digest : DriftPayload F → Text) (h : ReleaseHashes F)
    (policy : AgentReleaseThresholdPolicy F)
    (relationship : RelationshipCandidateComparisonReport F) where
  -- The draft with its digest and the identity made of it.
  unfoldable pub assessment_of :
      AgentTrajectoryScoreReport F
      → List (AgentTrajectoryScoreReport F)
      → GroundedAnswerEvaluationReport F
      → List (GroundedAnswerEvaluationReport F)
      → List (AgentTrajectoryDriftReport F)
      → Datetime
      → AgentReleaseAssessment F
  assessment_of first rest first_grounded rest_grounded drift_reports generated_at =
      let gates =
        gates_of f digest policy.payload relationship first rest first_grounded rest_grounded
          drift_reports in
      let blocked = keep is_blocked gates in
      let draft : AssessmentPayload F = record {
        generated_at = record { instant = generated_at.instant; offset = some (pos 0) };
        policy = policy;
        agent_system = first.system;
        relationship_system = relationship.candidate_system;
        relationship_evidence = relationship_evidence_of f relationship;
        trajectory_evidence = map trajectory_evidence_of (first ∷ rest);
        drift_evidence = map drift_evidence_of (sorted is_earlier drift_reports);
        gate_count = length gates;
        passed_gate_count = length gates - length blocked;
        blocked_gate_count = length blocked;
        blocking_reasons = reasons_of blocked;
        gates = gates;
        status = release_status gates;
      } in
      record {
        assessment_id = codes "release-assessment-" ++ take 20 (h.assessment_digest draft);
        assessment_sha256 = h.assessment_digest draft;
        payload = draft;
      }

  -- From the gates on, with the grounded reports in the order of the captures, of which there are as
  -- many as captures: the second case does not occur.
  unfoldable pub assess :
      List (AgentTrajectoryScoreReport F)
      → List (GroundedAnswerEvaluationReport F)
      → List (AgentTrajectoryDriftReport F)
      → Datetime
      → Evaluated (AgentReleaseAssessment F)
  assess [] grounded drift_reports generated_at = raise no_trajectory
  assess (first ∷ rest) [] drift_reports generated_at = raise grounded_missing
  assess (first ∷ rest) (first_grounded ∷ rest_grounded) drift_reports generated_at = do
    let assessment =
        assessment_of first rest first_grounded rest_grounded drift_reports generated_at
    check_generated_at generated_at
    map_error invalid (validate_assessment h assessment)
    ok assessment

  -- The reports are validated ones. `generated_at` is the given time, or the clock's.
  unfoldable pub evaluate_agent_release :
      List (GroundedAnswerEvaluationReport F)
      → List (AgentTrajectoryScoreReport F)
      → List (AgentTrajectoryDriftReport F)
      → Datetime
      → Evaluated (AgentReleaseAssessment F)
  evaluate_agent_release grounded_reports trajectory_reports drift_reports generated_at = do
    let ordered = in_order trajectory_reports
    raise_if (length trajectory_reports == 0) no_trajectory
    raise_if (not (unique (map (λ r. r.report_id) ordered))) reports_repeated
    raise_if (not (unique (map (λ r. r.captured_at.instant) ordered))) captures_repeated
    raise_if (not (unique (map (λ g. g.report_id) grounded_reports))) grounded_repeated
    grounded ← bind_grounded grounded_reports ordered
    raise_if
        (not (
          all (λ g. contains g.report_id (map (λ r. r.grounded_report_id) ordered))
            grounded_reports))
        grounded_unreferenced
    assess ordered grounded drift_reports generated_at
