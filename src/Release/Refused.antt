-- ===== src/Release/Refused.antt =====
-- Captures without their grounded report, in evaluate_agent_release of agent_trajectory/release.py.
use atlas_pulse.Prelude.{
  Bool, true, false, ◌&&◌, Option, none, some, List, [], ◌∷◌, all, ok, raise, leb, ◌==◌, text_eq,
  arith, refl, ◌≡◌, Result-cases, inl, inr,
}
use atlas_pulse.Prelude.{returns_before, Text}
use atlas_pulse.Prelude.Sorted.{all-sorted}
use atlas_pulse.Polling.Types.{Datetime}
use atlas_pulse.Release.Types.{AgentReleaseThresholdPolicy, ReleaseHashes}
use atlas_pulse.Release.Reports.{
  GroundedAnswerEvaluationReport, RelationshipCandidateComparisonReport,
}
use atlas_pulse.Release.Evaluate.{
  EvaluateError, in_order, grounded_by_id, check_grounded, bind_grounded,
}
use atlas_pulse.Release.Eligible.{evaluated, evaluated-parts}
use atlas_pulse.Drift.Types.{
  Floats, AgentTrajectoryScoreReport, DriftPayload, AgentTrajectoryDriftReport,
}

module _ {F : Type 0} where
  -- The grounded report that a capture names is there, and is the one that it was scored against.
  abbrev is_named : AgentTrajectoryScoreReport F → Option (GroundedAnswerEvaluationReport F) → Bool
  is_named t none = false
  is_named t (some g) =
      g.report_sha256 == t.grounded_report_sha256
      && g.task_id == t.task_id
      && g.task_sha256 == t.task_sha256
      && g.batch_id == t.candidate_batch_id
      && g.batch_sha256 == t.candidate_batch_sha256

  abbrev pub is_bound :
      List (GroundedAnswerEvaluationReport F) → AgentTrajectoryScoreReport F → Bool
  is_bound reports t = is_named t (grounded_by_id t.grounded_report_id reports)

  check_grounded-named :
      (t : AgentTrajectoryScoreReport F) (found : Option (GroundedAnswerEvaluationReport F))
      (g : GroundedAnswerEvaluationReport F)
      → check_grounded t found ≡ ok g
      → is_named t found ≡ true
  unfolding check_grounded
  check_grounded-named t none g h = absurd (ground arith)
  check_grounded-named t (some x) g h = ground arith

  bind_grounded-bound :
      (reports : List (GroundedAnswerEvaluationReport F))
      (ordered : List (AgentTrajectoryScoreReport F))
      (grounded : List (GroundedAnswerEvaluationReport F))
      → bind_grounded reports ordered ≡ ok grounded
      → all (is_bound reports) ordered ≡ true
  unfolding bind_grounded
  bind_grounded-bound reports [] grounded h = refl
  bind_grounded-bound reports (t ∷ ordered) grounded h =
      let (g, bound, h1) =
        returns_before (check_grounded t (grounded_by_id t.grounded_report_id reports)) _ grounded
          h in
      let (rest, bound_rest, _) = returns_before (bind_grounded reports ordered) _ grounded h1 in
      ground (
        arith,
        check_grounded-named t (grounded_by_id t.grounded_report_id reports) g bound,
        bind_grounded-bound reports ordered rest bound_rest,
      )

module _ {F : Type 0} (f : Floats F) (digest : DriftPayload F → Text) (h : ReleaseHashes F)
    (policy : AgentReleaseThresholdPolicy F)
    (relationship : RelationshipCandidateComparisonReport F)
    (grounded_reports : List (GroundedAnswerEvaluationReport F))
    (trajectory_reports : List (AgentTrajectoryScoreReport F))
    (drift_reports : List (AgentTrajectoryDriftReport F)) (generated_at : Datetime) where
  -- An evaluation is refused if the grounded report that some capture names is missing, or has another
  -- digest, task or batch than the capture says.
  pub evaluated-refused :
      all (is_bound grounded_reports) trajectory_reports ≡ false
      → (e : EvaluateError) × (evaluated f digest h policy relationship grounded_reports
            trajectory_reports drift_reports generated_at
          ≡ raise e)
  unfolding in_order
  evaluated-refused unbound =
      elim (Result-cases (
        evaluated f digest h policy relationship grounded_reports trajectory_reports drift_reports
          generated_at)) [
            | inl (r, returned) ↦
                let m =
                  evaluated-parts f digest h policy relationship grounded_reports trajectory_reports
                    drift_reports generated_at r returned in
                let le = λ (a b : AgentTrajectoryScoreReport F).
                  leb a.captured_at.instant b.captured_at.instant in
                let all_bound =
                  bind_grounded-bound grounded_reports (in_order trajectory_reports)
                    (m.first_grounded ∷ m.rest_grounded) m.bound in
                let same = all-sorted (is_bound grounded_reports) le trajectory_reports in
                absurd (ground arith)
            | inr refused ↦ refused
          ]
