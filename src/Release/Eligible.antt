-- ===== src/Release/Eligible.antt =====
-- The assessments of evaluate_agent_release of agent_trajectory/release.py and their reports.
use atlas_pulse.Prelude.{
  ◌≤◌, true, List, [], ◌∷◌, length, all, All, OnSome, sum_by, Result, ok, ◌>>=◌, map_error, leb,
  text_eq, nat_eq, Text, arith, refl, ◌≡◌, Result-cases, inl, inr, sym, returns_before,
}
use mathlib.Core.Path.{subst}
use atlas_pulse.Polling.Types.{Datetime}
use atlas_pulse.AgentRuns.{validate_release_observation}
use atlas_pulse.Release.Types.{
  ReleaseStatus, AgentReleaseThresholdPolicy, AgentReleaseAssessment, ReleaseHashes,
  drift_status_eq, status_eq,
}
use atlas_pulse.Release.{validate_assessment, agent_release_observation}
use atlas_pulse.Prelude.{ap, ◌∙◌}
use atlas_pulse.Release.Observed.{agent_release_observation-validates}
use atlas_pulse.Release.Reports.{
  GroundedAnswerEvaluationReport, RelationshipCandidateComparisonReport,
}
use atlas_pulse.Release.Measures.{consecutive_reports}
use atlas_pulse.Release.Evaluate.{
  EvaluateError, in_order, grounded_by_id, bind_grounded, assessment_of, assess, check_generated_at,
  evaluate_agent_release,
}
use atlas_pulse.Drift.Types.{
  Floats, AgentTrajectoryScoreReport, DriftPayload, AgentTrajectoryDriftReport,
}
use atlas_pulse.Drift.{same_system}
use atlas_pulse.Drift.Tolerated.{IsTolerated}
use atlas_pulse.Prelude.Sorted.{all-sorted, sum_by-sorted, length-sorted}
use atlas_pulse.Release.Captures.{bind_grounded-adjudicated}
use atlas_pulse.Release.Passed.{
  release_status-eligible, gates, passed_parts, identity-passed, benchmark-passed, sizes-passed,
  answers-passed, drift-passed,
}

module _ {F : Type 0} (f : Floats F) (digest : DriftPayload F → Text) (h : ReleaseHashes F)
    (policy : AgentReleaseThresholdPolicy F)
    (relationship : RelationshipCandidateComparisonReport F)
    (grounded_reports : List (GroundedAnswerEvaluationReport F))
    (trajectory_reports : List (AgentTrajectoryScoreReport F))
    (drift_reports : List (AgentTrajectoryDriftReport F)) (generated_at : Datetime) where
  abbrev pub evaluated : Result EvaluateError (AgentReleaseAssessment F)
  evaluated =
      evaluate_agent_release f digest h policy relationship grounded_reports trajectory_reports
        drift_reports generated_at

  -- The evidence of a release of one system.
  pub record IsReleasable (r : AgentReleaseAssessment F) : Type 0 where
    pub one_system :
        all (λ t. same_system f t.system r.payload.agent_system) trajectory_reports ≡ true
    pub relationship_cases : policy.payload.min_relationship_case_count ≤ relationship.case_count
    pub captures : policy.payload.min_trajectory_capture_count ≤ length trajectory_reports
    pub total :
        policy.payload.min_total_trajectory_case_count
        ≤ sum_by (λ t. t.case_count) trajectory_reports
    pub sizes :
        all (λ t. leb policy.payload.min_case_count_per_capture t.case_count) trajectory_reports
        ≡ true
    pub adjudicated :
        All
          (λ t.
            OnSome
              (grounded_by_id t.grounded_report_id grounded_reports)
              (λ g. g.is_adjudicated ≡ true))
          (in_order trajectory_reports)
    pub steady :
        All
          (λ p. IsTolerated f policy.payload.drift_thresholds p.0.overall p.1.overall)
          (consecutive_reports (in_order trajectory_reports))

  -- An assessment that is returned, with the captures and the grounded reports that it is made of.
  pub record IsMade (r : AgentReleaseAssessment F) : Type 0 where
    pub first : AgentTrajectoryScoreReport F
    pub rest : List (AgentTrajectoryScoreReport F)
    pub first_grounded : GroundedAnswerEvaluationReport F
    pub rest_grounded : List (GroundedAnswerEvaluationReport F)
    pub ordered : in_order trajectory_reports ≡ first ∷ rest
    pub bound :
        bind_grounded grounded_reports (in_order trajectory_reports)
        ≡ ok (first_grounded ∷ rest_grounded)
    pub made :
        assessment_of f digest h policy relationship first rest first_grounded rest_grounded
          drift_reports generated_at
        ≡ r
    pub valid : validate_assessment h r ≡ ok tt

  assess-parts :
      (ordered : List (AgentTrajectoryScoreReport F))
      (grounded : List (GroundedAnswerEvaluationReport F)) (r : AgentReleaseAssessment F)
      → in_order trajectory_reports ≡ ordered
      → bind_grounded grounded_reports (in_order trajectory_reports) ≡ ok grounded
      → assess f digest h policy relationship ordered grounded drift_reports generated_at ≡ ok r
      → IsMade r
  unfolding assess
  assess-parts [] grounded r same bound returned = absurd (ground arith)
  assess-parts (first ∷ rest) [] r same bound returned = absurd (ground arith)
  assess-parts (first ∷ rest) (first_grounded ∷ rest_grounded) r same bound returned =
      let assessment =
        assessment_of f digest h policy relationship first rest first_grounded rest_grounded
          drift_reports generated_at in
      let (_, _, h1) =
        returns_before (check_generated_at generated_at)
          (λ _. map_error EvaluateError.invalid (validate_assessment h assessment) >>= λ _.
            ok assessment)
          r returned in
      let (_, checked, h2) =
        returns_before (map_error EvaluateError.invalid (validate_assessment h assessment))
          (λ _. ok assessment) r h1 in
      let made : assessment ≡ r = ground arith in
      record {
        first = first;
        rest = rest;
        first_grounded = first_grounded;
        rest_grounded = rest_grounded;
        ordered = same;
        bound = bound;
        made = made;
        valid =
            subst (λ r. validate_assessment h r ≡ ok tt) made
              (ground (arith, Result-cases (validate_assessment h assessment)));
      }

  pub evaluated-parts : (r : AgentReleaseAssessment F) → evaluated ≡ ok r → IsMade r
  unfolding evaluate_agent_release
  evaluated-parts r returned =
      elim (Result-cases (bind_grounded grounded_reports (in_order trajectory_reports))) [
        | inl (grounded, bound) ↦
            assess-parts (in_order trajectory_reports) grounded r refl bound (ground arith)
        | inr (e, raised) ↦ absurd (ground arith)
      ]

  -- The observation of an assessment that is returned passes the validation that a preflight makes.
  pub evaluated-validates :
      (r : AgentReleaseAssessment F)
      → evaluated ≡ ok r
      → validate_release_observation (agent_release_observation r) ≡ ok tt
  evaluated-validates r returned =
      agent_release_observation-validates h r (evaluated-parts r returned).valid

  -- An assessment that is eligible for review is made of captures of one system, of enough cases and
  -- enough captures, whose grounded reports are adjudicated, and between two consecutive ones of which
  -- no metric has deteriorated by more than its limit.
  pub eligible-IsReleasable :
      (r : AgentReleaseAssessment F)
      → evaluated ≡ ok r
      → r.payload.status ≡ ReleaseStatus.eligible_for_human_review
      → IsReleasable r
  unfolding assessment_of in_order
  eligible-IsReleasable r returned eligible =
      let m = evaluated-parts r returned in
      let first = m.first in
      let rest = m.rest in
      let status : (assessment_of f digest h policy relationship first rest m.first_grounded
            m.rest_grounded drift_reports generated_at).payload.status
          ≡ ReleaseStatus.eligible_for_human_review =
        subst (λ r. r.payload.status ≡ ReleaseStatus.eligible_for_human_review) (sym m.made)
          eligible in
      let system : (first.system) ≡ r.payload.agent_system =
        ap (λ r. r.payload.agent_system) m.made in
      let passed =
        release_status-eligible
          (gates f digest policy relationship drift_reports first rest m.first_grounded
            m.rest_grounded)
          status in
      let (identity_ok, benchmark_ok, sizes_ok, answers_ok, drift_ok) =
        passed_parts f digest policy relationship drift_reports first rest m.first_grounded
          m.rest_grounded passed in
      let (count, total, each) =
        sizes-passed f digest policy relationship drift_reports first rest m.first_grounded
          m.rest_grounded sizes_ok in
      let le =
        λ (a b : AgentTrajectoryScoreReport F). leb a.captured_at.instant b.captured_at.instant in
      record {
        one_system =
            subst (λ s. all (λ t. same_system f t.system s) trajectory_reports ≡ true) system
              (sym (all-sorted (λ t. same_system f t.system first.system) le trajectory_reports)
                ∙ ap (all (λ t. same_system f t.system first.system)) m.ordered
                ∙ identity-passed f digest policy relationship drift_reports first rest
                    m.first_grounded m.rest_grounded identity_ok);
        relationship_cases =
            benchmark-passed f digest policy relationship drift_reports first rest m.first_grounded
              m.rest_grounded benchmark_ok;
        captures =
            subst (λ n. policy.payload.min_trajectory_capture_count ≤ n)
              (ap length (sym m.ordered) ∙ length-sorted le trajectory_reports) count;
        total =
            subst (λ n. policy.payload.min_total_trajectory_case_count ≤ n)
              (ap (sum_by (λ t. t.case_count)) (sym m.ordered)
                ∙ sum_by-sorted (λ t. t.case_count) le trajectory_reports)
              total;
        sizes =
            sym (
              all-sorted (λ t. leb policy.payload.min_case_count_per_capture t.case_count) le
                trajectory_reports)
            ∙ ap (all (λ t. leb policy.payload.min_case_count_per_capture t.case_count)) m.ordered
            ∙ each;
        adjudicated =
            bind_grounded-adjudicated grounded_reports (in_order trajectory_reports)
              (m.first_grounded ∷ m.rest_grounded) m.bound
              (answers-passed f digest policy relationship drift_reports first rest m.first_grounded
                m.rest_grounded answers_ok);
        steady =
            subst
              (λ ts.
                All (λ p. IsTolerated f policy.payload.drift_thresholds p.0.overall p.1.overall)
                  (consecutive_reports ts))
              (sym m.ordered)
              (drift-passed f digest policy relationship drift_reports first rest m.first_grounded
                m.rest_grounded drift_ok);
      }
