-- ===== src/Release/Passed.antt =====
-- The gates of Release/Gates that have passed, group by group.
use atlas_pulse.Prelude.{
  ◌≤◌, true, List, [], ◌∷◌, ◌++◌, length, all, All, keep, sum_by, leb, text_eq, nat_eq, Text, arith,
  refl, ◌≡◌,
}
use atlas_pulse.Release.Types.{
  ReleaseStatus, AgentReleaseGate, AgentReleaseThresholdPolicy, drift_status_eq, status_eq,
}
use atlas_pulse.Release.{is_blocked, is_passed, release_status}
use atlas_pulse.Release.Observed.{is_empty-true}
use atlas_pulse.Release.Reports.{
  GroundedAnswerEvaluationReport, RelationshipCandidateComparisonReport,
}
use atlas_pulse.Release.Measures.{consecutive_reports, drift_chain_complete, drift_stable}
use atlas_pulse.Release.Gates.{
  new_gate, systems_stable, identity_gate, relationship_gates, capture_gates, grounded_gates,
  quality_gates, drift_gates, gates_of,
}
use atlas_pulse.Drift.Types.{
  Floats, AgentTrajectoryScoreReport, DriftPayload, AgentTrajectoryDriftReport,
}
use atlas_pulse.Drift.{same_system}
use atlas_pulse.Drift.Tolerated.{IsTolerated}
use atlas_pulse.Prelude.Sorted.{all_parts}
use atlas_pulse.Release.Captures.{min_count-bounds, tolerated_pairs}

none_blocked :
    (gates : List AgentReleaseGate) → keep is_blocked gates ≡ [] → all is_passed gates ≡ true
none_blocked [] h = refl
none_blocked (g ∷ gates) h = ground (arith, none_blocked gates)

pub release_status-eligible :
    (gates : List AgentReleaseGate)
    → release_status gates ≡ ReleaseStatus.eligible_for_human_review
    → all is_passed gates ≡ true
unfolding release_status
release_status-eligible gates h =
    none_blocked gates (is_empty-true (keep is_blocked gates) (ground arith))

module _ {F : Type 0} (f : Floats F) (digest : DriftPayload F → Text)
    (policy : AgentReleaseThresholdPolicy F)
    (relationship : RelationshipCandidateComparisonReport F)
    (drift_reports : List (AgentTrajectoryDriftReport F)) (first : AgentTrajectoryScoreReport F)
    (rest : List (AgentTrajectoryScoreReport F)) (first_grounded : GroundedAnswerEvaluationReport F)
    (rest_grounded : List (GroundedAnswerEvaluationReport F)) where
  abbrev pub identity : List AgentReleaseGate
  identity =
      identity_gate f digest policy.payload relationship first rest first_grounded rest_grounded
        drift_reports

  abbrev pub benchmark : List AgentReleaseGate
  benchmark =
      relationship_gates f digest policy.payload relationship first rest first_grounded
        rest_grounded drift_reports

  abbrev pub sizes : List AgentReleaseGate
  sizes =
      capture_gates f digest policy.payload relationship first rest first_grounded rest_grounded
        drift_reports

  abbrev pub answers : List AgentReleaseGate
  answers =
      grounded_gates f digest policy.payload relationship first rest first_grounded rest_grounded
        drift_reports

  abbrev quality : List AgentReleaseGate
  quality =
      quality_gates f digest policy.payload relationship first rest first_grounded rest_grounded
        drift_reports

  abbrev pub drift : List AgentReleaseGate
  drift =
      drift_gates f digest policy.payload relationship first rest first_grounded rest_grounded
        drift_reports

  abbrev pub gates : List AgentReleaseGate
  gates =
      gates_of f digest policy.payload relationship first rest first_grounded rest_grounded
        drift_reports

  -- Where all gates have passed, so have those of each group.
  pub passed_parts :
      all is_passed gates ≡ true
      → (all is_passed identity ≡ true)
        × (all is_passed benchmark ≡ true)
        × (all is_passed sizes ≡ true)
        × (all is_passed answers ≡ true)
        × (all is_passed drift ≡ true)
  unfolding gates_of
  passed_parts passed =
      let (a, h1) =
        all_parts is_passed identity (benchmark ++ (sizes ++ (answers ++ (quality ++ drift))))
          passed in
      let (b, h2) = all_parts is_passed benchmark (sizes ++ (answers ++ (quality ++ drift))) h1 in
      let (c, h3) = all_parts is_passed sizes (answers ++ (quality ++ drift)) h2 in
      let (d, h4) = all_parts is_passed answers (quality ++ drift) h3 in
      (a, b, c, d, (all_parts is_passed quality drift h4).1)

  pub identity-passed :
      all is_passed identity ≡ true
      → all (λ t. same_system f t.system first.system) (first ∷ rest) ≡ true
  unfolding identity_gate new_gate systems_stable
  identity-passed h = ground arith

  pub benchmark-passed :
      all is_passed benchmark ≡ true
      → policy.payload.min_relationship_case_count ≤ relationship.case_count
  unfolding relationship_gates new_gate
  benchmark-passed h = ground arith

  pub sizes-passed :
      all is_passed sizes ≡ true
      → (policy.payload.min_trajectory_capture_count ≤ length (first ∷ rest))
        × (policy.payload.min_total_trajectory_case_count
            ≤ sum_by (λ t. t.case_count) (first ∷ rest))
        × (all (λ t. leb policy.payload.min_case_count_per_capture t.case_count) (first ∷ rest)
            ≡ true)
  unfolding capture_gates new_gate
  sizes-passed h = (
    ground arith,
    ground arith,
    ground (
      arith,
      min_count-bounds (λ t. t.case_count) policy.payload.min_case_count_per_capture
          first.case_count rest,
    ),
  )

  pub answers-passed :
      all is_passed answers ≡ true
      → all (λ g. g.is_adjudicated) (first_grounded ∷ rest_grounded) ≡ true
  unfolding grounded_gates new_gate
  answers-passed h = ground arith

  pub drift-passed :
      all is_passed drift ≡ true
      → All
          (λ p. IsTolerated f policy.payload.drift_thresholds p.0.overall p.1.overall)
          (consecutive_reports (first ∷ rest))
  unfolding drift_gates new_gate drift_stable drift_chain_complete
  drift-passed h =
      tolerated_pairs f digest policy.payload.drift_thresholds drift_reports
        (consecutive_reports (first ∷ rest)) (ground arith) (ground arith)
