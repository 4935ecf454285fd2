-- ===== src/Release/Captures.antt =====
-- The captures of an evaluation: their sizes, their grounded reports and the drift between them, as
-- Release/Evaluate measures them.
use atlas_pulse.Prelude.{
  ℕ, min, true, Option, none, some, List, [], ◌∷◌, map, all, All, OnSome, ok, raise_if, leb,
  text_eq, nat_eq, Text, arith, refl, ◌≡◌, ==→eq, Result-cases, Option-cases, inl, inr, sym,
  returns_before,
}
use mathlib.Core.Path.{subst}
use atlas_pulse.Release.Types.{
  DriftStatus, AgentTrajectoryDriftThresholds, drift_status_eq, status_eq,
}
use atlas_pulse.Release.Reports.{GroundedAnswerEvaluationReport, same_drift_report}
use atlas_pulse.Release.Measures.{min_count, drift_by_pair, is_expected, drift_matches, is_stable}
use atlas_pulse.Release.Evaluate.{grounded_mismatch, grounded_by_id, check_grounded, bind_grounded}
use atlas_pulse.Drift.Types.{
  Floats, AgentTrajectoryScoreReport, DriftPayload, AgentTrajectoryDriftReport,
}
use atlas_pulse.Drift.{compare_agent_trajectory_reports}
use atlas_pulse.Drift.Built.{compare-stable}
use atlas_pulse.Drift.Tolerated.{IsTolerated}

module _ {A : Type 0} (size : A → ℕ) where
  -- What is at most the least size is at most each of them.
  pub min_count-bounds :
      (limit least : ℕ) (xs : List A)
      → leb limit (min_count least (map size xs)) ≡ true
      → (leb limit least ≡ true) × (all (λ x. leb limit (size x)) xs ≡ true)
  unfolding min_count
  min_count-bounds limit least [] h = (h, refl)
  min_count-bounds limit least (x ∷ xs) h =
      ground (arith, min_count-bounds limit (min least (size x)) xs h)

module _ {F : Type 0} where
  check_grounded-parts :
      (t : AgentTrajectoryScoreReport F) (g : GroundedAnswerEvaluationReport F)
      (found : Option (GroundedAnswerEvaluationReport F))
      → check_grounded t found ≡ ok g
      → found ≡ some g
  unfolding check_grounded
  check_grounded-parts t g none h = cc
  check_grounded-parts t g (some x) h =
      let (_, _, same) = returns_before (raise_if _ grounded_mismatch) (λ _. ok x) g h in
      ground arith

  -- The bound grounded reports are those that the captures name.
  pub bind_grounded-adjudicated :
      (reports : List (GroundedAnswerEvaluationReport F))
      (ordered : List (AgentTrajectoryScoreReport F))
      (grounded : List (GroundedAnswerEvaluationReport F))
      → bind_grounded reports ordered ≡ ok grounded
      → all (λ g. g.is_adjudicated) grounded ≡ true
      → All
          (λ t. OnSome (grounded_by_id t.grounded_report_id reports) (λ g. g.is_adjudicated ≡ true))
          ordered
  unfolding bind_grounded
  bind_grounded-adjudicated reports [] grounded h passed = tt
  bind_grounded-adjudicated reports (t ∷ ordered) grounded h passed =
      let (g, bound, h1) =
        returns_before (check_grounded t (grounded_by_id t.grounded_report_id reports)) _ grounded
          h in
      let (rest, bound_rest, h2) = returns_before (bind_grounded reports ordered) _ grounded h1 in
      let same : (g ∷ rest) ≡ grounded = ground arith in
      let both : all (λ g. g.is_adjudicated) (g ∷ rest) ≡ true =
        subst (λ gs. all (λ g. g.is_adjudicated) gs ≡ true) (sym same) passed in
      let named = check_grounded-parts t g (grounded_by_id t.grounded_report_id reports) bound in
      (
        subst (λ found. OnSome found (λ g. g.is_adjudicated ≡ true)) (sym named) (ground arith),
        bind_grounded-adjudicated reports ordered rest bound_rest (ground arith),
      )

module _ {F : Type 0} (f : Floats F) (digest : DriftPayload F → Text)
    (policy : AgentTrajectoryDriftThresholds F)
    (drift_reports : List (AgentTrajectoryDriftReport F)) where
  same_status :
      (a b : AgentTrajectoryDriftReport F)
      → same_drift_report f a b ≡ true
      → a.payload.status ≡ b.payload.status
  unfolding same_drift_report
  same_status a b h = ==→eq a.payload.status b.payload.status (ground arith)

  expected_pair :
      (a b : AgentTrajectoryScoreReport F) (d : AgentTrajectoryDriftReport F)
      → is_expected f digest policy drift_reports a b d ≡ true
      → d.payload.status ≡ DriftStatus.stable
      → IsTolerated f policy a.overall b.overall
  unfolding is_expected
  expected_pair a b d expected stable =
      elim (Result-cases
        (compare_agent_trajectory_reports f digest a b policy d.payload.generated_at)) [
          | inl (e, compared) ↦
              let same : d.payload.status ≡ e.payload.status = same_status d e (ground arith) in
              (compare-stable f digest a b policy d.payload.generated_at e compared).0
                (ground arith)
          | inr (e, raised) ↦ absurd (ground arith)
        ]

  tolerated_pair :
      (a b : AgentTrajectoryScoreReport F)
      → drift_matches f digest policy drift_reports a b ≡ true
      → is_stable f digest policy drift_reports a b ≡ true
      → IsTolerated f policy a.overall b.overall
  unfolding drift_matches is_stable
  tolerated_pair a b matches stable =
      elim (Option-cases (drift_by_pair (a.report_id, b.report_id) drift_reports)) [
        | inl missing ↦ absurd (ground arith)
        | inr (d, found) ↦
            expected_pair a b d (ground arith)
              (ground (arith, ==→eq d.payload.status DriftStatus.stable))
      ]

  pub tolerated_pairs :
      (pairs : List (AgentTrajectoryScoreReport F × AgentTrajectoryScoreReport F))
      → all (λ p. drift_matches f digest policy drift_reports p.0 p.1) pairs ≡ true
      → all (λ p. is_stable f digest policy drift_reports p.0 p.1) pairs ≡ true
      → All (λ p. IsTolerated f policy p.0.overall p.1.overall) pairs
  tolerated_pairs [] matches stable = tt
  tolerated_pairs (p ∷ pairs) matches stable = (
    tolerated_pair p.0 p.1 (ground arith) (ground arith),
    tolerated_pairs pairs (ground arith) (ground arith),
  )
