-- ===== src/Tests/Scoring.antt =====
-- The score of a trace.
use atlas_pulse.Prelude.{
  ℕ, none, ◌*◌, ◌≤◌, ◌≡◌, ◌↔◌, true, [], ◌∷◌, map, All, codes, ok, refl, ◌==◌, nat_eq, ==→eq,
  ==_refl, Bool-cases, ℕ_discrete, arith,
}
use atlas_pulse.Prelude.Order.{canonical}
use atlas_pulse.Drift.{is_bounded, same_system}
use atlas_pulse.Trajectory.Types.{AnswerStatus}
use atlas_pulse.Trajectory.Import.{task_case_id}
use atlas_pulse.Scoring.Types.{
  AgentTrajectoryCaseOutcome, GroundedAnswerCaseOutcome, GroundedScore, ScorePayload, ScoreEnv,
}
use atlas_pulse.Scoring.{
  inspected_of, drafts_claim, draft_of, is_traced, is_consistent, claim_evidence, is_compliant,
  rate_or, number_of, is_rate, is_near, validate_result, outcome_of, trajectory_outcome,
}
use atlas_pulse.Scoring.Bind.{
  the_case, first_case, candidate_response_sha256, matches_inputs, check_case, check_cases,
  validate_case_bindings,
}
use atlas_pulse.Scoring.Summary.{
  sum, count_of, element, float_of, percentile, mean, is_at_least_one, is_step_count, rates_of,
  validate_counts, draft_summary, summarize_outcomes,
}
use atlas_pulse.Scoring.Score.{
  slice_names, check_score_time, same_summary, agent_trajectory_report_sha256, validate_report,
  check_inputs, score_case, score_cases, selected, summarize_slices, score_of,
  score_agent_trajectory,
}
use atlas_pulse.Scoring.Passes.{ExactRates, PassesStrictly, outcome_of-PassesStrictly}
use atlas_pulse.Scoring.Bound.{imported-validate_case_bindings}
use atlas_pulse.Scoring.Scored.{IsScored, score-IsScored}
use atlas_pulse.Scoring.Returns.{RateLaws, trajectory_outcome-returns}
use atlas_pulse.Tests.Polling.{at}
use atlas_pulse.Tests.Release.{digest, system}
use atlas_pulse.Tests.Trajectory.{
  trajectory_program, scores, trajectories, task, answer, answers, traced, traces, submission,
}

unfoldable pub scoring_program : Unit {0}
unfolding trajectory_program same_system inspected_of drafts_claim draft_of is_traced is_consistent
    claim_evidence is_compliant rate_or number_of is_rate is_near validate_result outcome_of
    trajectory_outcome the_case first_case candidate_response_sha256 matches_inputs check_case
    check_cases validate_case_bindings sum count_of element float_of percentile mean is_at_least_one
    is_step_count rates_of validate_counts draft_summary summarize_outcomes slice_names
    check_score_time same_summary agent_trajectory_report_sha256 validate_report check_inputs
    score_case score_cases selected summarize_slices score_of score_agent_trajectory
scoring_program = tt

abbrev score_env : ScoreEnv ℕ
score_env = record {
  trajectory = trajectories;
  mul = λ a b. a * b;
  truncate = λ a. a;
  fraction95 = 1;
  is_normalized = λ t. true;
  score_digest = λ p. digest;
}

ratio_is_one :
    (a b : ℕ)
    → a ≤ b
    → 1 ≤ b
    → b ≤ 64
    → (scores.same (scores.ratio a b) scores.one ≡ true) ↔ (a ≡ b)
ratio_is_one a b le some_of_them few =
    let single = ==→eq b 1 in
    let equal = ==→eq a b in
    (
      (λ h. ground (
        arith,
        single,
        equal,
        ==→eq a 1,
        ==→eq {A = ℕ} 0 1,
        Bool-cases (b == 1),
        Bool-cases (a == b),
      )),
      (λ h. ground (
        arith,
        single,
        equal,
        ==_refl b,
        ==_refl {A = ℕ} 1,
        Bool-cases (b == 1),
        Bool-cases (a == b),
      )),
    )

exact_rates : ExactRates scores 64
unfolding ℕ_discrete
exact_rates = record { one_is_one = refl; ratio_is_one = ratio_is_one }

ratio_is_rate : (a b : ℕ) → a ≤ b → 1 ≤ b → is_rate scores (scores.ratio a b) ≡ true
unfolding is_rate is_bounded
ratio_is_rate a b le some_of_them =
    ground (arith, ==→eq b 1, Bool-cases (b == 1), Bool-cases (a == b))

near_self : (x : ℕ) → is_near scores x x ≡ true
unfolding is_near
near_self x = ground arith

rate_laws : RateLaws scores
unfolding is_rate is_bounded
rate_laws = record {
  zero_is_rate = refl;
  one_is_rate = refl;
  ratio_is_rate = ratio_is_rate;
  near_self = λ x h. near_self x;
}

abbrev judged : GroundedAnswerCaseOutcome
judged = record {
  case_id = codes "answer-case-1";
  query_id = codes "query-1";
  response_status = AnswerStatus.answered;
  strict_pass = true;
}

abbrev grounded : GroundedScore ℕ
grounded = record {
  report = record {
    report_id = codes "grounded-report-1";
    report_sha256 = digest;
    task_id = codes "grounded-task-1";
    task_sha256 = digest;
    batch_id = codes "grounded-batch-1";
    batch_sha256 = digest;
    is_adjudicated = true;
    system = system;
    case_count = 1;
    answered_case_count = 1;
    strict_case_pass_rate = 1;
    unsupported_or_contradicted_claim_rate = none;
    complete_citation_rate = none;
  };
  outcomes = judged ∷ [];
}

abbrev outcome : AgentTrajectoryCaseOutcome ℕ
unfolding scoring_program
outcome = outcome_of scores traced true (claim_evidence answer.response.claims)

abbrev score : ScorePayload ℕ
unfolding scoring_program
score =
    score_of score_env task answers grounded traces (at 9) (outcome ∷ [])
      ((codes "all", draft_summary score_env (outcome ∷ [])) ∷ [])

outcome_of-PassesStrictly_example :
    ((outcome_of scores traced true (claim_evidence answer.response.claims)).strict_trajectory_pass
      ≡ true)
    ↔ PassesStrictly traced (claim_evidence answer.response.claims)
unfolding scoring_program
outcome_of-PassesStrictly_example =
    outcome_of-PassesStrictly scores 64 exact_rates traced (claim_evidence answer.response.claims)
      true (omega arith) (omega arith)

trajectory_outcome-returns_example :
    trajectory_outcome scores traced true (claim_evidence answer.response.claims) ≡ ok outcome
unfolding scoring_program
trajectory_outcome-returns_example =
    trajectory_outcome-returns trajectories rate_laws traced true
      (claim_evidence answer.response.claims) refl

imported-validate_case_bindings_example :
    validate_case_bindings trajectories task answers traces.payload.cases (judged ∷ []) ≡ ok tt
unfolding scoring_program
imported-validate_case_bindings_example =
    imported-validate_case_bindings trajectories task answers submission (at 7) traces (judged ∷ [])
      refl refl (refl, refl, refl, tt) (refl, tt) refl

score-IsScored_example :
    All (IsScored score_env task answers grounded traces) score.outcomes
    × (map (λ o. o.case_id) score.outcomes ≡ canonical (map task_case_id task.cases))
    × (score.report.overall ≡ draft_summary score_env score.outcomes)
unfolding scoring_program
score-IsScored_example =
    score-IsScored score_env task answers grounded traces 64 exact_rates (omega arith, tt)
      (omega arith, tt) (at 9) score refl
