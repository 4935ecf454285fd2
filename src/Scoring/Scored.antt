-- ===== src/Scoring/Scored.antt =====
-- What a score says of its inputs.
use atlas_pulse.Prelude.{
  ℕ, ◌≤◌, Bool, true, some, List, [], ◌∷◌, length, map, All, ok, Option-cases, Result-cases,
  returns_before, Text, arith, refl, ◌≡◌, ◌↔◌, sym, ap, ◌∙◌,
}
use mathlib.Core.Path.{subst}
use atlas_pulse.Prelude.Order.{canonical, distinct_texts}
use atlas_pulse.Polling.Types.{Datetime}
use atlas_pulse.Trajectory.Types.{
  AgentTrajectoryCase, AgentTrajectoryBatch, GroundedAnswerTask, GroundedAnswerCandidateCase,
  GroundedAnswerCandidateBatch,
}
use atlas_pulse.Trajectory.Import.{case_of, task_case_id, candidate_case_id}
use atlas_pulse.Trajectory.Lookups.{case_of-id, case_of-All}
use atlas_pulse.Scoring.Types.{
  AgentTrajectoryCaseOutcome, GroundedAnswerCaseOutcome, GroundedScore, ScorePayload, ScoreEnv,
}
use atlas_pulse.Scoring.{claim_evidence, validate_result, outcome_of, trajectory_outcome}
use atlas_pulse.Scoring.Bind.{outcome_case_id, the_case, trace_case_id, validate_case_bindings}
use atlas_pulse.Scoring.Summary.{f, draft_summary, summarize_outcomes}
use atlas_pulse.Scoring.Score.{
  check_score_time, validate_report, check_inputs, score_case, score_cases, summarize_slices,
  slice_names, score_of, score_agent_trajectory,
}
use atlas_pulse.Scoring.Passes.{ExactRates, PassesStrictly, outcome_of-PassesStrictly}

the_case-found :
    {A : Type 0} (id_of : A → Text) (id : Text) (cases : List A) (c : A)
    → the_case id_of id cases ≡ ok c
    → case_of id_of id cases ≡ some c
unfolding the_case
the_case-found id_of id cases c h = ground (arith, Option-cases (case_of id_of id cases))

module _ {F : Type 0} (env : ScoreEnv F) (task : GroundedAnswerTask)
    (batch : GroundedAnswerCandidateBatch F) (grounded : GroundedScore F)
    (b : AgentTrajectoryBatch F) where
  -- The outcome of a case: of its trace, for the claims of its candidate, with its adjudicated outcome. It
  -- passes end to end exactly if the trace passes strictly and the adjudicated answer does.
  pub record IsScored (o : AgentTrajectoryCaseOutcome F) : Type 0 where
    pub candidate : GroundedAnswerCandidateCase F
    pub trace : AgentTrajectoryCase F
    pub judged : GroundedAnswerCaseOutcome
    pub in_batch : case_of candidate_case_id o.case_id batch.cases ≡ some candidate
    pub in_traces : case_of (trace_case_id env.trajectory) o.case_id b.payload.cases ≡ some trace
    pub in_grounded : case_of outcome_case_id o.case_id grounded.outcomes ≡ some judged
    pub made :
        o ≡ outcome_of (f env) trace judged.strict_pass (claim_evidence candidate.response.claims)
    pub valid : validate_result (f env) o ≡ ok tt
    pub end_to_end : (o.strict_end_to_end_pass ≡ true) ↔ (
        PassesStrictly trace (claim_evidence candidate.response.claims)
        × (judged.strict_pass ≡ true))

  module _ (bound : ℕ) (exact : ExactRates (f env) bound)
      (few_ids : All
        (λ (c : AgentTrajectoryCase F). length (distinct_texts c.required_evidence_ids) ≤ bound)
        b.payload.cases)
      (few_claims : All
        (λ (a : GroundedAnswerCandidateCase F). length (claim_evidence a.response.claims) ≤ bound)
        batch.cases) where
    outcome_of-end_to_end :
        (c : AgentTrajectoryCase F) (a : GroundedAnswerCandidateCase F) (passed : Bool)
        → length (distinct_texts c.required_evidence_ids) ≤ bound
        → length (claim_evidence a.response.claims) ≤ bound
        → ((outcome_of (f env) c passed (claim_evidence a.response.claims)).strict_end_to_end_pass
            ≡ true)
          ↔ (PassesStrictly c (claim_evidence a.response.claims) × (passed ≡ true))
    unfolding outcome_of
    outcome_of-end_to_end c a passed ids claims =
        let (strict, made) =
          outcome_of-PassesStrictly (f env) bound exact c (claim_evidence a.response.claims) passed
            ids claims in
        (
          (λ h. (strict (ground arith), ground arith)),
          (λ (passes, judged). ground (arith, made passes)),
        )

    score_case-IsScored :
        (id : Text) (o : AgentTrajectoryCaseOutcome F)
        → score_case env task batch grounded b id ≡ ok o
        → IsScored o × (o.case_id ≡ id)
    unfolding score_case trajectory_outcome outcome_of
    score_case-IsScored id o h =
        let (a, found_a, h1) = returns_before (the_case candidate_case_id id batch.cases) _ o h in
        let (c, found_c, h2) =
          returns_before (the_case (trace_case_id env.trajectory) id b.payload.cases) _ o h1 in
        let (g, found_g, h3) =
          returns_before (the_case outcome_case_id id grounded.outcomes) _ o h2 in
        let claims = claim_evidence a.response.claims in
        let built = outcome_of (f env) c g.strict_pass claims in
        let valid : validate_result (f env) built ≡ ok tt =
          ground (arith, Result-cases (validate_result (f env) built)) in
        let same : built ≡ o = ground (arith, valid) in
        let in_batch = the_case-found candidate_case_id id batch.cases a found_a in
        let in_traces =
          the_case-found (trace_case_id env.trajectory) id b.payload.cases c found_c in
        let in_grounded = the_case-found outcome_case_id id grounded.outcomes g found_g in
        let same_id : o.case_id ≡ id =
          ap (λ o. o.case_id) (sym same)
          ∙ case_of-id (trace_case_id env.trajectory) id b.payload.cases c in_traces in
        (
          record {
            candidate = a;
            trace = c;
            judged = g;
            in_batch =
                subst (λ i. case_of candidate_case_id i batch.cases ≡ some a) (sym same_id)
                  in_batch;
            in_traces =
                subst (λ i. case_of (trace_case_id env.trajectory) i b.payload.cases ≡ some c)
                  (sym same_id) in_traces;
            in_grounded =
                subst (λ i. case_of outcome_case_id i grounded.outcomes ≡ some g) (sym same_id)
                  in_grounded;
            made = sym same;
            valid = subst (λ o. validate_result (f env) o ≡ ok tt) same valid;
            end_to_end =
                subst
                  (λ (o : AgentTrajectoryCaseOutcome F).
                    (o.strict_end_to_end_pass ≡ true)
                    ↔ (PassesStrictly c claims × (g.strict_pass ≡ true)))
                  same
                  (outcome_of-end_to_end c a g.strict_pass
                    (case_of-All (trace_case_id env.trajectory)
                      (λ (c : AgentTrajectoryCase F).
                        length (distinct_texts c.required_evidence_ids) ≤ bound)
                      id b.payload.cases c few_ids in_traces)
                    (case_of-All candidate_case_id
                      (λ (a : GroundedAnswerCandidateCase F).
                        length (claim_evidence a.response.claims) ≤ bound)
                      id batch.cases a few_claims in_batch));
          },
          same_id,
        )

    score_cases-IsScored :
        (ids : List Text) (outcomes : List (AgentTrajectoryCaseOutcome F))
        → score_cases env task batch grounded b ids ≡ ok outcomes
        → All IsScored outcomes × (map (λ o. o.case_id) outcomes ≡ ids)
    unfolding score_cases
    score_cases-IsScored [] outcomes h =
        let none : [] ≡ outcomes = ground arith in
        subst (λ os. All IsScored os × (map (λ o. o.case_id) os ≡ [])) none (tt, refl)
    score_cases-IsScored (id ∷ ids) outcomes h =
        let (o, scored, h1) =
          returns_before (score_case env task batch grounded b id) _ outcomes h in
        let (rest, scored_rest, h2) =
          returns_before (score_cases env task batch grounded b ids) _ outcomes h1 in
        let (is_scored, same_id) = score_case-IsScored id o scored in
        let (are_scored, same_ids) = score_cases-IsScored ids rest scored_rest in
        let same : (o ∷ rest) ≡ outcomes = ground arith in
        subst (λ os. All IsScored os × (map (λ o. o.case_id) os ≡ (id ∷ ids))) same
          ((is_scored, are_scored), rw (same_id, same_ids) refl)

    -- Where quotients of counts up to a bound are 1.0 exactly for equal counts, and no case has
    -- more required evidence or claims than the bound: the outcomes of a score are those of the
    -- cases of the task, in the order of their ids, each made of the trace, the claims and the
    -- adjudicated outcome of its id; it passes end to end exactly if the trace passes strictly
    -- and the adjudicated answer does. The overall summary is that of these outcomes.
    pub score-IsScored :
        (generated_at : Datetime) (p : ScorePayload F)
        → score_agent_trajectory env task batch grounded b generated_at ≡ ok p
        → All IsScored p.outcomes
          × (map (λ o. o.case_id) p.outcomes ≡ canonical (map task_case_id task.cases))
          × (p.report.overall ≡ draft_summary env p.outcomes)
    unfolding score_agent_trajectory score_of
    score-IsScored generated_at p h =
        let (_, _, h1) = returns_before (check_inputs env task batch grounded b) _ p h in
        let (_, _, h2) =
          returns_before
            (validate_case_bindings env.trajectory task batch b.payload.cases grounded.outcomes) _ p
            h1 in
        let (outcomes, scored, h3) =
          returns_before
            (score_cases env task batch grounded b (canonical (map task_case_id task.cases))) _ p
            h2 in
        let (summaries, _, h4) =
          returns_before (summarize_slices env task batch grounded b outcomes (slice_names task)) _
            p h3 in
        let (_, _, h5) = returns_before (check_score_time generated_at) _ p h4 in
        let (_, _, h6) = returns_before (summarize_outcomes env outcomes) _ p h5 in
        let made = score_of env task batch grounded b generated_at outcomes summaries in
        let same : made ≡ p = ground (arith, Result-cases (validate_report env made)) in
        let (are_scored, ids) =
          score_cases-IsScored (canonical (map task_case_id task.cases)) outcomes scored in
        subst
          (λ (p : ScorePayload F).
            All IsScored p.outcomes
            × (map (λ o. o.case_id) p.outcomes ≡ canonical (map task_case_id task.cases))
            × (p.report.overall ≡ draft_summary env p.outcomes))
          same (are_scored, ids, refl)
