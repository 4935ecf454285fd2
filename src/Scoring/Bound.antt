-- ===== src/Scoring/Bound.antt =====
-- An imported batch is bound to its inputs.
use atlas_pulse.Prelude.{
  true, some, List, [], ◌∷◌, map, All, unique, ok, Result-cases, ◌==◌, text_eq, nat_eq, arith, refl,
  ◌≡◌, ==→eq, sorted, Bool-cases, ==_refl, sym, ◌∙◌,
}
use mathlib.Core.Path.{subst}
use atlas_pulse.Prelude.Order.{text_leb, canonical, same_set}
use atlas_pulse.Polling.Types.{Datetime}
use atlas_pulse.Release.Types.{texts_eq}
use atlas_pulse.Trajectory.Types.{
  AgentTrajectoryCase, AgentTrajectoryBatch, AgentTrajectorySubmission, GroundedAnswerTaskCase,
  GroundedAnswerTask, GroundedAnswerClaim, GroundedAnswerCandidateCase,
  GroundedAnswerCandidateBatch, TrajectoryEnv, answer_status_eq,
}
use atlas_pulse.Trajectory.{all_ids}
use atlas_pulse.Trajectory.Import.{
  case_of, task_case_id, candidate_case_id, check_task_batch, case_with,
  apply_agent_trajectory_submission,
}
use atlas_pulse.Trajectory.Imported.{IsImported, apply-IsImported}
use atlas_pulse.Trajectory.Lookups.{Finds, Finds-unique, case_of-All, is_subset_self}
use atlas_pulse.Scoring.Types.{GroundedAnswerCaseOutcome}
use atlas_pulse.Scoring.Bind.{
  outcome_case_id, trace_case_id, candidate_response_sha256, matches_inputs, check_case,
  check_cases, validate_case_bindings,
}
use atlas_pulse.Scoring.Judged.{the_case-of, first_case-of, Judges, Judges-ids, Judges-found}

module _ {F : Type 0} (env : TrajectoryEnv F) where
  matches_inputs-case_with :
      (t : GroundedAnswerTaskCase) (a : GroundedAnswerCandidateCase F)
      (g : GroundedAnswerCaseOutcome) (c : AgentTrajectoryCase F)
      → c ≡ case_with env t a c.steps c.capabilities
      → t.query_id ≡ a.query_id
      → g.query_id ≡ a.query_id
      → g.response_status ≡ a.response.status
      → env.floats.same a.latency_ms a.latency_ms ≡ true
      → matches_inputs env t a g (env.response_digest a.response) c ≡ true
  unfolding matches_inputs case_with
  matches_inputs-case_with t a g c protected same_query queries statuses latency =
      subst (λ c. matches_inputs env t a g (env.response_digest a.response) c ≡ true)
        (sym protected)
        (rw
          (
            queries,
            statuses,
            same_query,
            latency,
            ==_refl a.query_id,
            ==_refl a.response.status,
            ==_refl t.pack_id,
            ==_refl (env.response_digest a.response),
            ==_refl a.input_tokens,
            ==_refl a.output_tokens,
            ==_refl (sorted text_leb t.evidence_ids),
            ==_refl (
                canonical
                  (all_ids (λ (c : GroundedAnswerClaim). c.evidence_ids) a.response.claims)),
            ==_refl
                (sorted text_leb (map (λ (c : GroundedAnswerClaim). c.claim_id) a.response.claims)),
          )
          refl)

  module _ (task : GroundedAnswerTask) (batch : GroundedAnswerCandidateBatch F)
      (submission : AgentTrajectorySubmission F) (observed_at : Datetime)
      (b : AgentTrajectoryBatch F) (grounded : List GroundedAnswerCaseOutcome) where
    -- No latency of a candidate is a NaN.
    abbrev pub LatenciesAreNumbers : Type 0
    LatenciesAreNumbers = All (λ a. env.floats.same a.latency_ms a.latency_ms ≡ true) batch.cases

    check_case-imported :
        (traces : List (AgentTrajectoryCase F)) (c : AgentTrajectoryCase F)
        → IsImported env task batch submission c
        → case_of (trace_case_id env) c.case_id traces ≡ some c
        → unique (map candidate_case_id batch.cases) ≡ true
        → Judges batch.cases grounded
        → LatenciesAreNumbers
        → check_case env task batch traces grounded c.case_id ≡ ok tt
    unfolding check_case candidate_response_sha256
    check_case-imported traces c imported found fresh judged numbers =
        let i = imported in
        let (g, found_g, queries, statuses) =
          Judges-found c.case_id batch.cases grounded i.candidate judged i.in_batch in
        let latency =
          case_of-All candidate_case_id (λ a. env.floats.same a.latency_ms a.latency_ms ≡ true)
            c.case_id batch.cases i.candidate numbers i.in_batch in
        rw
          (
            the_case-of task_case_id c.case_id task.cases i.task_case i.in_task,
            the_case-of candidate_case_id c.case_id batch.cases i.candidate i.in_batch,
            the_case-of (trace_case_id env) c.case_id traces c found,
            the_case-of outcome_case_id c.case_id grounded g found_g,
            first_case-of candidate_case_id c.case_id batch.cases i.candidate fresh i.in_batch,
            matches_inputs-case_with i.task_case i.candidate g c i.protected i.same_query queries
                statuses latency,
          )
          refl

    check_cases-imported :
        (traces cases : List (AgentTrajectoryCase F))
        → All (IsImported env task batch submission) cases
        → Finds (trace_case_id env) traces cases
        → unique (map candidate_case_id batch.cases) ≡ true
        → Judges batch.cases grounded
        → LatenciesAreNumbers
        → check_cases env task batch traces grounded (map (λ c. c.case_id) cases) ≡ ok tt
    unfolding check_cases
    check_cases-imported traces [] imported found fresh judged numbers = refl
    check_cases-imported traces (c ∷ cases) (first, imported) (found_first, found) fresh judged
          numbers =
        rw (check_case-imported traces c first found_first fresh judged numbers)
          (check_cases-imported traces cases imported found fresh judged numbers)

    check_task_batch-ids :
        check_task_batch task batch ≡ ok tt
        → map task_case_id task.cases ≡ map candidate_case_id batch.cases
    unfolding check_task_batch
    check_task_batch-ids h = ground (
      arith,
      ==→eq (map task_case_id task.cases) (map candidate_case_id batch.cases),
      Bool-cases (map task_case_id task.cases == map candidate_case_id batch.cases),
      Bool-cases (batch.task_id == task.task_id),
      Bool-cases (batch.task_sha256 == task.task_sha256),
    )

    apply-checked :
        apply_agent_trajectory_submission env task batch submission observed_at ≡ ok b
        → check_task_batch task batch ≡ ok tt
    unfolding apply_agent_trajectory_submission
    apply-checked h = ground (arith, Result-cases (check_task_batch task batch))

    -- A batch that is imported passes the binding that scoring makes of it: the same cases in all
    -- inputs, and no field changed. The ids of the task are unique and in order, the outcomes
    -- judge the candidates in their order, and no latency is a NaN.
    pub imported-validate_case_bindings :
        canonical (map task_case_id task.cases) ≡ map task_case_id task.cases
        → unique (map task_case_id task.cases) ≡ true
        → Judges batch.cases grounded
        → LatenciesAreNumbers
        → apply_agent_trajectory_submission env task batch submission observed_at ≡ ok b
        → validate_case_bindings env task batch b.payload.cases grounded ≡ ok tt
    unfolding validate_case_bindings same_set
    imported-validate_case_bindings ordered fresh judged numbers h =
        let (imported, traced_ids) = apply-IsImported env task batch submission observed_at b h in
        let ids = traced_ids ∙ ordered in
        let candidate_ids = check_task_batch-ids (apply-checked h) in
        let fresh_candidates = subst (λ i. unique i ≡ true) candidate_ids fresh in
        let checked =
          check_cases-imported b.payload.cases b.payload.cases imported
            (Finds-unique (trace_case_id env) b.payload.cases
              (subst (λ i. unique i ≡ true) (sym ids) fresh))
            fresh_candidates judged numbers in
        rw
          (
            ids,
            sym candidate_ids,
            Judges-ids batch.cases grounded judged ∙ sym candidate_ids,
            is_subset_self (map task_case_id task.cases),
            ordered,
          )
          (subst (λ i. check_cases env task batch b.payload.cases grounded i ≡ ok tt) ids checked)
