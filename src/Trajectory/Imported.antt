-- ===== src/Trajectory/Imported.antt =====
-- What an imported batch holds.
use atlas_pulse.Prelude.{
  true, some, List, [], ◌∷◌, ◌++◌, length, map, All, keep, last?, range_from, ok, returns_before,
  Result-cases, Option-cases, Bool-cases, inl, inr, ◌==◌, text_eq, nat_eq, bool_eq, Text, arith,
  refl, ◌≡◌, ==→eq, sym, ap,
}
use mathlib.Core.Path.{subst}
use atlas_pulse.Prelude.Order.{canonical, is_subset}
use atlas_pulse.Polling.Types.{Datetime}
use atlas_pulse.Release.Types.{texts_eq}
use atlas_pulse.Trajectory.Types.{
  AgentTrajectoryStep, AgentTrajectorySubmissionCase, AgentTrajectorySubmission,
  AgentTrajectoryCase, AgentTrajectoryBatch, GroundedAnswerTaskCase, GroundedAnswerTask,
  GroundedAnswerCandidateCase, GroundedAnswerCandidateBatch, TrajectoryEnv, answer_status_eq,
}
use atlas_pulse.Prelude.{◌∙◌}
use atlas_pulse.Trajectory.{
  check_ids, not_evidence_id, is_evidence_id, not_claim_id, is_claim_id, validate_steps, is_final,
  ends_once, all_ids, validate_trace, validate_case, validate_batch, check_observed,
}
use atlas_pulse.Trajectory.Lookups.{case_of-id}
use atlas_pulse.Trajectory.Import.{
  case_of, require_case, task_case_id, candidate_case_id, submitted_case_id, steps_of,
  capabilities_of, check_task_batch, check_submission, case_with, import_row, import_case,
  import_cases, batch_of, apply_agent_trajectory_submission,
}

-- Of each element the ids are among the allowed ones.
abbrev pub NamesOnly : {A : Type 0} → (A → List Text) → List Text → List A → Type 0
NamesOnly ids allowed xs = All (λ x. is_subset (ids x) allowed ≡ true) xs

is_subset-parts :
    (xs ys allowed : List Text)
    → is_subset (xs ++ ys) allowed ≡ true
    → (is_subset xs allowed ≡ true) × (is_subset ys allowed ≡ true)
unfolding is_subset
is_subset-parts [] ys allowed h = (refl, h)
is_subset-parts (x ∷ xs) ys allowed h = ground (arith, is_subset-parts xs ys allowed)

all_ids-NamesOnly :
    {A : Type 0} (ids : A → List Text) (allowed : List Text) (xs : List A)
    → is_subset (all_ids ids xs) allowed ≡ true
    → NamesOnly ids allowed xs
unfolding all_ids
all_ids-NamesOnly ids allowed [] h = tt
all_ids-NamesOnly ids allowed (x ∷ xs) h =
    let (first, rest) = is_subset-parts (ids x) (all_ids ids xs) allowed h in
    (first, all_ids-NamesOnly ids allowed xs rest)

-- A trace in which the steps are numbered, end with the only final one, and name no evidence and no
-- claims but those of their case.
pub record IsTrace {F : Type 0} (c : AgentTrajectoryCase F) : Type 0 where
  pub numbered : map (λ s. s.sequence) c.steps ≡ range_from 1 (length c.steps)
  pub final_once : length (keep is_final c.steps) ≡ 1
  pub final_last : (s : AgentTrajectoryStep F) × (last? c.steps ≡ some s) × (is_final s ≡ true)
  pub evidence : NamesOnly (λ s. s.evidence_ids) c.available_evidence_ids c.steps
  pub claims : NamesOnly (λ s. s.claim_ids) c.required_claim_ids c.steps

module _ {F : Type 0} (env : TrajectoryEnv F) where
  ends_once-parts :
      (steps : List (AgentTrajectoryStep F))
      → ends_once steps ≡ true
      → (length (keep is_final steps) ≡ 1)
        × ((s : AgentTrajectoryStep F) × (last? steps ≡ some s) × (is_final s ≡ true))
  unfolding ends_once
  ends_once-parts steps h = elim (Option-cases (last? steps)) [
    | inl missing ↦ absurd (ground arith)
    | inr (s, found) ↦
        (ground (arith, ==→eq (length (keep is_final steps)) 1), (s, found, ground arith))
  ]

  validate_trace-IsTrace : (c : AgentTrajectoryCase F) → validate_trace env c ≡ ok tt → IsTrace c
  unfolding validate_trace
  validate_trace-IsTrace c h =
      let numbers : (map (λ s. s.sequence) c.steps == range_from 1 (length c.steps)) ≡ true =
        ground arith in
      let (once, last) = ends_once-parts c.steps (ground arith) in
      record {
        numbered = ==→eq (map (λ s. s.sequence) c.steps) (range_from 1 (length c.steps)) numbers;
        final_once = once;
        final_last = last;
        evidence =
            all_ids-NamesOnly (λ s. s.evidence_ids) c.available_evidence_ids c.steps (ground arith);
        claims = all_ids-NamesOnly (λ s. s.claim_ids) c.required_claim_ids c.steps (ground arith);
      }

  module _ (task : GroundedAnswerTask) (batch : GroundedAnswerCandidateBatch F)
      (submission : AgentTrajectorySubmission F) where
    -- An imported case: that of its id in the task and in the batch, with the trace of the submission.
    pub record IsImported (c : AgentTrajectoryCase F) : Type 0 where
      pub task_case : GroundedAnswerTaskCase
      pub candidate : GroundedAnswerCandidateCase F
      pub row : AgentTrajectorySubmissionCase F
      pub in_task : case_of task_case_id c.case_id task.cases ≡ some task_case
      pub in_batch : case_of candidate_case_id c.case_id batch.cases ≡ some candidate
      pub in_submission : case_of submitted_case_id c.case_id submission.cases ≡ some row
      pub same_query : task_case.query_id ≡ candidate.query_id
      pub protected : c ≡ case_with env task_case candidate c.steps c.capabilities
      pub steps_kept : row.steps ≡ some c.steps
      pub capabilities_kept : row.capabilities ≡ some c.capabilities
      pub traced : IsTrace c

    require_case-found :
        {A : Type 0} (id_of : A → Text) (id : Text) (cases : List A) (c : A)
        → require_case id_of id cases ≡ ok c
        → case_of id_of id cases ≡ some c
    unfolding require_case
    require_case-found id_of id cases c h = ground (arith, Option-cases (case_of id_of id cases))

    -- What a row is imported as.
    abbrev IsRow :
        GroundedAnswerTaskCase
        → GroundedAnswerCandidateCase F
        → AgentTrajectorySubmissionCase F
        → AgentTrajectoryCase F
        → Type 0
    IsRow t a row c =
        (c ≡ case_with env t a c.steps c.capabilities)
        × (row.steps ≡ some c.steps)
        × (row.capabilities ≡ some c.capabilities)
        × (validate_case env c ≡ ok tt)
        × (t.query_id ≡ a.query_id)

    import_row-IsRow :
        (t : GroundedAnswerTaskCase) (a : GroundedAnswerCandidateCase F)
        (row : AgentTrajectorySubmissionCase F) (c : AgentTrajectoryCase F)
        → import_row env t a row ≡ ok c
        → IsRow t a row c
    unfolding import_row steps_of capabilities_of case_with
    import_row-IsRow t a row c h = elim (Option-cases row.steps) [
      | inl missing ↦ absurd (ground (arith, Bool-cases (row.query_id == t.query_id)))
      | inr (steps, some_steps) ↦ elim (Option-cases row.capabilities) [
        | inl missing ↦ absurd (ground arith)
        | inr (capabilities, some_capabilities) ↦
            let built = case_with env t a steps capabilities in
            let same : built ≡ c = ground (arith, Result-cases (validate_case env built)) in
            let valid : validate_case env built ≡ ok tt =
              ground (arith, Result-cases (validate_case env built)) in
            let same_query : t.query_id ≡ a.query_id = ground (
              arith,
              ==→eq row.query_id t.query_id,
              ==→eq row.query_id a.query_id,
              Bool-cases (row.query_id == t.query_id),
              Bool-cases (row.query_id == a.query_id),
            ) in
            subst (IsRow t a row) same (refl, some_steps, some_capabilities, valid, same_query)
      ]
    ]

    validate_case-trace :
        (c : AgentTrajectoryCase F) → validate_case env c ≡ ok tt → validate_trace env c ≡ ok tt
    unfolding validate_case
    validate_case-trace c h = ground (
      arith,
      Result-cases (check_ids not_evidence_id is_evidence_id c.available_evidence_ids),
      Result-cases (check_ids not_evidence_id is_evidence_id c.required_evidence_ids),
      Result-cases (check_ids not_claim_id (is_claim_id env) c.required_claim_ids),
      Result-cases (validate_steps env c.steps),
    )

    import_case-IsImported :
        (id : Text) (c : AgentTrajectoryCase F)
        → import_case env task batch submission id ≡ ok c
        → IsImported c × (c.case_id ≡ id)
    unfolding import_case case_with
    import_case-IsImported id c h =
        let (t, found_t, h1) = returns_before (require_case task_case_id id task.cases) _ c h in
        let (a, found_a, h2) =
          returns_before (require_case candidate_case_id id batch.cases) _ c h1 in
        let (row, found_row, h3) =
          returns_before (require_case submitted_case_id id submission.cases) _ c h2 in
        let (same, steps_kept, capabilities_kept, valid, same_query) =
          import_row-IsRow t a row c h3 in
        let in_task = require_case-found task_case_id id task.cases t found_t in
        let same_id : c.case_id ≡ id =
          ap (λ c. c.case_id) same ∙ case_of-id task_case_id id task.cases t in_task in
        (
          record {
            task_case = t;
            candidate = a;
            row = row;
            in_task = subst (λ i. case_of task_case_id i task.cases ≡ some t) (sym same_id) in_task;
            in_batch =
                subst (λ i. case_of candidate_case_id i batch.cases ≡ some a) (sym same_id)
                  (require_case-found candidate_case_id id batch.cases a found_a);
            in_submission =
                subst (λ i. case_of submitted_case_id i submission.cases ≡ some row) (sym same_id)
                  (require_case-found submitted_case_id id submission.cases row found_row);
            same_query = same_query;
            protected = same;
            steps_kept = steps_kept;
            capabilities_kept = capabilities_kept;
            traced = validate_trace-IsTrace c (validate_case-trace c valid);
          },
          same_id,
        )

    import_cases-IsImported :
        (ids : List Text) (cases : List (AgentTrajectoryCase F))
        → import_cases env task batch submission ids ≡ ok cases
        → All IsImported cases × (map (λ c. c.case_id) cases ≡ ids)
    unfolding import_cases
    import_cases-IsImported [] cases h =
        let none : [] ≡ cases = ground arith in
        subst (λ cs. All IsImported cs × (map (λ c. c.case_id) cs ≡ [])) none (tt, refl)
    import_cases-IsImported (id ∷ ids) cases h =
        let (c, imported, h1) =
          returns_before (import_case env task batch submission id) _ cases h in
        let (rest, imported_rest, h2) =
          returns_before (import_cases env task batch submission ids) _ cases h1 in
        let (is_imported, same_id) = import_case-IsImported id c imported in
        let (are_imported, same_ids) = import_cases-IsImported ids rest imported_rest in
        let same : (c ∷ rest) ≡ cases = ground arith in
        subst (λ cs. All IsImported cs × (map (λ c. c.case_id) cs ≡ (id ∷ ids))) same
          ((is_imported, are_imported), rw (same_id, same_ids) refl)

    -- Every case of an imported batch is that of its id in the task and in the candidate batch, with the
    -- trace that was submitted for it, and the trace is well-formed. The cases are those of the task.
    pub apply-IsImported :
        (observed_at : Datetime) (b : AgentTrajectoryBatch F)
        → apply_agent_trajectory_submission env task batch submission observed_at ≡ ok b
        → All IsImported b.payload.cases
          × (map (λ c. c.case_id) b.payload.cases ≡ canonical (map task_case_id task.cases))
    unfolding apply_agent_trajectory_submission
    apply-IsImported observed_at b h =
        elim (Result-cases
          (import_cases env task batch submission (canonical (map task_case_id task.cases)))) [
            | inl (cases, imported) ↦
                let made : batch_of env task batch observed_at cases ≡ b = ground (
                  arith,
                  Result-cases (check_task_batch task batch),
                  Result-cases (check_submission task batch submission),
                  Result-cases (check_observed observed_at),
                  Result-cases (validate_batch env (batch_of env task batch observed_at cases)),
                ) in
                subst
                  (λ (b : AgentTrajectoryBatch F).
                    All IsImported b.payload.cases
                    × (map (λ c. c.case_id) b.payload.cases
                        ≡ canonical (map task_case_id task.cases)))
                  made
                  (unfold batch_of in
                    import_cases-IsImported (canonical (map task_case_id task.cases)) cases
                      imported)
            | inr (e, raised) ↦ absurd (
                ground (
                  arith,
                  Result-cases (check_task_batch task batch),
                  Result-cases (check_submission task batch submission),
                ))
          ]
