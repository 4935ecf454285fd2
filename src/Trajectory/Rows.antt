-- ===== src/Trajectory/Rows.antt =====
-- The rows of a template that are completed with traces, and the cases that they are imported as.
use atlas_pulse.Prelude.{
  true, some, List, [], ◌∷◌, length, map, ok, Result-cases, ◌==◌, text_eq, nat_eq, arith, refl, ◌≡◌,
  ==_refl, sym, ap,
}
use mathlib.Core.Path.{subst}
use atlas_pulse.Release.Types.{texts_eq}
use atlas_pulse.Trajectory.Types.{
  AgentTrajectoryStep, AgentCapabilityObservation, AgentTrajectorySubmissionCase,
  AgentTrajectorySubmission, AgentTrajectoryCase, GroundedAnswerTaskCase, GroundedAnswerTask,
  GroundedAnswerCandidateCase, GroundedAnswerCandidateBatch, TrajectoryEnv,
}
use atlas_pulse.Trajectory.{validate_case, validate_cases}
use atlas_pulse.Trajectory.Import.{
  case_of, task_case_id, candidate_case_id, submitted_case_id, empty_case, steps_of,
  capabilities_of, case_with, import_row, import_case, import_cases,
}
use atlas_pulse.Trajectory.Lookups.{Finds, require_case-of}

-- The trace of a case.
abbrev pub Trace : Type 0 → Type 0
Trace F = List (AgentTrajectoryStep F) × AgentCapabilityObservation

pub empty_case-ids :
    (F : Type 0) (cases : List GroundedAnswerTaskCase)
    → map submitted_case_id (map (empty_case {F = F}) cases) ≡ map task_case_id cases
unfolding empty_case
empty_case-ids F [] = refl
empty_case-ids F (c ∷ cases) = ap (◌∷◌ c.case_id) (empty_case-ids F cases)

module _ {F : Type 0} where
  -- The cases of a template, each with its trace.
  abbrev pub complete :
      List (AgentTrajectorySubmissionCase F)
      → List (Trace F)
      → List (AgentTrajectorySubmissionCase F)
  complete [] traces = []
  complete (c ∷ cases) [] = []
  complete (c ∷ cases) (t ∷ traces) =
      record c { steps = some t.0; capabilities = some t.1 } ∷ complete cases traces

  pub complete-ids :
      (cases : List GroundedAnswerTaskCase) (traces : List (Trace F))
      → length traces ≡ length cases
      → map submitted_case_id (complete (map empty_case cases) traces) ≡ map task_case_id cases
  unfolding empty_case
  complete-ids [] traces h = refl
  complete-ids (c ∷ cases) [] h = absurd (omega (arith, h))
  complete-ids (c ∷ cases) (t ∷ traces) h =
      ap (◌∷◌ c.case_id) (complete-ids cases traces (omega (arith, h)))

  -- The candidate answers the questions of the task in their order.
  abbrev pub Answers : List GroundedAnswerTaskCase → List (GroundedAnswerCandidateCase F) → Type 0
  Answers [] [] = Unit
  Answers [] (c ∷ candidates) = ⊥
  Answers (t ∷ tasks) [] = ⊥
  Answers (t ∷ tasks) (c ∷ candidates) =
      (t.case_id ≡ c.case_id) × (t.query_id ≡ c.query_id) × Answers tasks candidates

  pub Answers-ids :
      (tasks : List GroundedAnswerTaskCase) (candidates : List (GroundedAnswerCandidateCase F))
      → Answers tasks candidates
      → map task_case_id tasks ≡ map candidate_case_id candidates
  Answers-ids [] [] answers = refl
  Answers-ids [] (c ∷ candidates) answers = absurd answers
  Answers-ids (t ∷ tasks) [] answers = absurd answers
  Answers-ids (t ∷ tasks) (c ∷ candidates) (ids, queries, answers) =
      rw (ids, Answers-ids tasks candidates answers) refl

  abbrev row_completed : GroundedAnswerTaskCase → Trace F → AgentTrajectorySubmissionCase F
  row_completed t s = record {
    case_id = t.case_id;
    query_id = t.query_id;
    steps = some s.0;
    capabilities = some s.1;
  }

module _ {F : Type 0} (env : TrajectoryEnv F) where
  -- The cases that they are imported as.
  abbrev pub completed_cases :
      List GroundedAnswerTaskCase
      → List (GroundedAnswerCandidateCase F)
      → List (Trace F)
      → List (AgentTrajectoryCase F)
  completed_cases [] candidates traces = []
  completed_cases (t ∷ tasks) [] traces = []
  completed_cases (t ∷ tasks) (c ∷ candidates) [] = []
  completed_cases (t ∷ tasks) (c ∷ candidates) (s ∷ traces) =
      case_with env t c s.0 s.1 ∷ completed_cases tasks candidates traces

  import_row-completed :
      (t : GroundedAnswerTaskCase) (c : GroundedAnswerCandidateCase F) (s : Trace F)
      → t.query_id ≡ c.query_id
      → validate_case env (case_with env t c s.0 s.1) ≡ ok tt
      → import_row env t c (row_completed t s) ≡ ok (case_with env t c s.0 s.1)
  unfolding import_row steps_of capabilities_of
  import_row-completed t c s queries valid =
      let kept : (t.query_id == c.query_id) ≡ true =
        subst (λ q. (t.query_id == q) ≡ true) queries (==_refl t.query_id) in
      rw (==_refl t.query_id, kept, valid) refl

  module _ (task : GroundedAnswerTask) (batch : GroundedAnswerCandidateBatch F)
      (submission : AgentTrajectorySubmission F) where
    import_case-completed :
        (t : GroundedAnswerTaskCase) (c : GroundedAnswerCandidateCase F) (s : Trace F)
        → t.case_id ≡ c.case_id
        → t.query_id ≡ c.query_id
        → case_of task_case_id t.case_id task.cases ≡ some t
        → case_of candidate_case_id c.case_id batch.cases ≡ some c
        → case_of submitted_case_id t.case_id submission.cases ≡ some (row_completed t s)
        → validate_case env (case_with env t c s.0 s.1) ≡ ok tt
        → import_case env task batch submission t.case_id ≡ ok (case_with env t c s.0 s.1)
    unfolding import_case
    import_case-completed t c s ids queries found_t found_c found_s valid =
        let found : case_of candidate_case_id t.case_id batch.cases ≡ some c =
          subst (λ i. case_of candidate_case_id i batch.cases ≡ some c) (sym ids) found_c in
        rw
          (
            require_case-of task_case_id t.case_id task.cases t found_t,
            require_case-of candidate_case_id t.case_id batch.cases c found,
            require_case-of submitted_case_id t.case_id submission.cases (row_completed t s)
                found_s,
          )
          (import_row-completed t c s queries valid)

    pub import_cases-completed :
        (tasks : List GroundedAnswerTaskCase) (candidates : List (GroundedAnswerCandidateCase F))
        (traces : List (Trace F))
        → Answers tasks candidates
        → length traces ≡ length tasks
        → Finds task_case_id task.cases tasks
        → Finds candidate_case_id batch.cases candidates
        → Finds submitted_case_id submission.cases (complete (map empty_case tasks) traces)
        → validate_cases env (completed_cases tasks candidates traces) ≡ ok tt
        → import_cases env task batch submission (map task_case_id tasks)
          ≡ ok (completed_cases tasks candidates traces)
    unfolding import_cases validate_cases empty_case
    import_cases-completed [] [] traces answers same ft fc fs valid = refl
    import_cases-completed [] (c ∷ candidates) traces answers same ft fc fs valid = absurd answers
    import_cases-completed (t ∷ tasks) [] traces answers same ft fc fs valid = absurd answers
    import_cases-completed (t ∷ tasks) (c ∷ candidates) [] answers same ft fc fs valid =
        absurd (omega (arith, same))
    import_cases-completed (t ∷ tasks) (c ∷ candidates) (s ∷ traces) (ids, queries, answers) same
          (found_t, ft) (found_c, fc) (found_s, fs) valid =
        let row_found : case_of submitted_case_id t.case_id submission.cases
            ≡ some (row_completed t s) =
          found_s in
        let first =
          import_case-completed t c s ids queries found_t found_c row_found
            (ground (arith, Result-cases (validate_case env (case_with env t c s.0 s.1)))) in
        let rest =
          import_cases-completed tasks candidates traces answers (omega (arith, same)) ft fc fs
            (ground (arith, Result-cases (validate_case env (case_with env t c s.0 s.1)))) in
        rw (first, rest) refl

  pub completed_cases-ids :
      (tasks : List GroundedAnswerTaskCase) (candidates : List (GroundedAnswerCandidateCase F))
      (traces : List (Trace F))
      → Answers tasks candidates
      → length traces ≡ length tasks
      → map (λ c. c.case_id) (completed_cases tasks candidates traces) ≡ map task_case_id tasks
  unfolding case_with
  completed_cases-ids [] [] traces answers same = refl
  completed_cases-ids [] (c ∷ candidates) traces answers same = absurd answers
  completed_cases-ids (t ∷ tasks) [] traces answers same = absurd answers
  completed_cases-ids (t ∷ tasks) (c ∷ candidates) [] answers same = absurd (omega (arith, same))
  completed_cases-ids (t ∷ tasks) (c ∷ candidates) (s ∷ traces) (ids, queries, answers) same =
      ap (◌∷◌ t.case_id) (completed_cases-ids tasks candidates traces answers (omega (arith, same)))
