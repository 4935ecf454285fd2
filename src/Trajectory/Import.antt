-- ===== src/Trajectory/Import.antt =====
-- agent_trajectory/base.py: the template of a submission, and the import of a completed one.
use atlas_pulse.Prelude.{
  ltb, ◌||◌, not, Option, none, some, List, [], ◌∷◌, ◌++◌, length, map, ok, raise, ◌>>◌, ◌>>=◌,
  raise_if, ◌==◌, text_eq, if◌then◌else◌, Text, codes, take, sorted,
}
use atlas_pulse.Prelude.Order.{text_leb, canonical, same_set}
use atlas_pulse.Prelude.Int.{pos}
use atlas_pulse.Polling.Types.{Datetime}
use atlas_pulse.AgentRuns.{is_empty}
use atlas_pulse.Release.Types.{texts_eq}
use atlas_pulse.Trajectory.Types.{
  AgentTrajectoryStep, AgentCapabilityObservation, AgentTrajectorySubmissionCase,
  AgentTrajectorySubmission, AgentTrajectoryCase, TrajectoryPayload, AgentTrajectoryBatch,
  GroundedAnswerClaim, GroundedAnswerTaskCase, GroundedAnswerTask, GroundedAnswerCandidateCase,
  GroundedAnswerCandidateBatch, TrajectoryEnv,
}
use atlas_pulse.Trajectory.{
  field_constraint, cases_not_canonical, Traced, task_mismatch, candidate_cases_mismatch,
  submission_mismatch, cases_not_covered, query_changed, incomplete, missing_case, all_ids,
  validate_case, check_observed, validate_batch,
}

-- `{case.case_id: case for case in cases}.get(case_id)`; of cases with one id the last counts.
unfoldable pub case_of : {A : Type 0} → (A → Text) → Text → List A → Option A
case_of id_of id [] = none
case_of id_of id (c ∷ cases) = elim (case_of id_of id cases) [
  | some later ↦ some later
  | none ↦ if id_of c == id then some c else none
]

-- The case of an id that is among the cases: the raise stands for a `KeyError`, which the check of the
-- ids excludes.
unfoldable pub require_case : {A : Type 0} → (A → Text) → Text → List A → Traced A
require_case id_of id cases = elim (case_of id_of id cases) [
  | none ↦ raise missing_case
  | some c ↦ ok c
]

abbrev pub task_case_id : GroundedAnswerTaskCase → Text
task_case_id c = c.case_id

unfoldable pub capabilities_of :
    Option AgentCapabilityObservation → Traced AgentCapabilityObservation
capabilities_of none = raise incomplete
capabilities_of (some capabilities) = ok capabilities

module _ {F : Type 0} where
  abbrev pub candidate_case_id : GroundedAnswerCandidateCase F → Text
  candidate_case_id c = c.case_id

  abbrev pub submitted_case_id : AgentTrajectorySubmissionCase F → Text
  submitted_case_id c = c.case_id

  -- `_validate_task_batch`
  unfoldable pub check_task_batch :
      GroundedAnswerTask → GroundedAnswerCandidateBatch F → Traced (Unit {0})
  check_task_batch task batch = do
    raise_if (not (batch.task_id == task.task_id) || not (batch.task_sha256 == task.task_sha256))
        task_mismatch
    raise_if (not (map task_case_id task.cases == map candidate_case_id batch.cases))
        candidate_cases_mismatch

  unfoldable pub empty_case : GroundedAnswerTaskCase → AgentTrajectorySubmissionCase F
  empty_case c = record {
    case_id = c.case_id;
    query_id = c.query_id;
    steps = none;
    capabilities = none;
  }

  -- AgentTrajectorySubmission.validate_cases, after the bounds of its cases
  unfoldable pub validate_submission : AgentTrajectorySubmission F → Traced (Unit {0})
  validate_submission s = do
    raise_if (is_empty s.cases || ltb 100 (length s.cases)) field_constraint
    raise_if (not (map submitted_case_id s.cases == canonical (map submitted_case_id s.cases)))
        cases_not_canonical

  abbrev pub template_of :
      GroundedAnswerTask → GroundedAnswerCandidateBatch F → AgentTrajectorySubmission F
  template_of task batch = record {
    task_id = task.task_id;
    task_sha256 = task.task_sha256;
    candidate_batch_id = batch.batch_id;
    candidate_batch_sha256 = batch.batch_sha256;
    cases = map empty_case task.cases;
  }

  unfoldable pub build_agent_trajectory_submission :
      GroundedAnswerTask → GroundedAnswerCandidateBatch F → Traced (AgentTrajectorySubmission F)
  build_agent_trajectory_submission task batch = do
    check_task_batch task batch
    validate_submission (template_of task batch)
    ok (template_of task batch)

  unfoldable pub check_submission :
      GroundedAnswerTask
      → GroundedAnswerCandidateBatch F
      → AgentTrajectorySubmission F
      → Traced (Unit {0})
  check_submission task batch s = do
    raise_if
        (not (s.task_id == task.task_id)
          || not (s.task_sha256 == task.task_sha256)
          || not (s.candidate_batch_id == batch.batch_id)
          || not (s.candidate_batch_sha256 == batch.batch_sha256))
        submission_mismatch
    raise_if (not (same_set (map submitted_case_id s.cases) (map task_case_id task.cases)))
        cases_not_covered

  unfoldable pub steps_of :
      Option (List (AgentTrajectoryStep F)) → Traced (List (AgentTrajectoryStep F))
  steps_of none = raise incomplete
  steps_of (some steps) = ok steps

module _ {F : Type 0} (env : TrajectoryEnv F) where
  -- The case of a trace, before its validation.
  unfoldable pub case_with :
      GroundedAnswerTaskCase
      → GroundedAnswerCandidateCase F
      → List (AgentTrajectoryStep F)
      → AgentCapabilityObservation
      → AgentTrajectoryCase F
  case_with task_case candidate steps capabilities = record {
    case_id = task_case.case_id;
    query_id = task_case.query_id;
    pack_id = task_case.pack_id;
    response_sha256 = env.response_digest candidate.response;
    response_status = candidate.response.status;
    available_evidence_ids = sorted text_leb task_case.evidence_ids;
    required_evidence_ids =
        canonical (all_ids (λ (c : GroundedAnswerClaim). c.evidence_ids) candidate.response.claims);
    required_claim_ids =
        sorted text_leb (map (λ (c : GroundedAnswerClaim). c.claim_id) candidate.response.claims);
    steps = steps;
    capabilities = capabilities;
    input_tokens = candidate.input_tokens;
    output_tokens = candidate.output_tokens;
    latency_ms = candidate.latency_ms;
  }

  -- The body of the loop over the ids.
  unfoldable pub import_row :
      GroundedAnswerTaskCase
      → GroundedAnswerCandidateCase F
      → AgentTrajectorySubmissionCase F
      → Traced (AgentTrajectoryCase F)
  import_row task_case candidate row = do
    raise_if (not (row.query_id == task_case.query_id) || not (row.query_id == candidate.query_id))
        query_changed
    steps ← steps_of row.steps
    capabilities ← capabilities_of row.capabilities
    validate_case env (case_with task_case candidate steps capabilities)
    ok (case_with task_case candidate steps capabilities)

  module _ (task : GroundedAnswerTask) (batch : GroundedAnswerCandidateBatch F) where
    unfoldable pub import_case : AgentTrajectorySubmission F → Text → Traced (AgentTrajectoryCase F)
    import_case submission id = do
      task_case ← require_case task_case_id id task.cases
      candidate ← require_case candidate_case_id id batch.cases
      row ← require_case submitted_case_id id submission.cases
      import_row task_case candidate row

    unfoldable pub import_cases :
        AgentTrajectorySubmission F → List Text → Traced (List (AgentTrajectoryCase F))
    import_cases submission [] = ok []
    import_cases submission (id ∷ ids) = do
      c ← import_case submission id
      rest ← import_cases submission ids
      ok (c ∷ rest)

    -- The draft with its digest and the identity made of it.
    unfoldable pub batch_of : Datetime → List (AgentTrajectoryCase F) → AgentTrajectoryBatch F
    batch_of observed_at imported =
        let draft : TrajectoryPayload F = record {
          task_id = task.task_id;
          task_sha256 = task.task_sha256;
          candidate_batch_id = batch.batch_id;
          candidate_batch_sha256 = batch.batch_sha256;
          observed_at = record { instant = observed_at.instant; offset = some (pos 0) };
          system = batch.system;
          case_count = length imported;
          cases = imported;
        } in
        record {
          trajectory_batch_id = codes "trajectory-batch-" ++ take 20 (env.batch_digest draft);
          trajectory_batch_sha256 = env.batch_digest draft;
          payload = draft;
        }

    -- `observed_at` is the given time, or the clock's.
    unfoldable pub apply_agent_trajectory_submission :
        AgentTrajectorySubmission F → Datetime → Traced (AgentTrajectoryBatch F)
    apply_agent_trajectory_submission submission observed_at = do
      check_task_batch task batch
      check_submission task batch submission
      imported ← import_cases submission (canonical (map task_case_id task.cases))
      check_observed observed_at
      validate_batch env (batch_of observed_at imported)
      ok (batch_of observed_at imported)
