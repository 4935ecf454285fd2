-- ===== src/Trajectory.antt =====
-- agent_trajectory/base.py: observable traces with their validators, and their import for a task and the
-- batch of candidate answers to it.
pub mod Types
pub mod Import
pub mod Lookups
pub mod Imported
pub mod Rows
pub mod Completed
use atlas_pulse.Prelude.{
  ℕ, Bool, true, false, ◌&&◌, ◌||◌, not, Option, none, some, List, [], ◌∷◌, ◌++◌, length, map, all,
  keep, last?, range_from, contains, Result, ok, raise, ◌>>◌, ◌>>=◌, raise_if, ltb, leb, ◌==◌,
  text_eq, nat_eq, bool_eq, if◌then◌else◌, Text, codes, take, drop, strip_prefix, matches_id,
  sorted,
}
use atlas_pulse.Prelude.Order.{text_leb, canonical, is_subset, same_set}
use atlas_pulse.Prelude.Int.{pos}
use atlas_pulse.Polling.Types.{Datetime}
use atlas_pulse.Polling.Validate.{is_some}
use atlas_pulse.AgentRuns.{is_empty}
use atlas_pulse.Release.Types.{texts_eq}
use atlas_pulse.Drift.{is_bounded}
use atlas_pulse.Trajectory.Types.{
  TrajectoryAction, AnswerStatus, AgentTrajectoryStep, AgentCapabilityObservation,
  AgentTrajectorySubmissionCase, AgentTrajectorySubmission, AgentTrajectoryCase, TrajectoryPayload,
  AgentTrajectoryBatch, GroundedAnswerClaim, GroundedAnswerResponse, GroundedAnswerTaskCase,
  GroundedAnswerTask, GroundedAnswerCandidateCase, GroundedAnswerCandidateBatch, TrajectoryEnv,
  action_eq, answer_status_eq,
}

pub data TrajectoryError : Type 0 where
  field_constraint ids_not_canonical not_evidence_id not_claim_id action_shape : TrajectoryError
  not_contiguous no_final_step required_unavailable evidence_outside claims_outside :
      TrajectoryError
  status_mismatch durations_exceed_latency : TrajectoryError
  naive_timestamp count_mismatch cases_not_canonical digest_mismatch id_mismatch : TrajectoryError
  task_mismatch candidate_cases_mismatch submission_mismatch cases_not_covered : TrajectoryError
  query_changed incomplete missing_case : TrajectoryError

abbrev pub Traced : Type 0 → Type 0
Traced A = Result TrajectoryError A

abbrev pub evidence_prefix : Text
evidence_prefix = codes "evidence-"

-- The ids of all steps, `{id for step in steps for id in step.ids}`.
unfoldable pub all_ids : {A : Type 0} → (A → List Text) → List A → List Text
all_ids ids [] = []
all_ids ids (x ∷ xs) = ids x ++ all_ids ids xs

-- A list of ids that is canonical, of which each passes a test.
unfoldable pub check_ids : TrajectoryError → (Text → Bool) → List Text → Traced (Unit {0})
check_ids error test ids = do
  raise_if (not (ids == canonical ids)) ids_not_canonical
  raise_if (not (all test ids)) error

unfoldable pub is_evidence_id : Text → Bool
is_evidence_id id = matches_id evidence_prefix 64 id

abbrev pub is_final : {F : Type 0} → AgentTrajectoryStep F → Bool
is_final s = s.action == TrajectoryAction.finalize

-- AgentTrajectoryStep.validate_action_shape
unfoldable pub has_action_shape : {F : Type 0} → AgentTrajectoryStep F → TrajectoryAction → Bool
has_action_shape s TrajectoryAction.inspect_evidence =
    not (is_empty s.evidence_ids) && is_empty s.claim_ids
has_action_shape s TrajectoryAction.draft_claim =
    not (is_empty s.evidence_ids) && length s.claim_ids == 1
has_action_shape s TrajectoryAction.choose_abstention =
    is_empty s.evidence_ids && is_empty s.claim_ids
has_action_shape s TrajectoryAction.finalize = is_empty s.evidence_ids && is_empty s.claim_ids

-- `len(final_steps) == 1 and steps[-1].action == "finalize"`
unfoldable pub ends_once : {F : Type 0} → List (AgentTrajectoryStep F) → Bool
ends_once steps =
    length (keep is_final steps) == 1 && elim (last? steps) [ none ↦ false | some s ↦ is_final s ]

unfoldable pub check_observed : Datetime → Traced (Unit {0})
check_observed d = elim d.offset [ none ↦ raise naive_timestamp | some _ ↦ ok tt ]

module _ {F : Type 0} (env : TrajectoryEnv F) where
  -- `item[6:].isdigit()` of the two characters that are left
  unfoldable pub is_claim_id : Text → Bool
  is_claim_id id = elim (strip_prefix (codes "claim-") id) [
    | none ↦ false
    | some rest ↦ length rest == 2 && all env.is_digit_character rest
  ]

  -- AgentTrajectoryStep
  unfoldable pub validate_step : AgentTrajectoryStep F → Traced (Unit {0})
  validate_step s = do
    raise_if
        (ltb s.sequence 1
          || ltb 64 s.sequence
          || ltb 8 (length s.evidence_ids)
          || ltb 1 (length s.claim_ids)
          || not (is_bounded env.floats s.duration_ms))
        field_constraint
    check_ids not_evidence_id is_evidence_id s.evidence_ids
    check_ids not_claim_id is_claim_id s.claim_ids
    raise_if (not (has_action_shape s s.action)) action_shape

  unfoldable pub validate_steps : List (AgentTrajectoryStep F) → Traced (Unit {0})
  validate_steps [] = ok tt
  validate_steps (s ∷ steps) = validate_step s >> validate_steps steps

  -- AgentTrajectoryCase.validate_trace
  unfoldable pub validate_trace : AgentTrajectoryCase F → Traced (Unit {0})
  validate_trace c = do
    raise_if (not (map (λ s. s.sequence) c.steps == range_from 1 (length c.steps))) not_contiguous
    raise_if (not (ends_once c.steps)) no_final_step
    raise_if (not (is_subset c.required_evidence_ids c.available_evidence_ids)) required_unavailable
    raise_if (not (is_subset (all_ids (λ s. s.evidence_ids) c.steps) c.available_evidence_ids))
        evidence_outside
    raise_if (not (is_subset (all_ids (λ s. s.claim_ids) c.steps) c.required_claim_ids))
        claims_outside
    raise_if
        (not (
          (c.response_status == AnswerStatus.abstained)
          == (is_empty c.required_claim_ids && is_empty c.required_evidence_ids)))
        status_mismatch
    raise_if
        (env.floats.lt (env.floats.add c.latency_ms env.slack_ms)
          (env.total (map (λ s. s.duration_ms) c.steps)))
        durations_exceed_latency

  -- AgentTrajectoryCase: its fields, then the trace. The patterns of the identities that it takes from a
  -- task and a batch hold there.
  unfoldable pub validate_case : AgentTrajectoryCase F → Traced (Unit {0})
  validate_case c = do
    check_ids not_evidence_id is_evidence_id c.available_evidence_ids
    check_ids not_evidence_id is_evidence_id c.required_evidence_ids
    check_ids not_claim_id is_claim_id c.required_claim_ids
    raise_if
        (is_empty c.steps
          || ltb 64 (length c.steps)
          || ltb c.input_tokens 1
          || ltb c.output_tokens 1
          || not (is_bounded env.floats c.latency_ms))
        field_constraint
    validate_steps c.steps
    validate_trace c

  unfoldable pub validate_cases : List (AgentTrajectoryCase F) → Traced (Unit {0})
  validate_cases [] = ok tt
  validate_cases (c ∷ cases) = validate_case c >> validate_cases cases

  -- AgentTrajectoryBatch.validate_batch, after its fields and cases
  unfoldable pub validate_batch : AgentTrajectoryBatch F → Traced (Unit {0})
  validate_batch b = do
    let p = b.payload
    raise_if (is_empty p.cases || ltb 100 (length p.cases)) field_constraint
    validate_cases p.cases
    check_observed p.observed_at
    raise_if (not (p.case_count == length p.cases)) count_mismatch
    raise_if (not (map (λ c. c.case_id) p.cases == canonical (map (λ c. c.case_id) p.cases)))
        cases_not_canonical
    raise_if (not (b.trajectory_batch_sha256 == env.batch_digest p)) digest_mismatch
    raise_if
        (not (b.trajectory_batch_id == codes "trajectory-batch-" ++ take 20 (env.batch_digest p)))
        id_mismatch
