-- ===== src/Polling/Validate.antt =====
-- The validators of source_polling.py. Each runs its checks in the order of the source and raises
-- at the first that fails.
pub mod Attempts
use atlas_pulse.Prelude.{
  ◌+◌, ◌≡◌, arith, Bool, true, false, ◌&&◌, ◌||◌, not, Option, none, some, Result, ok, raise, ◌>>=◌,
  ◌>>◌, raise_if, ltb, leb, ◌==◌, nat_eq, bool_eq, if◌then◌else◌, Text, codes, matches_id,
}
use atlas_pulse.Prelude.Int.{pos, ℤ_eq}
use atlas_pulse.StreamId.{stream_position}
use atlas_pulse.Polling.Types.{
  Datetime, SourcePollOutcome, SourcePollStage, SourcePollPolicy, SourcePollAttempt,
  SourcePollState, SourcePollTransition, SourcePollTransitionKind, outcome_eq, stage_eq,
  source_name_eq, attempt_eq,
}

-- One constructor for each `ValueError` of the module; `field_constraint` is a field's own bound.
pub data PollError : Type 0 where
  field_constraint not_aware not_utc : PollError
  poll_threshold source_threshold : PollError
  completion_before_start timestamp_without_basis : PollError
  in_progress_with_completion in_progress_with_counters : PollError
  success_incomplete counts_mismatch failure_incomplete partial_counters : PollError
  state_source_mismatch last_success_mismatch last_success_after_current : PollError
  failures_not_reset success_not_last failure_not_counted : PollError
  transition_source_mismatch transition_outcome_mismatch : PollError
  attempt_fields_partial success_fields_partial failure_code_mismatch passed_mismatch : PollError
  policies_not_ordered states_not_matching stored_policy_mismatch : PollError
  success_asserted items_not_ordered age_mismatch response_passed_mismatch : PollError

abbrev pub Checked : Type 0 → Type 0
Checked A = Result PollError A

module _ {ℓ} {A : Type ℓ} where
  -- `value is not None`
  abbrev pub is_some : Option A → Bool
  is_some none = false
  is_some (some _) = true

  pub some_of : (o : Option A) → is_some o ≡ true → (a : A) × (o ≡ some a)
  some_of o h = ground arith

unfoldable pub require_utc : Datetime → Checked Datetime
require_utc d = elim d.offset [
  | none ↦ raise not_aware
  | some offset ↦ if offset == pos 0 then ok d else raise not_utc
]

-- `_require_utc` of an optional field.
unfoldable pub require_utc? : Option Datetime → Checked (Option Datetime)
require_utc? none = ok none
require_utc? (some d) = do d' ← require_utc d; ok (some d')

-- SourcePollPolicy, with the bounds `gt=0` of its fields
unfoldable pub validate_thresholds : SourcePollPolicy → Checked SourcePollPolicy
validate_thresholds p = do
  raise_if (p.interval == 0 || p.poll_stale_after == 0 || p.source_stale_after == 0)
      field_constraint
  raise_if (leb p.poll_stale_after p.interval) poll_threshold
  raise_if (leb p.source_stale_after p.interval) source_threshold
  ok p

abbrev pub attempt_prefix : Text
attempt_prefix = codes "source-poll-"

-- The three branches of `validate_attempt` on the outcome. `completed` is not `None`.
unfoldable pub check_outcome : SourcePollAttempt → Bool → SourcePollOutcome → Checked (Unit {0})
check_outcome a completed SourcePollOutcome.in_progress = do
  raise_if (completed || is_some a.failure_code || a.stage == SourcePollStage.complete)
      in_progress_with_completion
  raise_if
      (is_some a.fetched_events
        || is_some a.published_events
        || is_some a.deduplicated_events
        || not (a.transport_attempts == 0))
      in_progress_with_counters
check_outcome a completed SourcePollOutcome.succeeded =
    if not completed
      || not (a.stage == SourcePollStage.complete)
      || is_some a.failure_code
      || not (is_some a.source_generated_at)
      || ltb a.transport_attempts 1
    then raise success_incomplete
    else elim a.fetched_events [
      | none ↦ raise success_incomplete
      | some fetched ↦ elim a.published_events [
        | none ↦ raise success_incomplete
        | some published ↦ elim a.deduplicated_events [
          | none ↦ raise success_incomplete
          | some deduplicated ↦ raise_if (not (published + deduplicated == fetched)) counts_mismatch
        ]
      ]
    ]
check_outcome a completed SourcePollOutcome.failed = do
  raise_if (not completed || not (is_some a.failure_code) || a.stage == SourcePollStage.complete)
      failure_incomplete
  raise_if
      ((is_some a.fetched_events || is_some a.published_events || is_some a.deduplicated_events)
        && not (
            is_some a.fetched_events
            && is_some a.published_events
            && is_some a.deduplicated_events))
      partial_counters

-- `completed is not None and completed < started`
unfoldable pub ends_before : Option Datetime → Datetime → Bool
ends_before none started = false
ends_before (some completed) started = ltb completed.instant started.instant

-- SourcePollAttempt, with the pattern of its id and the bound of its transport attempts
unfoldable pub validate_attempt : SourcePollAttempt → Checked SourcePollAttempt
validate_attempt a = do
  raise_if (not (matches_id attempt_prefix 32 a.attempt_id) || ltb 20 a.transport_attempts)
      field_constraint
  started ← require_utc a.started_at
  completed ← require_utc? a.completed_at
  raise_if (ends_before completed started) completion_before_start
  raise_if (not (is_some a.source_generated_at == is_some a.timestamp_basis))
      timestamp_without_basis
  require_utc? a.source_generated_at
  check_outcome a (is_some completed) a.outcome
  ok a

-- The checks of `validate_state` on `last_success`.
unfoldable pub check_last_success : SourcePollState → Option SourcePollAttempt → Checked (Unit {0})
check_last_success s none = ok tt
check_last_success s (some success) = do
  raise_if
      (not (success.source == s.source) || not (success.outcome == SourcePollOutcome.succeeded))
      last_success_mismatch
  raise_if (ltb s.current_attempt.started_at.instant success.started_at.instant)
      last_success_after_current

-- `self.last_success != self.current_attempt`
unfoldable pub is_last_success : Option SourcePollAttempt → SourcePollAttempt → Bool
is_last_success none a = false
is_last_success (some success) a = success == a

unfoldable pub check_current : SourcePollState → SourcePollOutcome → Checked (Unit {0})
check_current s SourcePollOutcome.succeeded = do
  raise_if (not (s.consecutive_failures == 0)) failures_not_reset
  raise_if (not (is_last_success s.last_success s.current_attempt)) success_not_last
check_current s SourcePollOutcome.failed =
    raise_if (ltb s.consecutive_failures 1) failure_not_counted
check_current s SourcePollOutcome.in_progress = ok tt

-- SourcePollState
unfoldable pub validate_state : SourcePollState → Checked SourcePollState
validate_state s = do
  raise_if (not (s.policy.source == s.source) || not (s.current_attempt.source == s.source))
      state_source_mismatch
  check_last_success s s.last_success
  check_current s s.current_attempt.outcome
  ok s

unfoldable pub expected_outcome : SourcePollTransitionKind → SourcePollOutcome
expected_outcome SourcePollTransitionKind.started = SourcePollOutcome.in_progress
expected_outcome SourcePollTransitionKind.succeeded = SourcePollOutcome.succeeded
expected_outcome SourcePollTransitionKind.failed = SourcePollOutcome.failed

-- SourcePollTransition, with the pattern of its stream id
unfoldable pub validate_transition : SourcePollTransition → Checked SourcePollTransition
validate_transition t = do
  raise_if (not (is_some (stream_position t.stream_id))) field_constraint
  raise_if (not (t.source == t.attempt.source)) transition_source_mismatch
  raise_if (not (t.attempt.outcome == expected_outcome t.transition)) transition_outcome_mismatch
  ok t
