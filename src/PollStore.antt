-- ===== src/PollStore.antt =====
-- InMemorySourcePollStore of source_poll_store.py. The lock makes each method one step on the store;
-- a method returns its result beside the store that it leaves, which an exception does not undo.
pub mod History
pub mod Pages
use atlas_pulse.Prelude.{
  ℕ, ◌+◌, Bool, true, false, ◌&&◌, ◌||◌, not, Option, none, some, List, [], ◌∷◌, ◌++◌, take, keep,
  Result, ok, raise, leb, ltb, ◌==◌, text_eq, if◌then◌else◌, Text,
}
use mathlib.Core.List.{reverse}
use atlas_pulse.StreamId.{stream_position, position_ltb, local_id}
use atlas_pulse.Polling.Types.{
  SourceName, SourcePollOutcome, SourcePollPolicy, SourcePollAttempt, SourcePollState,
  SourcePollTransition, SourcePollTransitionKind, started, succeeded, failed, outcome_eq,
  source_name_eq,
}
use atlas_pulse.Polling.Validate.{PollError, is_some, validate_state, validate_transition}

pub data StoreError : Type 0 where
  start_not_in_progress completion_not_terminal limit_not_positive : StoreError
  stale_start stale_completion : StoreError
  invalid : PollError → StoreError
  not_a_stream_id : StoreError

pub record Store : Type 0 where
  pub states : SourceName → Option SourcePollState
  pub history : List SourcePollTransition
  pub history_sequence : ℕ

abbrev pub Action : Type 0 → Type 0
Action A = Store → Result StoreError A × Store

unfoldable pub init : Store
init = record { states = λ source. none; history = []; history_sequence = 0 }

-- `self._states[source] = state`
unfoldable pub put_state :
    SourceName
    → SourcePollState
    → (SourceName → Option SourcePollState)
    → SourceName
    → Option SourcePollState
put_state source state states other = if other == source then some state else states other

unfoldable pub append_transition : SourcePollTransitionKind → SourcePollAttempt → Action (Unit {0})
append_transition transition attempt s =
    let n = s.history_sequence + 1 in
    elim (validate_transition (record {
      stream_id = local_id n;
      source = attempt.source;
      transition = transition;
      attempt = attempt;
    })) [
      | ok t ↦ (ok tt, record s { history = s.history ++ t ∷ []; history_sequence = n })
      | raise e ↦ (raise (invalid e), record s { history_sequence = n })
    ]

-- Stores the state that its validator accepts, then appends the transition.
unfoldable pub store_state :
    SourcePollState → SourcePollTransitionKind → SourcePollAttempt → Action (Unit {0})
store_state state transition attempt s = elim (validate_state state) [
  | raise e ↦ (raise (invalid e), s)
  | ok valid ↦
      append_transition transition attempt
        (record s { states = put_state attempt.source valid s.states })
]

-- `existing is not None and existing.current_attempt.started_at >= attempt.started_at`
unfoldable pub is_stale_start : Option SourcePollState → SourcePollAttempt → Bool
is_stale_start none attempt = false
is_stale_start (some existing) attempt =
    leb attempt.started_at.instant existing.current_attempt.started_at.instant

-- `existing.last_success if existing else None`
unfoldable pub kept_success : Option SourcePollState → Option SourcePollAttempt
kept_success none = none
kept_success (some existing) = existing.last_success

-- `existing.consecutive_failures if existing else 0`
unfoldable pub kept_failures : Option SourcePollState → ℕ
kept_failures none = 0
kept_failures (some existing) = existing.consecutive_failures

unfoldable pub started_state :
    Option SourcePollState → SourcePollAttempt → SourcePollPolicy → SourcePollState
started_state existing attempt policy = record {
  source = attempt.source;
  policy = policy;
  current_attempt = attempt;
  last_success = kept_success existing;
  consecutive_failures = kept_failures existing;
}

unfoldable pub record_started : SourcePollAttempt → SourcePollPolicy → Action (Unit {0})
record_started attempt policy s =
    if not (attempt.outcome == SourcePollOutcome.in_progress)
      || not (attempt.source == policy.source)
    then (raise start_not_in_progress, s)
    else if is_stale_start (s.states attempt.source) attempt
    then (raise stale_start, s)
    else store_state (started_state (s.states attempt.source) attempt policy) started attempt s

-- `existing` is the poll that `attempt` completes.
unfoldable pub is_completable : SourcePollState → SourcePollAttempt → Bool
is_completable existing attempt =
    existing.current_attempt.attempt_id == attempt.attempt_id
    && existing.current_attempt.outcome == SourcePollOutcome.in_progress

unfoldable pub completed_state : SourcePollState → SourcePollAttempt → SourcePollState
completed_state existing attempt =
    let done = attempt.outcome == SourcePollOutcome.succeeded in
    record {
      source = attempt.source;
      policy = existing.policy;
      current_attempt = attempt;
      last_success = if done then some attempt else existing.last_success;
      consecutive_failures = if done then 0 else existing.consecutive_failures + 1;
    }

unfoldable pub completed_kind : SourcePollAttempt → SourcePollTransitionKind
completed_kind attempt =
    if attempt.outcome == SourcePollOutcome.succeeded then succeeded else failed

-- The part of `record_completed` under the lock.
unfoldable pub complete_existing : Option SourcePollState → SourcePollAttempt → Action (Unit {0})
complete_existing none attempt s = (raise stale_completion, s)
complete_existing (some existing) attempt s =
    if not (is_completable existing attempt)
    then (raise stale_completion, s)
    else store_state (completed_state existing attempt) (completed_kind attempt) attempt s

unfoldable pub record_completed : SourcePollAttempt → Action (Unit {0})
record_completed attempt s =
    if attempt.outcome == SourcePollOutcome.in_progress || not (is_some attempt.completed_at)
    then (raise completion_not_terminal, s)
    else complete_existing (s.states attempt.source) attempt s

unfoldable pub load_states : List SourceName → Store → List SourcePollState
load_states [] s = []
load_states (source ∷ sources) s =
    let rest = load_states sources s in
    elim (s.states source) [ none ↦ rest | some state ↦ state ∷ rest ]

-- The transition stands strictly before the cursor, if there is one.
unfoldable pub is_visible : Option (ℕ × ℕ) → SourcePollTransition → Bool
is_visible none t = true
is_visible (some before) t = elim (stream_position t.stream_id) [
  | none ↦ false
  | some position ↦ position_ltb position before
]

unfoldable pub page : Option (ℕ × ℕ) → ℕ → Store → List SourcePollTransition
page before limit s = take limit (keep (is_visible before) (reverse s.history))

unfoldable pub load_recent_transitions :
    Option Text → ℕ → Store → Result StoreError (List SourcePollTransition)
load_recent_transitions before limit s =
    if ltb limit 1 then raise limit_not_positive else elim before [
      | none ↦ ok (page none limit s)
      | some cursor ↦ elim (stream_position cursor) [
        | none ↦ raise not_a_stream_id
        | some position ↦ ok (page (some position) limit s)
      ]
    ]
