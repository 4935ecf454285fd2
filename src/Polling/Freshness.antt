-- ===== src/Polling/Freshness.antt =====
-- evaluate_source_freshness of source_polling.py: one item for each policy, in the policies' order.
pub mod Passing
pub mod Returns
pub mod Response
use atlas_pulse.Prelude.{
  ℕ, Bool, true, false, ◌&&◌, ◌||◌, not, Option, none, some, List, [], ◌∷◌, map, ok, raise, ◌>>=◌,
  ◌>>◌, raise_if, ltb, ◌==◌, bool_eq, nat_eq, length, if◌then◌else◌, all, any, contains, unique,
}
use atlas_pulse.Prelude.Int.{ℤ, pos, sub_ℕ, ltb_ℤ, ℤ_eq}
use atlas_pulse.Polling.Types.{
  SourceName, firms, gdelt, nws, usgs, Datetime, SourcePollOutcome, SourcePollPolicy,
  SourcePollAttempt, SourcePollState, SourceFreshnessItem, SourceFreshnessResponse,
  SourcePollStatus, SourceDataStatus, outcome_eq, source_name_eq, poll_status_eq, data_status_eq,
  policy_eq, SourceTimestampBasis,
}
use atlas_pulse.Polling.Validate.{
  Checked, is_some, require_utc, require_utc?, attempt_fields_partial, success_fields_partial,
  failure_code_mismatch, passed_mismatch, policies_not_ordered, states_not_matching,
  stored_policy_mismatch, field_constraint, success_asserted, items_not_ordered, age_mismatch,
  response_passed_mismatch,
}

-- The place of a name in alphabetical order.
unfoldable pub name_order : SourceName → ℕ
name_order firms = 0
name_order gdelt = 1
name_order nws = 2
name_order usgs = 3

-- `sources == tuple(sorted(set(sources)))`: no name twice, and in order.
unfoldable pub is_canonical : List SourceName → Bool
unfolding name_order
is_canonical [] = true
is_canonical (a ∷ []) = true
is_canonical (a ∷ b ∷ l) = ltb (name_order a) (name_order b) && is_canonical (b ∷ l)

-- `(t - u).total_seconds()`, in microseconds
unfoldable pub age : Datetime → Datetime → ℤ
age t u = sub_ℕ t.instant u.instant

abbrev pub is_negative : ℤ → Bool
is_negative z = ltb_ℤ z (pos 0)

-- `state_by_source.get(source)`
unfoldable pub state_of : SourceName → List SourcePollState → Option SourcePollState
state_of source [] = none
state_of source (s ∷ states) = elim (s.source == source) [
  | true ↦ some s
  | false ↦ state_of source states
]

-- `completion_age is not None and completion_age < 0`
unfoldable pub completes_later : Datetime → Option Datetime → Bool
unfolding age
completes_later now none = false
completes_later now (some completed) = is_negative (age now completed)

-- The heartbeat, before the last success is looked at.
unfoldable pub heartbeat :
    Datetime → SourcePollPolicy → SourcePollAttempt → Option SourcePollAttempt → SourcePollStatus
unfolding age completes_later
heartbeat now policy current last_success =
    let attempt_age = age now current.started_at in
    if is_negative attempt_age || completes_later now current.completed_at
    then SourcePollStatus.clock_skew
    else if ltb_ℤ (pos policy.poll_stale_after) attempt_age
    then SourcePollStatus.stale
    else if current.outcome == SourcePollOutcome.failed
    then SourcePollStatus.degraded
    else if current.outcome == SourcePollOutcome.in_progress && not (is_some last_success)
    then SourcePollStatus.starting
    else SourcePollStatus.healthy

-- What the second half of the loop body computes from `last_success`; the asserts that its three
-- fields are there fail as `none`.
pub record SuccessView : Type 0 where
  pub poll_status : SourcePollStatus
  pub source_status : SourceDataStatus
  pub success_at : Option Datetime
  pub generated_at : Option Datetime
  pub success_age : Option ℤ
  pub source_age : Option ℤ
  pub basis : Option SourceTimestampBasis

unfoldable pub source_status_of : SourcePollPolicy → ℤ → SourceDataStatus
source_status_of policy source_age =
    if is_negative source_age
    then SourceDataStatus.future_clock_skew
    else if ltb_ℤ (pos policy.source_stale_after) source_age
    then SourceDataStatus.stale
    else SourceDataStatus.current

unfoldable pub view_success :
    Datetime → SourcePollPolicy → SourcePollStatus → Option SourcePollAttempt → Option SuccessView
view_success now policy status none = some (record {
  poll_status = status;
  source_status = SourceDataStatus.not_reported;
  success_at = none;
  generated_at = none;
  success_age = none;
  source_age = none;
  basis = none;
})
view_success now policy status (some success) = elim success.completed_at [
  | none ↦ none
  | some completed ↦ elim success.source_generated_at [
    | none ↦ none
    | some generated ↦ elim success.timestamp_basis [
      | none ↦ none
      | some basis ↦ some (record {
        poll_status =
            if is_negative (age now completed) then SourcePollStatus.clock_skew else status;
        source_status = source_status_of policy (age now generated);
        success_at = some completed;
        generated_at = some generated;
        success_age = some (age now completed);
        source_age = some (age now generated);
        basis = some basis;
      })
    ]
  ]
]

-- `any(value is None for value in fields) != all(value is None for value in fields)`
unfoldable pub is_partial : List Bool → Bool
is_partial present = not (any not present == all not present)

-- `self.last_outcome == "failed"`
unfoldable pub is_failed : Option SourcePollOutcome → Bool
is_failed none = false
is_failed (some outcome) = outcome == SourcePollOutcome.failed

-- `poll_status == "healthy" and source_status == "current"`
abbrev pub is_fresh : SourcePollStatus → SourceDataStatus → Bool
is_fresh poll_status source_status =
    poll_status == SourcePollStatus.healthy && source_status == SourceDataStatus.current

-- SourceFreshnessItem: the bounds of its fields, then its validator
unfoldable pub validate_freshness : SourceFreshnessItem → Checked SourceFreshnessItem
validate_freshness i = do
  raise_if
      (i.interval == 0
        || i.poll_stale_after == 0
        || i.source_stale_after == 0
        || ltb 20 i.transport_attempts)
      field_constraint
  raise_if
      (is_partial (is_some i.last_attempt_at ∷ is_some i.last_outcome ∷ is_some i.last_stage ∷ []))
      attempt_fields_partial
  require_utc? i.last_attempt_at
  raise_if
      (is_partial (
        is_some i.last_success_at
        ∷ is_some i.last_source_generated_at
        ∷ is_some i.last_success_age
        ∷ is_some i.source_age
        ∷ is_some i.timestamp_basis
        ∷ []))
      success_fields_partial
  require_utc? i.last_success_at
  require_utc? i.last_source_generated_at
  raise_if (not (is_some i.last_failure_code == is_failed i.last_outcome)) failure_code_mismatch
  raise_if (not (i.passed == is_fresh i.poll_status i.source_data_status)) passed_mismatch
  ok i

-- The item of a policy with no stored state.
unfoldable pub unreported_item : SourcePollPolicy → SourceFreshnessItem
unreported_item policy = record {
  source = policy.source;
  interval = policy.interval;
  poll_stale_after = policy.poll_stale_after;
  source_stale_after = policy.source_stale_after;
  poll_status = SourcePollStatus.starting;
  source_data_status = SourceDataStatus.not_reported;
  last_outcome = none;
  last_stage = none;
  last_failure_code = none;
  last_attempt_at = none;
  last_success_at = none;
  last_source_generated_at = none;
  last_success_age = none;
  source_age = none;
  consecutive_failures = 0;
  transport_attempts = 0;
  timestamp_basis = none;
  passed = false;
}

unfoldable pub reported_item :
    SourcePollPolicy → SourcePollState → SuccessView → SourceFreshnessItem
reported_item policy state view =
    let current = state.current_attempt in
    record {
      source = policy.source;
      interval = policy.interval;
      poll_stale_after = policy.poll_stale_after;
      source_stale_after = policy.source_stale_after;
      poll_status = view.poll_status;
      source_data_status = view.source_status;
      last_outcome = some current.outcome;
      last_stage = some current.stage;
      last_failure_code = current.failure_code;
      last_attempt_at = some current.started_at;
      last_success_at = view.success_at;
      last_source_generated_at = view.generated_at;
      last_success_age = view.success_age;
      source_age = view.source_age;
      consecutive_failures = state.consecutive_failures;
      transport_attempts = current.transport_attempts;
      timestamp_basis = view.basis;
      passed = is_fresh view.poll_status view.source_status;
    }

-- The loop body for a policy whose source has a stored state.
unfoldable pub evaluate_state :
    Datetime → SourcePollPolicy → SourcePollState → Checked SourceFreshnessItem
evaluate_state now policy state =
    if not (state.policy == policy)
    then raise stored_policy_mismatch
    else elim (view_success now policy
        (heartbeat now policy state.current_attempt state.last_success) state.last_success) [
          | none ↦ raise success_asserted
          | some view ↦ validate_freshness (reported_item policy state view)
        ]

-- The loop body.
unfoldable pub evaluate_policy :
    Datetime → Option SourcePollState → SourcePollPolicy → Checked SourceFreshnessItem
evaluate_policy now none policy = validate_freshness (unreported_item policy)
evaluate_policy now (some state) policy = evaluate_state now policy state

-- The loop over the policies.
unfoldable pub evaluate_policies :
    Datetime → List SourcePollState → List SourcePollPolicy → Checked (List SourceFreshnessItem)
evaluate_policies now states [] = ok []
evaluate_policies now states (policy ∷ policies) = do
  item ← evaluate_policy now (state_of policy.source states) policy
  items ← evaluate_policies now states policies
  ok (item ∷ items)

-- The ages of an item against the time of the response, in the validator of the response. Ages are
-- exact here, so the tolerance of 1e-6 seconds, one microsecond, is not needed.
unfoldable pub is_aged : Datetime → Option Datetime → Option ℤ → Bool
unfolding age
is_aged now (some t) (some a) = age now t == a
is_aged now t a = not (is_some t)

-- The validator of SourceFreshnessResponse. The bounds 1 and 4 are those of the field `items`.
unfoldable pub validate_response : SourceFreshnessResponse → Checked SourceFreshnessResponse
validate_response r = do
  raise_if (length r.items == 0 || ltb 4 (length r.items)) field_constraint
  generated ← require_utc r.generated_at
  raise_if (not (is_canonical (map (λ i. i.source) r.items))) items_not_ordered
  raise_if
      (not (
        all
          (λ i.
            not (is_some i.last_success_at)
            || (is_aged generated i.last_success_at i.last_success_age
                && is_aged generated i.last_source_generated_at i.source_age))
          r.items))
      age_mismatch
  raise_if (not (r.passed == all (λ i. i.passed) r.items)) response_passed_mismatch
  ok r

unfoldable pub evaluate_source_freshness :
    List SourcePollPolicy → List SourcePollState → Datetime → Checked SourceFreshnessResponse
evaluate_source_freshness policies states generated_at = do
  now ← require_utc generated_at
  raise_if (not (is_canonical (map (λ p. p.source) policies))) policies_not_ordered
  raise_if
      (not (unique (map (λ s. s.source) states))
        || not (all (λ s. contains s.source (map (λ p. p.source) policies)) states))
      states_not_matching
  items ← evaluate_policies now states policies
  validate_response
      (record { generated_at = now; items = items; passed = all (λ i. i.passed) items })
