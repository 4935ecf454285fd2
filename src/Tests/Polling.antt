-- ===== src/Tests/Polling.antt =====
-- Runs of the source-poll contracts.
use atlas_pulse.Prelude.{
  ℕ, ◌≡◌, ◌↔◌, true, some, none, [], ◌∷◌, map, all, ok, raise, refl, codes, ◌++◌, ℕ_discrete,
  is_hex, strip_prefix, matches_id, Bool-discrete, Text-discrete,
}
use atlas_pulse.Prelude.Int.{pos, ℤ-discrete}
use atlas_pulse.Polling.Types.{
  usgs, Datetime, SourcePollPolicy, SourcePollAttempt, SourcePollState, SourceFreshnessItem,
  SourceFreshnessResponse, SourcePollOutcome, SourcePollStage, SourcePollStatus, SourceDataStatus,
  source_metadata, SourceName-discrete, Outcome-discrete, Stage-discrete, PollStatus-discrete,
  DataStatus-discrete, Policy-discrete,
}
use atlas_pulse.Polling.Validate.{
  require_utc, require_utc?, check_outcome, ends_before, validate_attempt, validate_thresholds,
  attempt_prefix, counts_mismatch,
}
use atlas_pulse.Polling.Validate.Attempts.{WellFormed, validate_attempt-iff-WellFormed}
use atlas_pulse.Polling.Freshness.{
  name_order, is_canonical, age, state_of, completes_later, heartbeat, source_status_of,
  view_success, is_partial, is_failed, validate_freshness, unreported_item, reported_item,
  evaluate_state, evaluate_policy, evaluate_policies, is_aged, validate_response,
  evaluate_source_freshness,
}
use atlas_pulse.Polling.Freshness.Passing.{IsFresh, passed-iff-IsFresh}
use atlas_pulse.Polling.Freshness.Returns.{IsStored}
use atlas_pulse.Polling.Freshness.Response.{evaluate_source_freshness-returns}

unfoldable pub program : Unit {0}
unfolding require_utc require_utc? check_outcome ends_before validate_attempt name_order
    is_canonical age state_of completes_later heartbeat source_status_of view_success is_partial
    is_failed validate_freshness unreported_item reported_item evaluate_state evaluate_policy
    evaluate_policies is_aged validate_response evaluate_source_freshness ℕ_discrete ℤ-discrete
    SourceName-discrete Outcome-discrete Stage-discrete PollStatus-discrete DataStatus-discrete
    validate_thresholds Policy-discrete Bool-discrete Text-discrete is_hex strip_prefix matches_id
program = tt

abbrev pub at : ℕ → Datetime
at n = record { instant = n; offset = some (pos 0) }

abbrev pub policy : SourcePollPolicy
policy = record { source = usgs; interval = 60; poll_stale_after = 180; source_stale_after = 300 }

abbrev pub poll : SourcePollAttempt
poll = record {
  attempt_id = attempt_prefix ++ codes "0123456789abcdef0123456789abcdef";
  source = usgs;
  started_at = at 1000;
  completed_at = some (at 1002);
  outcome = SourcePollOutcome.succeeded;
  stage = SourcePollStage.complete;
  transport_attempts = 1;
  source_generated_at = some (at 990);
  timestamp_basis = some source_metadata;
  fetched_events = some 5;
  published_events = some 3;
  deduplicated_events = some 2;
  failure_code = none;
}

abbrev state : SourcePollState
state = record {
  source = usgs;
  policy = policy;
  current_attempt = poll;
  last_success = some poll;
  consecutive_failures = 0;
}

poll_validates : validate_attempt poll ≡ ok poll
unfolding program
poll_validates = refl

poll_miscounted :
    validate_attempt (record poll { deduplicated_events = some 1 }) ≡ raise counts_mismatch
unfolding program
poll_miscounted = refl

abbrev item : SourceFreshnessItem
item = record {
  source = usgs;
  interval = 60;
  poll_stale_after = 180;
  source_stale_after = 300;
  poll_status = SourcePollStatus.healthy;
  source_data_status = SourceDataStatus.current;
  last_outcome = some SourcePollOutcome.succeeded;
  last_stage = some SourcePollStage.complete;
  last_failure_code = none;
  last_attempt_at = some (at 1000);
  last_success_at = some (at 1002);
  last_source_generated_at = some (at 990);
  last_success_age = some (pos 58);
  source_age = some (pos 70);
  consecutive_failures = 0;
  transport_attempts = 1;
  timestamp_basis = some source_metadata;
  passed = true;
}

item_evaluated : evaluate_state (at 1060) policy state ≡ ok item
unfolding program
item_evaluated = refl

passed-iff-IsFresh_example : (item.passed ≡ true) ↔ IsFresh (at 1060) policy state
passed-iff-IsFresh_example = passed-iff-IsFresh (at 1060) policy state item item_evaluated

validate_attempt-iff-WellFormed_example : (validate_attempt poll ≡ ok poll) ↔ WellFormed poll
validate_attempt-iff-WellFormed_example = validate_attempt-iff-WellFormed poll

poll-WellFormed : WellFormed poll
poll-WellFormed = (validate_attempt-iff-WellFormed poll).0 poll_validates

state-IsStored : IsStored policy state
state-IsStored = record { agrees = refl; current = poll-WellFormed; last = (poll-WellFormed, refl) }

evaluate_source_freshness-returns_example :
    (r : SourceFreshnessResponse) × (evaluate_source_freshness (policy ∷ []) (state ∷ []) (at 1060)
      ≡ ok r)
    × (r.generated_at ≡ at 1060)
    × (map (λ i. i.source) r.items ≡ usgs ∷ [])
    × (r.passed ≡ all (λ i. i.passed) r.items)
unfolding program
evaluate_source_freshness-returns_example =
    evaluate_source_freshness-returns (policy ∷ []) (state ∷ []) (at 1060) (λ e. cc) refl refl refl
      refl ((refl, state-IsStored), tt)
