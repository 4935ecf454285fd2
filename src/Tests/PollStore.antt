-- ===== src/Tests/PollStore.antt =====
-- Runs of the poll store.
use atlas_pulse.Prelude.{◌≡◌, some, none, List, [], ◌∷◌, take, ok, raise, refl}
use atlas_pulse.Prelude.Decimal.{print_from, parse_from, is_digit, is_number, print_nat}
use mathlib.Core.List.{reverse}
use atlas_pulse.StreamId.{split_dash, stream_position, position_ltb, local_id}
use atlas_pulse.Polling.Types.{
  usgs, SourcePollAttempt, SourcePollOutcome, SourcePollStage, SourcePollTransition,
  SourcePollTransitionKind,
}
use atlas_pulse.Polling.Validate.{
  check_last_success, is_last_success, check_current, validate_state, expected_outcome,
  validate_transition,
}
use atlas_pulse.PollStore.{
  init, put_state, append_transition, store_state, is_stale_start, kept_success, kept_failures,
  started_state, record_started, is_completable, completed_state, completed_kind, complete_existing,
  record_completed, is_visible, page, load_recent_transitions, stale_completion,
}
use atlas_pulse.PollStore.History.{
  Call, start, complete, perform, perform_all, summary_of, summarize, perform_all-summarize,
}
use atlas_pulse.PollStore.Pages.{pages-join}
use atlas_pulse.Tests.Polling.{policy, poll, program}
use atlas_pulse.Polling.Types.{Attempt-discrete}

unfoldable pub store_program : Unit {0}
unfolding program print_from parse_from is_digit is_number print_nat split_dash stream_position
    position_ltb local_id check_last_success is_last_success check_current validate_state
    expected_outcome validate_transition init put_state append_transition store_state is_stale_start
    kept_success kept_failures started_state record_started is_completable completed_state
    completed_kind complete_existing record_completed is_visible page load_recent_transitions
    perform perform_all Attempt-discrete
store_program = tt

abbrev opened : SourcePollAttempt
opened = record poll {
  completed_at = none;
  outcome = SourcePollOutcome.in_progress;
  stage = SourcePollStage.fetch;
  transport_attempts = 0;
  source_generated_at = none;
  timestamp_basis = none;
  fetched_events = none;
  published_events = none;
  deduplicated_events = none;
}

abbrev pub calls : List Call
calls = start opened policy ∷ complete poll ∷ complete poll ∷ []

completed_twice :
    (record_completed poll (perform_all (start opened policy ∷ complete poll ∷ []) init)).0
    ≡ raise stale_completion
unfolding store_program
completed_twice = refl

perform_all-summarize_example :
    summary_of ((perform_all calls init).states usgs)
    ≡ summarize usgs (perform_all calls init).history
perform_all-summarize_example = perform_all-summarize calls usgs

abbrev pub second : SourcePollTransition
second = record {
  stream_id = local_id 2;
  source = usgs;
  transition = SourcePollTransitionKind.succeeded;
  attempt = poll;
}

pages-join_example :
    (ys : List SourcePollTransition) × (load_recent_transitions
        (some (local_id 2))
        1
        (perform_all calls init)
      ≡ ok ys)
    × (second ∷ ys ≡ take 2 (reverse (perform_all calls init).history))
unfolding store_program
pages-join_example = pages-join calls 0 0 (second ∷ []) second refl refl
