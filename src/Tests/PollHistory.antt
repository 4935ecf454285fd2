-- ===== src/Tests/PollHistory.antt =====
-- The route of the poll history over the store of two calls.
use atlas_pulse.Prelude.{
  ◌≡◌, true, some, none, [], ◌∷◌, length, take, ltb, ok, refl, arith, OptionText-discrete,
  ℕ_discrete, sorted, sort_insert,
}
use atlas_pulse.StreamId.{local_id, fits_int}
use atlas_pulse.PollStore.{init}
use atlas_pulse.PollStore.History.{perform_all}
use atlas_pulse.PollHistory.{
  SourcePollHistoryResponse, Position-discrete, Positions-discrete, oldest_cursor, positions,
  is_newest_first, is_cursor, validate_history, history_response, check_cursor, source_poll_history,
}
use atlas_pulse.PollHistory.Returns.{transitions_before, source_poll_history-returns}
use atlas_pulse.Tests.Polling.{at}
use atlas_pulse.Tests.PollStore.{store_program, calls, second}

history_program : Unit {0}
unfolding store_program OptionText-discrete ℕ_discrete Position-discrete Positions-discrete sorted
    sort_insert oldest_cursor positions is_newest_first is_cursor validate_history history_response
    fits_int check_cursor source_poll_history
history_program = tt

first_page :
    source_poll_history none 1 (at 90) (perform_all calls init)
    ≡ ok (record {
      generated_at = at 90;
      count = 1;
      items = second ∷ [];
      next_cursor = some (local_id 2);
      has_more = true;
    })
unfolding history_program
first_page = refl

source_poll_history-returns_example :
    (r : SourcePollHistoryResponse) × (source_poll_history
        (some (local_id 2))
        3
        (at 90)
        (perform_all calls init)
      ≡ ok r)
    × (r.items ≡ take 3 (transitions_before (some (0, 2)) (perform_all calls init)))
    × (r.has_more ≡ ltb 3 (length (transitions_before (some (0, 2)) (perform_all calls init))))
    × (r.next_cursor ≡ oldest_cursor r.items)
unfolding history_program
source_poll_history-returns_example =
    source_poll_history-returns calls (some (local_id 2)) (some (0, 2)) 3 (at 90) (refl, refl) refl
      (omega arith) (omega arith)
