-- ===== src/PollHistory/Returns.antt =====
-- What the route answers over a store that any calls have led to.
use atlas_pulse.Prelude.{
  ℕ, suc, ◌≤◌, ◌≡◌, Option, none, some, List, length, take, keep, ok, ltb, true, nat_eq, Text,
  arith, refl, length-take, ==_refl,
}
use mathlib.Core.List.{reverse}
use atlas_pulse.Prelude.{take-take-suc}
use atlas_pulse.StreamId.{stream_position, fits_int}
use atlas_pulse.Prelude.Int.{pos}
use atlas_pulse.Polling.Types.{Datetime, SourcePollTransition}
use atlas_pulse.Polling.Validate.{require_utc}
use atlas_pulse.PollStore.{Store, init, is_visible, page, load_recent_transitions}
use atlas_pulse.PollStore.History.{Call, perform_all}
use atlas_pulse.PollStore.Pages.{perform_all-IsNumbered}
use atlas_pulse.Prelude.{option_text_eq}
use atlas_pulse.PollHistory.{
  SourcePollHistoryResponse, oldest_cursor, validate_history, check_cursor, history_response,
  source_poll_history,
}
use atlas_pulse.PollHistory.Descending.{
  Falls, CountsDown-Falls, Falls-keep, Falls-take, positions-Falls, unique-falling,
  is_newest_first-falling, is_cursor-oldest,
}

-- The position that a cursor stands for, of which no number has more than 4300 digits.
abbrev pub Reads : Option Text → Option (ℕ × ℕ) → Type 0
Reads none none = Unit
Reads none (some p) = ⊥
Reads (some cursor) none = ⊥
Reads (some cursor) (some p) = (stream_position cursor ≡ some p) × (fits_int cursor ≡ true)

-- The transitions of a store before a position, newest first.
abbrev pub transitions_before : Option (ℕ × ℕ) → Store → List SourcePollTransition
transitions_before before s = keep (is_visible before) (reverse s.history)

load-Reads :
    (cursor : Option Text) (before : Option (ℕ × ℕ)) (limit : ℕ) (s : Store)
    → Reads cursor before
    → load_recent_transitions cursor (suc limit) s
      ≡ ok (take (suc limit) (transitions_before before s))
unfolding load_recent_transitions page
load-Reads none none limit s r = ground arith
load-Reads none (some p) limit s r = absurd r
load-Reads (some cursor) none limit s r = absurd r
load-Reads (some cursor) (some p) limit s r = ground arith

check_cursor-Reads :
    (cursor : Option Text) (before : Option (ℕ × ℕ))
    → Reads cursor before
    → check_cursor cursor ≡ ok tt
unfolding check_cursor
check_cursor-Reads none before r = refl
check_cursor-Reads (some cursor) none r = absurd r
check_cursor-Reads (some cursor) (some p) (read, fits) = ground arith

validate_history-Falls :
    (now : Datetime) (limit bound : ℕ) (items : List SourcePollTransition)
    → now.offset ≡ some (pos 0)
    → 1 ≤ limit
    → limit ≤ 100
    → Falls bound items
    → validate_history (history_response now limit items) ≡ ok tt
unfolding validate_history history_response require_utc
validate_history-Falls now limit bound items utc low high falls =
    let visible_falls = Falls-take limit bound items falls in
    let (ps, read, falling) = positions-Falls bound (take limit items) visible_falls in
    let cursor = is_cursor-oldest bound (take limit items) visible_falls in
    let distinct = unique-falling bound ps falling in
    let newest = is_newest_first-falling bound ps falling in
    ground (arith, length-take limit items, ==_refl (oldest_cursor (take limit items)))

-- Over a store that any calls have led to, with no cursor or one that is a stream id of two
-- numbers of at most 4300 digits each, a limit from 1 to 100 and a clock in UTC, the history
-- route never fails: it answers with the newest transitions before the cursor, as many as the
-- limit, and says exactly whether there are more.
pub source_poll_history-returns :
    (calls : List Call) (cursor : Option Text) (before : Option (ℕ × ℕ)) (limit : ℕ)
    (now : Datetime)
    → Reads cursor before
    → now.offset ≡ some (pos 0)
    → 1 ≤ limit
    → limit ≤ 100
    → (r : SourcePollHistoryResponse) × (source_poll_history cursor limit now
          (perform_all calls init)
        ≡ ok r)
      × (r.items ≡ take limit (transitions_before before (perform_all calls init)))
      × (r.has_more ≡ ltb limit (length (transitions_before before (perform_all calls init))))
      × (r.next_cursor ≡ oldest_cursor r.items)
unfolding source_poll_history history_response
source_poll_history-returns calls cursor before limit now reads utc low high =
    let s = perform_all calls init in
    let all_before = transitions_before before s in
    let numbered = perform_all-IsNumbered calls init (unfold init in refl) in
    let falls = Falls-keep (is_visible before) (suc s.history_sequence) (reverse s.history) (
      CountsDown-Falls s.history_sequence (suc s.history_sequence) (reverse s.history) numbered
        (omega arith)) in
    let loaded = Falls-take (suc limit) (suc s.history_sequence) all_before falls in
    let valid =
      validate_history-Falls now limit (suc s.history_sequence) (take (suc limit) all_before) utc
        low high loaded in
    (
      history_response now limit (take (suc limit) all_before),
      ground (
        arith,
        check_cursor-Reads cursor before reads,
        load-Reads cursor before limit s reads,
        valid,
      ),
      take-take-suc limit all_before,
      ground (arith, length-take (suc limit) all_before),
      refl,
    )
