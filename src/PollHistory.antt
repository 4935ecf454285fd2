-- ===== src/PollHistory.antt =====
-- The page of the poll history: SourcePollHistoryResponse of source_polling.py with its validator, and
-- the route `source_poll_history` of api.py over the store in memory.
pub mod Descending
pub mod Returns
use atlas_pulse.Prelude.{
  ℕ, ◌+◌, Bool, true, false, ◌&&◌, ◌||◌, not, Option, none, some, List, [], ◌∷◌, length, take,
  last?, unique, sorted, Result, ok, raise, ◌>>=◌, ◌>>◌, raise_if, map_error, ltb, ◌==◌, nat_eq,
  Text, ℕ_discrete, Eq, option_text_eq,
}
use atlas_pulse.StreamId.{stream_position, fits_int, position_ltb}
use atlas_pulse.Polling.Types.{Datetime, SourcePollTransition}
use atlas_pulse.Polling.Validate.{PollError, is_some, require_utc}
use atlas_pulse.PollStore.{Store, StoreError, not_a_stream_id, load_recent_transitions}

unfoldable pub Position-discrete : Discrete (ℕ × ℕ)
Position-discrete = hlevel ℕ_discrete

instance abbrev pub position_eq : Eq (ℕ × ℕ)
position_eq = record { discrete = Position-discrete }

unfoldable pub Positions-discrete : Discrete (List (ℕ × ℕ))
Positions-discrete = hlevel ℕ_discrete

instance abbrev pub positions_eq : Eq (List (ℕ × ℕ))
positions_eq = record { discrete = Positions-discrete }

pub data HistoryError : Type 0 where
  field_constraint not_stream_ids count_mismatch cursor_mismatch empty_has_more not_newest_first :
      HistoryError
  invalid_time : PollError → HistoryError

pub record SourcePollHistoryResponse : Type 0 where
  pub generated_at : Datetime
  pub count : ℕ
  pub items : List SourcePollTransition
  pub next_cursor : Option Text
  pub has_more : Bool

-- `items[-1].stream_id if items else None`
unfoldable pub oldest_cursor : List SourcePollTransition → Option Text
oldest_cursor items = elim (last? items) [ none ↦ none | some t ↦ some t.stream_id ]

-- The positions of the ids of all items, if they are all stream ids.
unfoldable pub positions : List SourcePollTransition → Option (List (ℕ × ℕ))
positions [] = some []
positions (t ∷ items) = elim (stream_position t.stream_id) [
  | none ↦ none
  | some p ↦ elim (positions items) [ none ↦ none | some ps ↦ some (p ∷ ps) ]
]

-- `positions == sorted(positions, reverse=True)`
unfoldable pub is_newest_first : List (ℕ × ℕ) → Bool
is_newest_first ps = ps == sorted (λ p q. not (position_ltb p q)) ps

unfoldable pub is_cursor : Option Text → Bool
is_cursor none = true
is_cursor (some cursor) = is_some (stream_position cursor)

-- SourcePollHistoryResponse.validate_history, after the constraints of the fields
unfoldable pub validate_history : SourcePollHistoryResponse → Result HistoryError (Unit {0})
validate_history r = do
  raise_if (ltb 100 (length r.items) || not (is_cursor r.next_cursor)) field_constraint
  map_error invalid_time (require_utc r.generated_at)
  raise_if (not (r.count == length r.items)) count_mismatch
  raise_if (not (r.next_cursor == oldest_cursor r.items)) cursor_mismatch
  raise_if (r.has_more && length r.items == 0) empty_has_more
  elim (positions r.items) [
    | none ↦ raise not_stream_ids
    | some ps ↦ raise_if (not (unique ps) || not (is_newest_first ps)) not_newest_first
  ]

-- `HTTPException` 503
pub data Unavailable : Type 0 where
  store_error : StoreError → Unavailable
  invalid_page : HistoryError → Unavailable

unfoldable pub history_response :
    Datetime → ℕ → List SourcePollTransition → SourcePollHistoryResponse
history_response now limit page = record {
  generated_at = now;
  count = length (take limit page);
  items = take limit page;
  next_cursor = oldest_cursor (take limit page);
  has_more = ltb limit (length page);
}

-- The first step of the store, reading the cursor, fails on more digits than `int` reads.
unfoldable pub check_cursor : Option Text → Result Unavailable (Unit {0})
check_cursor none = ok tt
check_cursor (some cursor) = raise_if (not (fits_int cursor)) (store_error not_a_stream_id)

-- The route, with a store configured and at the time `now` of the clock.
unfoldable pub source_poll_history :
    Option Text → ℕ → Datetime → Store → Result Unavailable SourcePollHistoryResponse
source_poll_history before limit now store = do
  check_cursor before
  page ← map_error store_error (load_recent_transitions before (limit + 1) store)
  map_error invalid_page (validate_history (history_response now limit page))
  ok (history_response now limit page)
