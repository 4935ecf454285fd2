-- ===== src/Tests/MemoryBus.antt =====
-- Publications in the in-memory bus.
use atlas_pulse.Prelude.{
  ◌≡◌, List, [], ◌∷◌, Text, codes, refl, true, false, map, Text-discrete, ℕ_discrete,
}
use atlas_pulse.MemoryBus.{known_id, empty, append, publish, publish_many}
use atlas_pulse.MemoryBus.Idempotent.{publish_many-again, repeated}
use atlas_pulse.MemoryBus.Replay.{event_of, first_of_each, replay-publish_many}
use atlas_pulse.MemoryBus.Resume.{replays-join}
use atlas_pulse.MemoryBus.{BusMessage, Bus, after_cursor, visible_from, replay}
use atlas_pulse.StreamId.{local_id, stream_position, split_dash, position_ltb}
use atlas_pulse.Prelude.{ℕ, some, none, take, ◌++◌}
use atlas_pulse.Prelude.Decimal.{is_digit, is_number, parse_from, print_from, print_nat}

bus_program : Unit {0}
unfolding after_cursor visible_from replay first_of_each local_id stream_position split_dash
    position_ltb is_digit is_number parse_from print_from print_nat known_id empty append publish
    publish_many Text-discrete ℕ_discrete
bus_program = tt

-- Events that are their own fingerprints.
abbrev own : Text → Text
own event = event

abbrev events : List Text
events = codes "a" ∷ codes "b" ∷ codes "a" ∷ []

marks_repetition :
    map (λ r. r.deduplicated) (publish_many own events (empty own)).0 ≡ false ∷ false ∷ true ∷ []
unfolding bus_program
marks_repetition = refl

publish_many-again_example : publish_many own events (publish_many own events (empty own)).1 ≡ (
  map repeated (publish_many own events (empty own)).0,
  (publish_many own events (empty own)).1,
)
publish_many-again_example = publish_many-again own events (empty own)

abbrev bus : Bus Text
bus = (publish_many own events (empty own)).1

replay-publish_many_example :
    map event_of (replay none 5 bus) ≡ take 5 (first_of_each own [] events)
replay-publish_many_example = replay-publish_many own events 5

replayed_once : map event_of (replay none 5 bus) ≡ codes "a" ∷ codes "b" ∷ []
unfolding bus_program
replayed_once = refl

abbrev last_message : BusMessage Text
last_message = record { stream_id = local_id 2; event = codes "b" }

replays-join_example :
    (c : ℕ × ℕ) × (stream_position (local_id 2) ≡ some c)
    × (replay (some (0, 1)) 1 bus ++ replay (some c) 3 bus ≡ replay (some (0, 1)) 4 bus)
unfolding bus_program
replays-join_example = replays-join own events (some (0, 1)) 0 3 last_message refl
