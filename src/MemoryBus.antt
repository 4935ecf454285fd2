-- ===== src/MemoryBus.antt =====
-- streams/memory.py: the in-memory event bus, which publishes each distinct event revision once.
pub mod Idempotent
pub mod Replay
pub mod Resume
use atlas_pulse.Prelude.{
  ℕ, zero, suc, ◌+◌, Bool, true, false, Option, none, some, List, [], ◌∷◌, ◌++◌, length, take,
  if◌then◌else◌, ◌==◌, text_eq, Text,
}
use mathlib.Core.List.{reverse}
use atlas_pulse.StreamId.{local_id, stream_position, position_ltb}

pub record PublishResult : Type 0 where
  pub stream_id : Text
  pub deduplicated : Bool

-- A message of the bus. `E` is the type of events.
pub record BusMessage (E : Type 0) : Type 0 where
  pub stream_id : Text
  pub event : E

pub record Bus (E : Type 0) : Type 0 where
  pub messages : List (BusMessage E)
  pub dedupe : List (Text × Text)

-- `self._dedupe.get(fingerprint)`
unfoldable pub known_id : Text → List (Text × Text) → Option Text
known_id fingerprint [] = none
known_id fingerprint ((other, id) ∷ rest) =
    if other == fingerprint then some id else known_id fingerprint rest

-- `event_fingerprint`, SHA-256 over canonical JSON, is the parameter `fingerprint`.
module _ {E : Type 0} (fingerprint : E → Text) where
  -- InMemoryEventBus.__init__
  unfoldable pub empty : Bus E
  empty = record { messages = []; dedupe = [] }

  -- The bus after a message that is not known yet.
  unfoldable pub append : E → Text → Bus E → Bus E
  append event id bus = record {
    messages = bus.messages ++ record { stream_id = id; event = event } ∷ [];
    dedupe = (fingerprint event, id) ∷ bus.dedupe;
  }

  -- InMemoryEventBus.publish
  unfoldable pub publish : E → Bus E → PublishResult × Bus E
  publish event bus = elim (known_id (fingerprint event) bus.dedupe) [
    | some id ↦ (record { stream_id = id; deduplicated = true }, bus)
    | none ↦
        let id = local_id (length bus.messages + 1) in
        (record { stream_id = id; deduplicated = false }, append event id bus)
  ]

  -- InMemoryEventBus.publish_many
  unfoldable pub publish_many : List E → Bus E → List PublishResult × Bus E
  publish_many [] bus = ([], bus)
  publish_many (event ∷ events) bus =
      let (result, next) = publish event bus in
      let (results, last) = publish_many events next in (result ∷ results, last)

  -- InMemoryEventBus.latest: of a slice from `-0`, all messages.
  unfoldable pub latest : ℕ → Bus E → List (BusMessage E)
  latest zero bus = reverse bus.messages
  latest (suc n) bus = take (suc n) (reverse bus.messages)

-- The messages from the first one behind a cursor; the ids of the bus are stream ids.
unfoldable pub after_cursor : {E : Type 0} → ℕ × ℕ → List (BusMessage E) → List (BusMessage E)
after_cursor cursor [] = []
after_cursor cursor (m ∷ messages) = elim (stream_position m.stream_id) [
  | none ↦ after_cursor cursor messages
  | some position ↦
      if position_ltb cursor position then m ∷ messages else after_cursor cursor messages
]

unfoldable pub visible_from :
    {E : Type 0} → Option (ℕ × ℕ) → List (BusMessage E) → List (BusMessage E)
visible_from none messages = messages
visible_from (some cursor) messages = after_cursor cursor messages

-- InMemoryEventBus.replay, where the cursor is the pair of numbers that `after` holds.
unfoldable pub replay : {E : Type 0} → Option (ℕ × ℕ) → ℕ → Bus E → List (BusMessage E)
replay after limit bus = take limit (visible_from after bus.messages)
