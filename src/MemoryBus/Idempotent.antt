-- ===== src/MemoryBus/Idempotent.antt =====
-- Publishing again what has been published.
use atlas_pulse.Prelude.{
  ◌≡◌, true, some, List, [], ◌∷◌, map, refl, arith, Option-cases, Text, ==→eq, text_eq, ==_refl,
}
use atlas_pulse.MemoryBus.{PublishResult, Bus, known_id, append, publish, publish_many}

-- The answer to a publication that is repeated.
abbrev pub repeated : PublishResult → PublishResult
repeated r = record { stream_id = r.stream_id; deduplicated = true }

module _ {E : Type 0} (fingerprint : E → Text) where
  -- The id under which an event is known.
  abbrev IsKnown : Bus E → Text → E → Type 0
  IsKnown bus id event = known_id (fingerprint event) bus.dedupe ≡ some id

  publish-known :
      (event : E) (id : Text) (bus : Bus E)
      → IsKnown bus id event
      → publish fingerprint event bus ≡ (record { stream_id = id; deduplicated = true }, bus)
  unfolding publish
  publish-known event id bus known = ground (arith, known)

  -- What was known keeps its id.
  publish-keeps :
      (event other : E) (id : Text) (bus : Bus E)
      → IsKnown bus id other
      → IsKnown (publish fingerprint event bus).1 id other
  unfolding publish append known_id
  publish-keeps event other id bus known = ground (
    arith,
    known,
    Option-cases (known_id (fingerprint event) bus.dedupe),
    ==→eq (fingerprint event) (fingerprint other),
  )

  publish-IsKnown :
      (event : E) (bus : Bus E)
      → IsKnown (publish fingerprint event bus).1 (publish fingerprint event bus).0.stream_id event
  unfolding publish append known_id
  publish-IsKnown event bus =
      ground
        (arith, Option-cases (known_id (fingerprint event) bus.dedupe), ==_refl (fingerprint event))

  publish_many-keeps :
      (events : List E) (other : E) (id : Text) (bus : Bus E)
      → IsKnown bus id other
      → IsKnown (publish_many fingerprint events bus).1 id other
  unfolding publish_many
  publish_many-keeps [] other id bus known = known
  publish_many-keeps (event ∷ events) other id bus known =
      publish_many-keeps events other id (publish fingerprint event bus).1
        (publish-keeps event other id bus known)

  -- Publishing the same events once more, in any bus, answers with the same ids, each marked as
  -- deduplicated, and leaves the bus as the first publication left it.
  pub publish_many-again :
      (events : List E) (bus : Bus E)
      → publish_many fingerprint events (publish_many fingerprint events bus).1 ≡ (
        map repeated (publish_many fingerprint events bus).0,
        (publish_many fingerprint events bus).1,
      )
  unfolding publish_many
  publish_many-again [] bus = refl
  publish_many-again (event ∷ events) bus =
      let first = publish fingerprint event bus in
      let last = (publish_many fingerprint events first.1).1 in
      let known =
        publish_many-keeps events event first.0.stream_id first.1 (publish-IsKnown event bus) in
      rw (publish-known event first.0.stream_id last known, publish_many-again events first.1)
