-- ===== src/MemoryBus/Replay.antt =====
-- What a bus replays, against what was published in it.
use atlas_pulse.Prelude.{
  ℕ, zero, suc, ◌+◌, ◌≡◌, true, false, none, List, [], ◌∷◌, ◌++◌, map, map-append, append-nil,
  append_assoc, length, take, contains, Text, text_eq, refl, arith, Option-cases, inl, inr, ap, ◌∙◌,
}
use atlas_pulse.StreamId.{local_id}
use atlas_pulse.Polling.Validate.{is_some}
use atlas_pulse.MemoryBus.{
  BusMessage, Bus, known_id, empty, append, publish, publish_many, visible_from, replay,
}

abbrev pub event_of : {E : Type 0} → BusMessage E → E
event_of m = m.event

map-take {ℓ κ} :
    {A : Type ℓ} {B : Type κ} (f : A → B) (n : ℕ) (xs : List A)
    → map f (take n xs) ≡ take n (map f xs)
map-take f zero xs = refl
map-take f (suc n) [] = refl
map-take f (suc n) (x ∷ xs) = ap (◌∷◌ (f x)) (map-take f n xs)

known_id-contains :
    (fingerprint : Text) (ids : List (Text × Text))
    → is_some (known_id fingerprint ids) ≡ contains fingerprint (map (λ p. p.0) ids)
unfolding known_id
known_id-contains fingerprint [] = refl
known_id-contains fingerprint ((other, id) ∷ ids) =
    ground (arith, known_id-contains fingerprint ids)

module _ {E : Type 0} (fingerprint : E → Text) where
  -- The events without those that have the fingerprint of an earlier one, or of one that was seen.
  unfoldable pub first_of_each : List Text → List E → List E
  first_of_each seen [] = []
  first_of_each seen (event ∷ events) = elim (contains (fingerprint event) seen) [
    | true ↦ first_of_each seen events
    | false ↦ event ∷ first_of_each (fingerprint event ∷ seen) events
  ]

  abbrev seen_by : Bus E → List Text
  seen_by bus = map (λ p. p.0) bus.dedupe

  publish_many-events :
      (events : List E) (bus : Bus E)
      → map event_of (publish_many fingerprint events bus).1.messages
        ≡ map event_of bus.messages ++ first_of_each (seen_by bus) events
  unfolding publish_many first_of_each publish append
  publish_many-events [] bus = rw append-nil refl
  publish_many-events (event ∷ events) bus =
      elim (Option-cases (known_id (fingerprint event) bus.dedupe)) [
        | inl fresh ↦
            let new = append fingerprint event (local_id (length bus.messages + 1)) bus in
            let unseen : contains (fingerprint event) (seen_by bus) ≡ false =
              ground (arith, known_id-contains (fingerprint event) bus.dedupe) in
            let m : BusMessage E = record {
              stream_id = local_id (length bus.messages + 1);
              event = event;
            } in
            ground (
              arith,
              publish_many-events events new,
              map-append event_of bus.messages (m ∷ []),
              append_assoc (map event_of bus.messages) (event ∷ [])
                  (first_of_each (fingerprint event ∷ seen_by bus) events),
            )
        | inr (id, known) ↦
            let seen : contains (fingerprint event) (seen_by bus) ≡ true =
              ground (arith, known_id-contains (fingerprint event) bus.dedupe) in
            ground (arith, publish_many-events events bus)
      ]

  -- What is published in a new bus is replayed from its start: each distinct event once, in the order of
  -- publication, as many as the limit.
  pub replay-publish_many :
      (events : List E) (limit : ℕ)
      → map event_of (replay none limit (publish_many fingerprint events (empty fingerprint)).1)
        ≡ take limit (first_of_each [] events)
  unfolding replay visible_from empty
  replay-publish_many events limit =
      map-take event_of limit (publish_many fingerprint events (empty fingerprint)).1.messages
      ∙ ap (take limit) (publish_many-events events (empty fingerprint))
