-- ===== src/Tests/Ingestion.antt =====
-- One cycle of ingestion.
use atlas_pulse.Prelude.{
  ◌≡◌, true, false, none, some, List, [], ◌∷◌, Text, codes, ok, refl, arith, map, length,
}
use atlas_pulse.Polling.Types.{
  SourcePollAttempt, SourcePollOutcome, SourcePollStage, source_metadata,
}
use atlas_pulse.Polling.Validate.{validate_attempt}
use atlas_pulse.Polling.Validate.Attempts.{WellFormed, validate_attempt-iff-WellFormed}
use atlas_pulse.MemoryBus.{PublishResult}
use atlas_pulse.Ingestion.{
  Collaborators, failure_code, attempts_of, published_count, run, generated_at_of, basis_of,
  closing_attempt,
}
use atlas_pulse.Ingestion.Attempts.{Respects, closing_attempt-validates}
use atlas_pulse.Tests.Polling.{poll, at, program}

cycle_program : Unit {0}
unfolding program failure_code attempts_of published_count run generated_at_of basis_of
    closing_attempt
cycle_program = tt

abbrev begun : SourcePollAttempt
begun = record poll {
  completed_at = none;
  outcome = SourcePollOutcome.in_progress;
  stage = SourcePollStage.fetch;
  transport_attempts = 0;
  source_generated_at = none;
  timestamp_basis = none;
  fetched_events = none;
  published_events = none;
  deduplicated_events = none;
  failure_code = none;
}

abbrev fresh : Text → PublishResult
fresh event = record { stream_id = event; deduplicated = false }

abbrev collaborators : Collaborators Text
collaborators = record {
  fetch = ok (record {
    raw = codes "ab";
    fetched_at = at 1010;
    source_url = codes "u";
    content_type = none;
    transport_attempts = 2;
  });
  write = λ f. ok (record { path = codes "p"; sha256 = codes "0"; created = true; size_bytes = 2 });
  normalize = λ f. ok (record {
    events = codes "a" ∷ codes "b" ∷ [];
    generated_at = at 1005;
    timestamp_basis = source_metadata;
  });
  publish_many = λ events. ok (map fresh events);
}

length-map-fresh : (events : List Text) → length (map fresh events) ≡ length events
length-map-fresh [] = refl
length-map-fresh (e ∷ events) = omega (arith, length-map-fresh events)

collaborators-Respects : Respects collaborators
collaborators-Respects = record {
  fetched = λ f p. ground arith;
  fetch_error = λ e p. cc;
  write_error = λ f e p. cc;
  normalize_error = λ f e p. cc;
  publish_error = λ events e p. cc;
  normalized = λ f b p. ground arith;
  published = λ events outcomes p. ground (arith, length-map-fresh events);
}

begun-WellFormed : WellFormed begun
unfolding program
begun-WellFormed = (validate_attempt-iff-WellFormed begun).0 refl

counts_published : (closing_attempt begun (at 2000) (run collaborators)).published_events ≡ some 2
unfolding cycle_program
counts_published = refl

closing_attempt-validates_example :
    validate_attempt (closing_attempt begun (at 2000) (run collaborators))
    ≡ ok (closing_attempt begun (at 2000) (run collaborators))
closing_attempt-validates_example =
    closing_attempt-validates collaborators begun (at 2000) collaborators-Respects begun-WellFormed
      refl (omega arith)
