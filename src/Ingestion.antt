-- ===== src/Ingestion.antt =====
-- ingestion/service.py: one poll cycle of a source, where a poll store is configured.
pub mod Attempts
use atlas_pulse.Prelude.{
  ℕ, ◌-◌, Bool, true, false, not, Option, none, some, List, length, keep, Result, ok, raise, Text,
}
use atlas_pulse.Polling.Types.{
  SourceName, Datetime, SourceTimestampBasis, SourcePollOutcome, SourcePollStage,
  SourcePollFailureCode, SourcePollAttempt, SourcePollPolicy,
}
use atlas_pulse.Polling.Validate.{PollError, validate_attempt}
use atlas_pulse.PollStore.{Store, StoreError, record_started, record_completed}
use atlas_pulse.MemoryBus.{PublishResult}

-- An exception of a collaborator. A SourceFetchError carries the number of transport attempts.
pub data CycleError : Type 0 where
  retryable : ℕ → CycleError
  permanent : ℕ → CycleError
  other_fetch : ℕ → CycleError
  unexpected : CycleError

pub record FetchedDocument : Type 0 where
  pub raw : Text
  pub fetched_at : Datetime
  pub source_url : Text
  pub content_type : Option Text
  pub transport_attempts : ℕ

pub record SnapshotResult : Type 0 where
  pub path : Text
  pub sha256 : Text
  pub created : Bool
  pub size_bytes : ℕ

pub record NormalizedBatch (E : Type 0) : Type 0 where
  pub events : List E
  pub generated_at : Datetime
  pub timestamp_basis : SourceTimestampBasis

-- What the source, the snapshots and the bus answer in this cycle.
pub record Collaborators (E : Type 0) : Type 0 where
  pub fetch : Result CycleError FetchedDocument
  pub write : FetchedDocument → Result CycleError SnapshotResult
  pub normalize : FetchedDocument → Result CycleError (NormalizedBatch E)
  pub publish_many : List E → Result CycleError (List PublishResult)

pub record IngestionResult : Type 0 where
  pub source : SourceName
  pub fetched_at : Datetime
  pub source_generated_at : Datetime
  pub snapshot_path : Text
  pub snapshot_sha256 : Text
  pub snapshot_created : Bool
  pub fetched_events : ℕ
  pub published_events : ℕ
  pub deduplicated_events : ℕ
  pub transport_attempts : ℕ
  pub timestamp_basis : SourceTimestampBasis

-- How the `try` block ends: with the batch and the outcomes, or with an exception, the stage, the
-- transport attempts counted and the batch where there is one.
pub data Ended (E : Type 0) : Type 0 where
  finished : FetchedDocument → SnapshotResult → NormalizedBatch E → List PublishResult → Ended E
  broken : CycleError → SourcePollStage → ℕ → Option (NormalizedBatch E) → Ended E

pub data IngestError : Type 0 where
  cycle_error : CycleError → IngestError
  store_error : StoreError → IngestError
  invalid_attempt : PollError → IngestError

-- `_failure_code`
unfoldable pub failure_code : CycleError → SourcePollStage → SourcePollFailureCode
failure_code (retryable n) stage = SourcePollFailureCode.transport_exhausted
failure_code (permanent n) stage = SourcePollFailureCode.source_rejected
failure_code _ SourcePollStage.snapshot = SourcePollFailureCode.snapshot_write_failed
failure_code _ SourcePollStage.normalize = SourcePollFailureCode.source_payload_invalid
failure_code _ SourcePollStage.publish = SourcePollFailureCode.publication_unavailable
failure_code _ _ = SourcePollFailureCode.unexpected_failure

-- `error.attempt_count` of a SourceFetchError, else the attempts counted so far.
unfoldable pub attempts_of : CycleError → ℕ → ℕ
attempts_of (retryable n) counted = n
attempts_of (permanent n) counted = n
attempts_of (other_fetch n) counted = n
attempts_of unexpected counted = counted

unfoldable pub published_count : List PublishResult → ℕ
published_count outcomes = length (keep (λ o. not o.deduplicated) outcomes)

module _ {E : Type 0} where
  -- The `try` block.
  unfoldable pub run : Collaborators E → Ended E
  run c = elim c.fetch [
    | raise e ↦ broken e SourcePollStage.fetch 0 none
    | ok fetched ↦ elim (c.write fetched) [
      | raise e ↦ broken e SourcePollStage.snapshot fetched.transport_attempts none
      | ok snapshot ↦ elim (c.normalize fetched) [
        | raise e ↦ broken e SourcePollStage.normalize fetched.transport_attempts none
        | ok batch ↦ elim (c.publish_many batch.events) [
          | raise e ↦ broken e SourcePollStage.publish fetched.transport_attempts (some batch)
          | ok outcomes ↦ finished fetched snapshot batch outcomes
        ]
      ]
    ]
  ]

  unfoldable pub generated_at_of : Option (NormalizedBatch E) → Option Datetime
  generated_at_of none = none
  generated_at_of (some batch) = some batch.generated_at

  unfoldable pub basis_of : Option (NormalizedBatch E) → Option SourceTimestampBasis
  basis_of none = none
  basis_of (some batch) = some batch.timestamp_basis

  -- The attempt that closes the cycle at the time `now`.
  unfoldable pub closing_attempt : SourcePollAttempt → Datetime → Ended E → SourcePollAttempt
  closing_attempt attempt now (finished fetched snapshot batch outcomes) = record {
    attempt_id = attempt.attempt_id;
    source = attempt.source;
    started_at = attempt.started_at;
    completed_at = some now;
    outcome = SourcePollOutcome.succeeded;
    stage = SourcePollStage.complete;
    transport_attempts = fetched.transport_attempts;
    source_generated_at = some batch.generated_at;
    timestamp_basis = some batch.timestamp_basis;
    fetched_events = some (length batch.events);
    published_events = some (published_count outcomes);
    deduplicated_events = some (length outcomes - published_count outcomes);
    failure_code = none;
  }
  closing_attempt attempt now (broken error stage counted batch) = record {
    attempt_id = attempt.attempt_id;
    source = attempt.source;
    started_at = attempt.started_at;
    completed_at = some now;
    outcome = SourcePollOutcome.failed;
    stage = stage;
    transport_attempts = attempts_of error counted;
    source_generated_at = generated_at_of batch;
    timestamp_basis = basis_of batch;
    fetched_events = none;
    published_events = none;
    deduplicated_events = none;
    failure_code = some (failure_code error stage);
  }

  -- What the cycle answers once the store has answered: an error of the store hides a result, and
  -- never hides the exception of the cycle.
  unfoldable pub answer :
      SourceName → Ended E → Result StoreError (Unit {0}) → Result IngestError IngestionResult
  answer source (broken error stage counted batch) recorded = raise (cycle_error error)
  answer source (finished fetched snapshot batch outcomes) (raise e) = raise (store_error e)
  answer source (finished fetched snapshot batch outcomes) (ok _) = ok (record {
    source = source;
    fetched_at = fetched.fetched_at;
    source_generated_at = batch.generated_at;
    snapshot_path = snapshot.path;
    snapshot_sha256 = snapshot.sha256;
    snapshot_created = snapshot.created;
    fetched_events = length batch.events;
    published_events = published_count outcomes;
    deduplicated_events = length outcomes - published_count outcomes;
    transport_attempts = fetched.transport_attempts;
    timestamp_basis = batch.timestamp_basis;
  })

  unfoldable pub close :
      SourcePollAttempt → Datetime → Ended E → Store → Result IngestError IngestionResult × Store
  close attempt now ended s = elim (validate_attempt (closing_attempt attempt now ended)) [
    | raise e ↦ (raise (invalid_attempt e), s)
    | ok closing ↦
        let (recorded, next) = record_completed closing s in
        (answer attempt.source ended recorded, next)
  ]

  -- IngestionService.ingest_once, from the attempt that new_source_poll_attempt returns. `now` is the
  -- time that the clock gives at the end.
  unfoldable pub ingest_once :
      Collaborators E
      → SourcePollAttempt
      → SourcePollPolicy
      → Datetime
      → Store
      → Result IngestError IngestionResult × Store
  ingest_once c attempt policy now s =
      let (recorded, started) = record_started attempt policy s in
      elim recorded [
        | raise e ↦ (raise (store_error e), started)
        | ok _ ↦ close attempt now (run c) started
      ]
