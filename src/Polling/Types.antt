-- ===== src/Polling/Types.antt =====
-- The contracts of source_polling.py as data: poll policies, attempts, states and freshness items.
-- A field whose type is one literal (`schema_version`, `execution_enabled`, …) carries no
-- information and is left out. Times and durations count whole microseconds.
use atlas_pulse.Prelude.{ℕ, Bool, Option, Text, Eq, ℕ_discrete, List}
use atlas_pulse.Prelude.Int.{ℤ, ℤ-discrete}

-- In the alphabetical order of the names, which is their canonical order.
pub data SourceName : Type 0 where
  firms gdelt nws usgs : SourceName

-- A `datetime`: `offset` is `utcoffset()`, and `none` for a naive one.
pub record Datetime : Type 0 where
  pub instant : ℕ
  pub offset : Option ℤ

pub data SourceTimestampBasis : Type 0 where
  source_metadata latest_record fetch_fallback : SourceTimestampBasis

pub data SourcePollOutcome : Type 0 where
  in_progress succeeded failed : SourcePollOutcome

pub data SourcePollStage : Type 0 where
  fetch snapshot normalize publish complete : SourcePollStage

pub data SourcePollFailureCode : Type 0 where
  transport_exhausted source_rejected source_payload_invalid : SourcePollFailureCode
  snapshot_write_failed publication_unavailable unexpected_failure : SourcePollFailureCode

pub data SourcePollStatus : Type 0 where
  healthy degraded stale starting clock_skew : SourcePollStatus

pub data SourceDataStatus : Type 0 where
  current stale not_reported future_clock_skew : SourceDataStatus

pub record SourcePollPolicy : Type 0 where
  pub source : SourceName
  pub interval : ℕ
  pub poll_stale_after : ℕ
  pub source_stale_after : ℕ

pub record SourcePollAttempt : Type 0 where
  pub attempt_id : Text
  pub source : SourceName
  pub started_at : Datetime
  pub completed_at : Option Datetime
  pub outcome : SourcePollOutcome
  pub stage : SourcePollStage
  pub transport_attempts : ℕ
  pub source_generated_at : Option Datetime
  pub timestamp_basis : Option SourceTimestampBasis
  pub fetched_events : Option ℕ
  pub published_events : Option ℕ
  pub deduplicated_events : Option ℕ
  pub failure_code : Option SourcePollFailureCode

pub record SourcePollState : Type 0 where
  pub source : SourceName
  pub policy : SourcePollPolicy
  pub current_attempt : SourcePollAttempt
  pub last_success : Option SourcePollAttempt
  pub consecutive_failures : ℕ

pub data SourcePollTransitionKind : Type 0 where
  started succeeded failed : SourcePollTransitionKind

pub record SourcePollTransition : Type 0 where
  pub stream_id : Text
  pub source : SourceName
  pub transition : SourcePollTransitionKind
  pub attempt : SourcePollAttempt

pub record SourceFreshnessItem : Type 0 where
  pub source : SourceName
  pub interval : ℕ
  pub poll_stale_after : ℕ
  pub source_stale_after : ℕ
  pub poll_status : SourcePollStatus
  pub source_data_status : SourceDataStatus
  pub last_outcome : Option SourcePollOutcome
  pub last_stage : Option SourcePollStage
  pub last_failure_code : Option SourcePollFailureCode
  pub last_attempt_at : Option Datetime
  pub last_success_at : Option Datetime
  pub last_source_generated_at : Option Datetime
  pub last_success_age : Option ℤ
  pub source_age : Option ℤ
  pub consecutive_failures : ℕ
  pub transport_attempts : ℕ
  pub timestamp_basis : Option SourceTimestampBasis
  pub passed : Bool

pub record SourceFreshnessResponse : Type 0 where
  pub generated_at : Datetime
  pub items : List SourceFreshnessItem
  pub passed : Bool

-- `==` of the literals and of the models, field by field.
unfoldable pub SourceName-discrete : Discrete SourceName
SourceName-discrete = hlevel

unfoldable pub Outcome-discrete : Discrete SourcePollOutcome
Outcome-discrete = hlevel

unfoldable pub Stage-discrete : Discrete SourcePollStage
Stage-discrete = hlevel

unfoldable pub PollStatus-discrete : Discrete SourcePollStatus
PollStatus-discrete = hlevel

unfoldable pub DataStatus-discrete : Discrete SourceDataStatus
DataStatus-discrete = hlevel

unfoldable pub Policy-discrete : Discrete SourcePollPolicy
Policy-discrete = hlevel (SourceName-discrete, ℕ_discrete)

unfoldable pub Attempt-discrete : Discrete SourcePollAttempt
Attempt-discrete = hlevel (SourceName-discrete, ℕ_discrete, ℤ-discrete)

instance abbrev pub source_name_eq : Eq SourceName
source_name_eq = record { discrete = SourceName-discrete }

instance abbrev pub outcome_eq : Eq SourcePollOutcome
outcome_eq = record { discrete = Outcome-discrete }

instance abbrev pub stage_eq : Eq SourcePollStage
stage_eq = record { discrete = Stage-discrete }

instance abbrev pub poll_status_eq : Eq SourcePollStatus
poll_status_eq = record { discrete = PollStatus-discrete }

instance abbrev pub data_status_eq : Eq SourceDataStatus
data_status_eq = record { discrete = DataStatus-discrete }

instance abbrev pub policy_eq : Eq SourcePollPolicy
policy_eq = record { discrete = Policy-discrete }

instance abbrev pub attempt_eq : Eq SourcePollAttempt
attempt_eq = record { discrete = Attempt-discrete }
