-- ===== src/Polling/Validate/Attempts.antt =====
-- What `validate_attempt` accepts.
use atlas_pulse.Prelude.{
  ◌+◌, ◌≤◌, ◌≡◌, ◌≢◌, ◌↔◌, true, false, Option, some, none, IfSome, OnSome, ok, arith, refl,
  matches_id, inl, inr, Decides, Option-cases,
}
use atlas_pulse.Prelude.Int.{pos, ℤ-discrete}
use atlas_pulse.Polling.Types.{Datetime, SourcePollOutcome, SourcePollAttempt, SourcePollStage}
use atlas_pulse.Polling.Validate.{
  is_some, require_utc, require_utc?, ends_before, check_outcome, validate_attempt, attempt_prefix,
  not_aware, not_utc,
}

abbrev pub IsUtc : Datetime → Type 0
IsUtc d = d.offset ≡ some (pos 0)

-- What an attempt holds at each point of its life.
abbrev pub Lifecycle : SourcePollAttempt → SourcePollOutcome → Type 0
Lifecycle a SourcePollOutcome.in_progress =
    (is_some a.completed_at ≡ false)
    × (is_some a.failure_code ≡ false)
    × (a.stage ≢ SourcePollStage.complete)
    × (is_some a.fetched_events ≡ false)
    × (is_some a.published_events ≡ false)
    × (is_some a.deduplicated_events ≡ false)
    × (a.transport_attempts ≡ 0)
Lifecycle a SourcePollOutcome.succeeded =
    (is_some a.completed_at ≡ true)
    × (is_some a.failure_code ≡ false)
    × (a.stage ≡ SourcePollStage.complete)
    × (is_some a.source_generated_at ≡ true)
    × (1 ≤ a.transport_attempts)
    × OnSome a.fetched_events (λ fetched. OnSome a.published_events (λ published.
      OnSome a.deduplicated_events (λ deduplicated. published + deduplicated ≡ fetched)))
Lifecycle a SourcePollOutcome.failed =
    (is_some a.completed_at ≡ true)
    × (is_some a.failure_code ≡ true)
    × (a.stage ≢ SourcePollStage.complete)
    × (is_some a.published_events ≡ is_some a.fetched_events)
    × (is_some a.deduplicated_events ≡ is_some a.fetched_events)

pub record WellFormed (a : SourcePollAttempt) : Type 0 where
  pub identified : matches_id attempt_prefix 32 a.attempt_id ≡ true
  pub bounded : a.transport_attempts ≤ 20
  pub started : IsUtc a.started_at
  pub completed : IfSome a.completed_at IsUtc
  pub ordered : IfSome a.completed_at (λ t. a.started_at.instant ≤ t.instant)
  pub generated : IfSome a.source_generated_at IsUtc
  pub based : is_some a.source_generated_at ≡ is_some a.timestamp_basis
  pub lifecycle : Lifecycle a a.outcome

pub require_utc-Decides : (d : Datetime) → Decides (require_utc d) d (IsUtc d)
unfolding require_utc
require_utc-Decides d = elim (Option-cases d.offset) [
  | inl e ↦ inr (not_aware, ground arith, ground arith)
  | inr (offset, e) ↦ elim (ℤ-discrete offset (pos 0)) [
    | yes zero_offset ↦ inl (ground arith, ground arith)
    | no other ↦ inr (not_utc, ground arith, ground arith)
  ]
]

pub require_utc?-Decides : (o : Option Datetime) → Decides (require_utc? o) o (IfSome o IsUtc)
unfolding require_utc?
require_utc?-Decides none = inl (refl, tt)
require_utc?-Decides (some d) = elim (require_utc-Decides d) [
  | inl (e, utc) ↦ inl (ground arith, utc)
  | inr (e, raised, other) ↦ inr (e, ground arith, other)
]

ends_before-eq_false :
    (completed : Option Datetime) (started : Datetime)
    → (ends_before completed started ≡ false) ↔ IfSome completed (λ t. started.instant ≤ t.instant)
unfolding ends_before
ends_before-eq_false none started = ground arith
ends_before-eq_false (some t) started = ground arith

check_outcome-eq-ok :
    (a : SourcePollAttempt) (outcome : SourcePollOutcome)
    → (check_outcome a (is_some a.completed_at) outcome ≡ ok tt) ↔ Lifecycle a outcome
unfolding check_outcome
check_outcome-eq-ok a SourcePollOutcome.in_progress = ground arith
check_outcome-eq-ok a SourcePollOutcome.succeeded = ground arith
check_outcome-eq-ok a SourcePollOutcome.failed = ground arith

-- An attempt validates exactly when it is well formed: its id, its bound, UTC times in order, a
-- timestamp with its basis, and what its outcome demands.
pub validate_attempt-iff-WellFormed :
    (a : SourcePollAttempt) → (validate_attempt a ≡ ok a) ↔ WellFormed a
unfolding validate_attempt
validate_attempt-iff-WellFormed a = ground (
  arith,
  require_utc-Decides a.started_at,
  require_utc?-Decides a.completed_at,
  require_utc?-Decides a.source_generated_at,
  ends_before-eq_false a.completed_at a.started_at,
  check_outcome-eq-ok a a.outcome,
)
