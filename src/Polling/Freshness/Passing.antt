-- ===== src/Polling/Freshness/Passing.antt =====
-- What a source must show for its freshness item to pass.
use atlas_pulse.Prelude.{
  ◌+◌, ◌≤◌, ◌≡◌, ◌≢◌, ◌↔◌, true, false, Option-cases, inl, inr, Option, some, none, IfSome, OnSome,
  ok, arith,
}
use atlas_pulse.Polling.Types.{
  Datetime, SourcePollOutcome, SourcePollPolicy, SourcePollAttempt, SourcePollState,
  SourceFreshnessItem, SourcePollStatus,
}
use atlas_pulse.Polling.Freshness.{
  evaluate_state, age, source_status_of, heartbeat, completes_later, view_success, SuccessView,
  is_fresh, validate_freshness, reported_item,
}

-- The last success, as it is seen at `now`: completed by then, on data that is neither from the
-- future nor older than the policy allows.
abbrev pub IsCurrent : Datetime → SourcePollPolicy → SourcePollAttempt → Type 0
IsCurrent now policy success =
    OnSome success.completed_at (λ t. t.instant ≤ now.instant)
    × OnSome success.source_generated_at
        (λ t. (t.instant ≤ now.instant) × (now.instant ≤ t.instant + policy.source_stale_after))

abbrev pub IsFresh : Datetime → SourcePollPolicy → SourcePollState → Type 0
IsFresh now policy state =
    (state.current_attempt.started_at.instant ≤ now.instant)
    × (now.instant ≤ state.current_attempt.started_at.instant + policy.poll_stale_after)
    × IfSome state.current_attempt.completed_at (λ t. t.instant ≤ now.instant)
    × (state.current_attempt.outcome ≢ SourcePollOutcome.failed)
    × OnSome state.last_success (IsCurrent now policy)

abbrev IsAlive : Datetime → SourcePollPolicy → SourcePollAttempt → Type 0
IsAlive now policy current =
    (current.started_at.instant ≤ now.instant)
    × (now.instant ≤ current.started_at.instant + policy.poll_stale_after)
    × IfSome current.completed_at (λ t. t.instant ≤ now.instant)
    × (current.outcome ≢ SourcePollOutcome.failed)

completes_later-eq_false :
    (now : Datetime) (completed : Option Datetime)
    → (completes_later now completed ≡ false) ↔ IfSome completed (λ t. t.instant ≤ now.instant)
unfolding completes_later
completes_later-eq_false now none = ground arith
completes_later-eq_false now (some t) = ground arith

heartbeat-eq-healthy :
    (now : Datetime) (policy : SourcePollPolicy) (current success : SourcePollAttempt)
    → (heartbeat now policy current (some success) ≡ SourcePollStatus.healthy)
      ↔ IsAlive now policy current
unfolding heartbeat
heartbeat-eq-healthy now policy current success =
    ground (arith, completes_later-eq_false now current.completed_at)

validate_freshness-eq-ok : (i j : SourceFreshnessItem) → validate_freshness i ≡ ok j → j ≡ i
unfolding validate_freshness
validate_freshness-eq-ok i j h = ground arith

-- The view of a last success passes exactly when the heartbeat is healthy and the success current.
view_success-is_fresh :
    (now : Datetime) (policy : SourcePollPolicy) (status : SourcePollStatus)
    (success : SourcePollAttempt) (view : SuccessView)
    → view_success now policy status (some success) ≡ some view
    → (is_fresh view.poll_status view.source_status ≡ true)
      ↔ ((status ≡ SourcePollStatus.healthy) × IsCurrent now policy success)
unfolding view_success age source_status_of
view_success-is_fresh now policy status success view h = ground arith

evaluate_state-eq-ok :
    (now : Datetime) (policy : SourcePollPolicy) (state : SourcePollState)
    (item : SourceFreshnessItem)
    → evaluate_state now policy state ≡ ok item
    → (view : SuccessView) × (view_success now policy
          (heartbeat now policy state.current_attempt state.last_success)
          state.last_success
        ≡ some view)
      × (item ≡ reported_item policy state view)
unfolding evaluate_state
evaluate_state-eq-ok now policy state item h =
    elim (Option-cases (
      view_success now policy (heartbeat now policy state.current_attempt state.last_success)
        state.last_success)) [
          | inl e ↦ ground arith
          | inr (view, e) ↦ (
            view,
            e,
            ground (arith, validate_freshness-eq-ok (reported_item policy state view) item),
          )
        ]

view_success-none :
    (now : Datetime) (policy : SourcePollPolicy) (status : SourcePollStatus) (view : SuccessView)
    → view_success now policy status none ≡ some view
    → is_fresh view.poll_status view.source_status ≡ false
unfolding view_success
view_success-none now policy status view h = ground arith

passed_iff :
    (now : Datetime) (policy : SourcePollPolicy) (current : SourcePollAttempt)
    (last : Option SourcePollAttempt) (view : SuccessView)
    → view_success now policy (heartbeat now policy current last) last ≡ some view
    → (is_fresh view.poll_status view.source_status ≡ true)
      ↔ (IsAlive now policy current × OnSome last (IsCurrent now policy))
passed_iff now policy current none view h =
    let never = view_success-none now policy (heartbeat now policy current none) view h in
    (λ f. absurd (cc never), λ (a, b). absurd b)
passed_iff now policy current (some success) view h =
    let (to, from) =
      view_success-is_fresh now policy (heartbeat now policy current (some success)) success view
        h in
    let (to', from') = heartbeat-eq-healthy now policy current success in
    (λ f. let (a, b) = to f in (to' a, b), λ (a, b). from (from' a, b))

-- An evaluated item passes exactly when the latest attempt has neither failed nor gone stale nor
-- lies in the future, and the last success completed by now on source data that is neither in the
-- future nor stale.
pub passed-iff-IsFresh :
    (now : Datetime) (policy : SourcePollPolicy) (state : SourcePollState)
    (item : SourceFreshnessItem)
    → evaluate_state now policy state ≡ ok item
    → (item.passed ≡ true) ↔ IsFresh now policy state
unfolding reported_item
passed-iff-IsFresh now policy state item h =
    let (view, seen, e) = evaluate_state-eq-ok now policy state item h in
    let (to, from) = passed_iff now policy state.current_attempt state.last_success view seen in
    rw e (
      λ p. let ((a, b, c, d), k) = to p in (a, b, c, d, k),
      λ (a, b, c, d, k). from ((a, b, c, d), k),
    )
