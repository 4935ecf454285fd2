-- ===== src/Polling/Freshness/Returns.antt =====
-- The evaluation raises nothing on configured policies and stored states: every item and the
-- response that it builds pass their own validators.
use atlas_pulse.Prelude.{
  ◌≡◌, true, ◌&&◌, ◌||◌, not, Bool, Option, some, none, List, [], ◌∷◌, map, IfSome, All, all, ok,
  arith, refl, sym, ◌∙◌, if◌then◌else◌, ◌==◌, nat_eq, false,
}
use atlas_pulse.Polling.Types.{
  Datetime, SourcePollOutcome, SourcePollPolicy, SourcePollAttempt, SourcePollState,
  SourceFreshnessItem, SourcePollStatus, SourceTimestampBasis,
}
use atlas_pulse.Polling.Validate.{is_some, some_of, validate_thresholds}
use atlas_pulse.Polling.Validate.Attempts.{IsUtc, Lifecycle, WellFormed, require_utc?-Decides}
use atlas_pulse.Polling.Freshness.{
  evaluate_state, evaluate_policy, evaluate_policies, heartbeat, view_success, SuccessView,
  source_status_of, is_negative, age, validate_freshness, reported_item, unreported_item, is_aged,
  state_of, is_partial, is_failed,
}

-- A policy that its validator accepts.
abbrev pub IsConfigured : SourcePollPolicy → Type 0
IsConfigured policy = validate_thresholds policy ≡ ok policy

-- The bounds of the thresholds that an item takes from its policy.
abbrev HasThresholds : SourcePollPolicy → Type 0
HasThresholds policy =
    ((policy.interval == 0) ≡ false)
    × ((policy.poll_stale_after == 0) ≡ false)
    × ((policy.source_stale_after == 0) ≡ false)

IsConfigured-HasThresholds :
    (policy : SourcePollPolicy) → IsConfigured policy → HasThresholds policy
unfolding validate_thresholds
IsConfigured-HasThresholds policy h = (ground arith, ground arith, ground arith)

-- A state as the store keeps it under a policy.
pub record IsStored (policy : SourcePollPolicy) (state : SourcePollState) : Type 0 where
  pub agrees : state.policy ≡ policy
  pub current : WellFormed state.current_attempt
  pub last :
      IfSome state.last_success (λ s. WellFormed s × (s.outcome ≡ SourcePollOutcome.succeeded))

-- The ages of an item against `now`, as the validator of the response tests them.
abbrev pub is_item_aged : Datetime → SourceFreshnessItem → Bool
is_item_aged now i =
    not (is_some i.last_success_at)
    || (is_aged now i.last_success_at i.last_success_age
        && is_aged now i.last_source_generated_at i.source_age)

abbrev Returns : Datetime → SourcePollPolicy → SourcePollState → Type 0
Returns now policy state =
    (item : SourceFreshnessItem) × (evaluate_state now policy state ≡ ok item)
    × (item.source ≡ policy.source)
    × (is_item_aged now item ≡ true)

Lifecycle-failure :
    (a : SourcePollAttempt) (outcome : SourcePollOutcome)
    → Lifecycle a outcome
    → is_some a.failure_code ≡ is_failed (some outcome)
unfolding is_failed
Lifecycle-failure a SourcePollOutcome.in_progress h = ground arith
Lifecycle-failure a SourcePollOutcome.succeeded h = ground arith
Lifecycle-failure a SourcePollOutcome.failed h = ground arith

-- A view names a last success whole, or not at all.
record Whole (now : Datetime) (v : SuccessView) : Type 0 where
  at_all : IfSome v.success_at IsUtc
  generated : IfSome v.generated_at IsUtc
  with_generated : is_some v.generated_at ≡ is_some v.success_at
  with_success_age : is_some v.success_age ≡ is_some v.success_at
  with_source_age : is_some v.source_age ≡ is_some v.success_at
  with_basis : is_some v.basis ≡ is_some v.success_at
  aged :
      (not (is_some v.success_at)
        || (is_aged now v.success_at v.success_age && is_aged now v.generated_at v.source_age))
      ≡ true

abbrev Viewed : Datetime → SourcePollPolicy → SourcePollStatus → Option SourcePollAttempt → Type 0
Viewed now policy status last =
    (v : SuccessView) × (view_success now policy status last ≡ some v) × Whole now v

module _ (now : Datetime) (policy : SourcePollPolicy) (status : SourcePollStatus) where
  succeeded-Viewed :
      (s : SourcePollAttempt) (completed generated : Datetime) (basis : SourceTimestampBasis)
      → s.completed_at ≡ some completed
      → s.source_generated_at ≡ some generated
      → s.timestamp_basis ≡ some basis
      → IsUtc completed
      → IsUtc generated
      → Viewed now policy status (some s)
  unfolding view_success is_aged
  succeeded-Viewed s completed generated basis c g b uc ug = (
    record {
      poll_status = if is_negative (age now completed) then SourcePollStatus.clock_skew else status;
      source_status = source_status_of policy (age now generated);
      success_at = some completed;
      generated_at = some generated;
      success_age = some (age now completed);
      source_age = some (age now generated);
      basis = some basis;
    },
    rw (c, g, b) refl,
    record {
      at_all = uc;
      generated = ug;
      with_generated = refl;
      with_success_age = refl;
      with_source_age = refl;
      with_basis = refl;
      aged = ground arith;
    },
  )

  view_success-Viewed :
      (last : Option SourcePollAttempt)
      → IfSome last (λ s. WellFormed s × (s.outcome ≡ SourcePollOutcome.succeeded))
      → Viewed now policy status last
  unfolding view_success is_aged
  view_success-Viewed none h = (_, refl, ground arith)
  view_success-Viewed (some s) (w, e) =
      let life : Lifecycle s SourcePollOutcome.succeeded = rw e at w.lifecycle in
      let (completed, c) = some_of s.completed_at life.0 in
      let (generated, g) = some_of s.source_generated_at life.3 in
      let (basis, b) = some_of s.timestamp_basis (sym w.based ∙ life.3) in
      succeeded-Viewed s completed generated basis c g b (rw c at w.completed) (rw g at w.generated)

module _ (now : Datetime) (policy : SourcePollPolicy) (state : SourcePollState)
    (v : SuccessView) where
  reported_item-valid :
      HasThresholds policy
      → WellFormed state.current_attempt
      → Whole now v
      → validate_freshness (reported_item policy state v) ≡ ok (reported_item policy state v)
  unfolding validate_freshness is_partial reported_item
  reported_item-valid bounds w h = ground (
    arith,
    require_utc?-Decides (some state.current_attempt.started_at),
    require_utc?-Decides v.success_at,
    require_utc?-Decides v.generated_at,
    Lifecycle-failure state.current_attempt state.current_attempt.outcome,
  )

module _ (now : Datetime) (policy : SourcePollPolicy) (configured : IsConfigured policy) where
  evaluate_state-Returns :
      (state : SourcePollState) → IsStored policy state → Returns now policy state
  unfolding evaluate_state reported_item
  evaluate_state-Returns state h =
      let (v, seen, whole) =
        view_success-Viewed now policy
          (heartbeat now policy state.current_attempt state.last_success) state.last_success
          h.last in
      (
        reported_item policy state v,
        ground (
          arith,
          reported_item-valid now policy state v (IsConfigured-HasThresholds policy configured),
        ),
        refl,
        whole.aged,
      )

  -- What the loop needs of an evaluated item.
  abbrev Evaluates : Option SourcePollState → Type 0
  Evaluates state =
      (item : SourceFreshnessItem) × (evaluate_policy now state policy ≡ ok item)
      × (item.source ≡ policy.source)
      × (is_item_aged now item ≡ true)

  evaluate_policy-Evaluates :
      (state : Option SourcePollState) → IfSome state (IsStored policy) → Evaluates state
  unfolding evaluate_policy validate_freshness is_partial is_failed unreported_item
  evaluate_policy-Evaluates none h = (
    unreported_item policy,
    ground (arith, require_utc?-Decides none, IsConfigured-HasThresholds policy configured),
    refl,
    refl,
  )
  evaluate_policy-Evaluates (some state) h = evaluate_state-Returns state h

module _ (now : Datetime) (states : List SourcePollState) where
  abbrev pub Stored : SourcePollPolicy → Type 0
  Stored p = IsConfigured p × IfSome (state_of p.source states) (IsStored p)

  pub evaluate_policies-returns :
      (policies : List SourcePollPolicy)
      → All Stored policies
      → (items : List SourceFreshnessItem) × (evaluate_policies now states policies ≡ ok items)
        × (map (λ i. i.source) items ≡ map (λ p. p.source) policies)
        × (all (is_item_aged now) items ≡ true)
  unfolding evaluate_policies
  evaluate_policies-returns [] h = ([], refl, refl, refl)
  evaluate_policies-returns (p ∷ policies) ((configured, h), hs) =
      let (item, e, source, aged) =
        evaluate_policy-Evaluates now p configured (state_of p.source states) h in
      let (items, es, sources, all_aged) = evaluate_policies-returns policies hs in
      (item ∷ items, rw (e, es) refl, cc, rw (aged, all_aged) refl)
