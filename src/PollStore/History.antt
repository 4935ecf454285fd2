-- ===== src/PollStore/History.antt =====
-- The latest states against the history: each state is what its source's transitions say.
use atlas_pulse.Prelude.{
  ℕ, ◌+◌, ◌≡◌, ◌≢◌, ◌||◌, not, Option, none, some, List, [], ◌∷◌, ◌++◌, ok, raise, ◌==◌,
  if◌then◌else◌, arith, refl, if_ind, Result-cases, ◌⊎◌, inl, inr, Result,
}
use mathlib.Core.List.{foldl, foldl-append}
use atlas_pulse.StreamId.{local_id, stream_position-local_id}
use atlas_pulse.Polling.Types.{
  SourceName, SourcePollOutcome, SourcePollPolicy, SourcePollAttempt, SourcePollState,
  SourcePollTransition, SourcePollTransitionKind, started, succeeded, failed, source_name_eq,
  outcome_eq,
}
use atlas_pulse.Polling.Validate.{
  is_some, validate_state, validate_transition, expected_outcome, PollError,
}
use atlas_pulse.PollStore.{
  Store, StoreError, init, put_state, append_transition, store_state, started_state,
  completed_state, kept_success, kept_failures, completed_kind, complete_existing, record_started,
  record_completed, invalid,
}

-- What a source's transitions add up to.
pub record Summary : Type 0 where
  pub current : SourcePollAttempt
  pub last_success : Option SourcePollAttempt
  pub consecutive_failures : ℕ

abbrev pub last_of : Option Summary → Option SourcePollAttempt
last_of none = none
last_of (some u) = u.last_success

abbrev pub failures_of : Option Summary → ℕ
failures_of none = 0
failures_of (some u) = u.consecutive_failures

-- A start changes the current attempt only; a success is the last success and ends the failures; a
-- failure is one more.
abbrev pub advance : Option Summary → SourcePollTransitionKind → SourcePollAttempt → Summary
advance acc started a = record {
  current = a;
  last_success = last_of acc;
  consecutive_failures = failures_of acc;
}
advance acc succeeded a = record { current = a; last_success = some a; consecutive_failures = 0 }
advance acc failed a = record {
  current = a;
  last_success = last_of acc;
  consecutive_failures = failures_of acc + 1;
}

unfoldable pub note : SourceName → Option Summary → SourcePollTransition → Option Summary
note source acc t = if t.source == source then some (advance acc t.transition t.attempt) else acc

abbrev pub summarize : SourceName → List SourcePollTransition → Option Summary
summarize source history = foldl (note source) none history

abbrev pub summary_of : Option SourcePollState → Option Summary
summary_of none = none
summary_of (some s) = some (record {
  current = s.current_attempt;
  last_success = s.last_success;
  consecutive_failures = s.consecutive_failures;
})

abbrev pub Tracks : Store → Type 0
Tracks s = (source : SourceName) → summary_of (s.states source) ≡ summarize source s.history

abbrev entry : ℕ → SourcePollTransitionKind → SourcePollAttempt → SourcePollTransition
entry n kind a = record {
  stream_id = local_id n;
  source = a.source;
  transition = kind;
  attempt = a;
}

append_transition-eq :
    (kind : SourcePollTransitionKind) (a : SourcePollAttempt) (s : Store)
    → a.outcome ≡ expected_outcome kind
    → append_transition kind a s ≡ (
      ok tt,
      record s {
        history = s.history ++ entry (s.history_sequence + 1) kind a ∷ [];
        history_sequence = s.history_sequence + 1;
      },
    )
unfolding append_transition validate_transition
append_transition-eq kind a s h = ground (arith, stream_position-local_id (s.history_sequence + 1))

validate_state-eq-ok : (s v : SourcePollState) → validate_state s ≡ ok v → v ≡ s
unfolding validate_state
validate_state-eq-ok s v h = ground arith

module _ (state : SourcePollState) (kind : SourcePollTransitionKind) (a : SourcePollAttempt)
    (s : Store) where
  -- The store with the state and its transition.
  abbrev pub stored : Store
  stored = record {
    states = put_state a.source state s.states;
    history = s.history ++ entry (s.history_sequence + 1) kind a ∷ [];
    history_sequence = s.history_sequence + 1;
  }

  -- A state is stored with its transition, or its validator refuses it and nothing changes.
  pub store_state-cases :
      a.outcome ≡ expected_outcome kind
      → (store_state state kind a s ≡ (ok tt, stored))
        ⊎ ((e : PollError) × (store_state state kind a s ≡ (raise (invalid e), s)))
  unfolding store_state
  store_state-cases h = elim (Result-cases (validate_state state)) [
    | inl (v, e) ↦
        let settled = validate_state-eq-ok state v e in
        let full = record s { states = put_state a.source state s.states } in
        inl (ground (arith, settled, append_transition-eq kind a full h))
    | inr (err, e) ↦ inr (err, ground arith)
  ]

  -- `state` is the summary of the history that the transition makes.
  abbrev Follows : Type 0
  Follows = summary_of (some state) ≡ some (advance (summarize a.source s.history) kind a)

  stored-Tracks : Tracks s → Follows → Tracks stored
  unfolding put_state note
  stored-Tracks t f other =
      let e =
        foldl-append (note other) none s.history (entry (s.history_sequence + 1) kind a ∷ []) in
      ground (arith, e, t other)

  store_state-Tracks :
      a.outcome ≡ expected_outcome kind → Tracks s → Follows → Tracks (store_state state kind a s).1
  store_state-Tracks h t f = elim (store_state-cases h) [
    | inl e ↦ rw e (stored-Tracks t f)
    | inr (err, e) ↦ rw e t
  ]

abbrev After : Result StoreError (Unit {0}) × Store → Type 0
After r = Tracks r.1

pub completed_kind-outcome :
    (a : SourcePollAttempt)
    → a.outcome ≢ SourcePollOutcome.in_progress
    → a.outcome ≡ expected_outcome (completed_kind a)
unfolding completed_kind expected_outcome
completed_kind-outcome a h = ground arith

module _ (a : SourcePollAttempt) (s : Store) (t : Tracks s) where
  started_state-Follows :
      (p : SourcePollPolicy) → Follows (started_state (s.states a.source) a p) started a s
  unfolding started_state kept_success kept_failures
  started_state-Follows p = ground (arith, t a.source)

  completed_state-Follows :
      (existing : SourcePollState)
      → s.states a.source ≡ some existing
      → Follows (completed_state existing a) (completed_kind a) a s
  unfolding completed_state completed_kind
  completed_state-Follows existing e = ground (arith, t a.source)

  record_started-Tracks : (p : SourcePollPolicy) → Tracks (record_started a p s).1
  unfolding record_started expected_outcome
  record_started-Tracks p =
      if_ind After (not (a.outcome == SourcePollOutcome.in_progress) || not (a.source == p.source))
        (λ _. t)
        (λ fits.
          if_ind After _ (λ _. t)
            (λ _.
              store_state-Tracks (started_state (s.states a.source) a p) started a s (ground arith)
                t (started_state-Follows p)))

  complete_existing-Tracks :
      (existing : Option SourcePollState)
      → s.states a.source ≡ existing
      → a.outcome ≢ SourcePollOutcome.in_progress
      → Tracks (complete_existing existing a s).1
  unfolding complete_existing
  complete_existing-Tracks none e h = t
  complete_existing-Tracks (some existing) e h =
      if_ind After _ (λ _. t)
        (λ _.
          store_state-Tracks (completed_state existing a) (completed_kind a) a s
            (completed_kind-outcome a h) t (completed_state-Follows existing e))

  record_completed-Tracks : Tracks (record_completed a s).1
  unfolding record_completed
  record_completed-Tracks =
      if_ind After (a.outcome == SourcePollOutcome.in_progress || not (is_some a.completed_at))
        (λ _. t) (λ terminal. complete_existing-Tracks (s.states a.source) refl (ground arith))

-- A call of the store: workers of any number of sources make them in any order.
pub data Call : Type 0 where
  start : SourcePollAttempt → SourcePollPolicy → Call
  complete : SourcePollAttempt → Call

unfoldable pub perform : Call → Store → Store
perform (start a p) s = (record_started a p s).1
perform (complete a) s = (record_completed a s).1

unfoldable pub perform_all : List Call → Store → Store
perform_all [] s = s
perform_all (c ∷ calls) s = perform_all calls (perform c s)

perform_all-Tracks : (calls : List Call) (s : Store) → Tracks s → Tracks (perform_all calls s)
unfolding perform_all perform
perform_all-Tracks [] s t = t
perform_all-Tracks (start a p ∷ calls) s t =
    perform_all-Tracks calls (record_started a p s).1 (record_started-Tracks a s t p)
perform_all-Tracks (complete a ∷ calls) s t =
    perform_all-Tracks calls (record_completed a s).1 (record_completed-Tracks a s t)

-- After any sequence of calls, accepted or refused, the state of each source is what its
-- transitions in the history add up to: the attempt of the latest one, the latest success, and the
-- number of failures since that success.
pub perform_all-summarize :
    (calls : List Call) (source : SourceName)
    → summary_of ((perform_all calls init).states source)
      ≡ summarize source (perform_all calls init).history
unfolding init
perform_all-summarize calls source = perform_all-Tracks calls init (λ other. refl) source
