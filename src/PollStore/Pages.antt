-- ===== src/PollStore/Pages.antt =====
-- The pages of the history: newest first, each behind the cursor of the one before.
use atlas_pulse.Prelude.{
  ℕ, Bool, ltb, zero, suc, ◌+◌, ◌-◌, ◌≤◌, ◌<◌, ◌≡◌, Option, some, none, List, [], ◌∷◌, ◌++◌, take,
  drop, keep, last?, ok, arith, refl, sym, take-append-take-drop, if_ind, Result, ◌⊎◌, ◌≢◌, ◌||◌,
  not, ◌==◌, inl, inr,
}
use mathlib.Core.Path.{subst}
use mathlib.Core.List.{reverse, reverse-append}
use atlas_pulse.StreamId.{position_ltb, stream_position, local_id, stream_position-local_id}
use atlas_pulse.Polling.Types.{
  SourcePollTransition, SourcePollTransitionKind, SourcePollState, SourcePollAttempt, started,
  SourcePollOutcome, outcome_eq, source_name_eq,
}
use atlas_pulse.Polling.Validate.{is_some, expected_outcome}
use atlas_pulse.PollStore.{
  Store, StoreError, init, store_state, started_state, completed_state, completed_kind,
  complete_existing, record_started, record_completed, is_visible, page, load_recent_transitions,
}
use atlas_pulse.PollStore.History.{
  Call, start, complete, perform, perform_all, stored, store_state-cases, completed_kind-outcome,
}

-- The ids of a list of transitions, newest first, count down from `n` to 1.
abbrev pub CountsDown : ℕ → List SourcePollTransition → Type 0
CountsDown n [] = n ≡ 0
CountsDown n (t ∷ ts) = (t.stream_id ≡ local_id n) × (1 ≤ n) × CountsDown (n - 1) ts

abbrev visible_below : ℕ → SourcePollTransition → Bool
visible_below k = is_visible (some (0, k))

is_visible-local_id :
    (k n : ℕ) (t : SourcePollTransition) → t.stream_id ≡ local_id n → visible_below k t ≡ ltb n k
unfolding is_visible position_ltb
is_visible-local_id k n t e = ground (arith, stream_position-local_id n)

keep-visible_all :
    (k n : ℕ) (ts : List SourcePollTransition)
    → CountsDown n ts
    → n < k
    → keep (visible_below k) ts ≡ ts
keep-visible_all k n [] c h = refl
keep-visible_all k n (t ∷ ts) (e, pos, c) h =
    ground (arith, is_visible-local_id k n t e, keep-visible_all k (n - 1) ts c)

-- The last transition of a page marks where the next page starts.
cursor_cuts :
    (a n : ℕ) (ts : List SourcePollTransition) (t : SourcePollTransition)
    → CountsDown n ts
    → last? (take (suc a) ts) ≡ some t
    → (k : ℕ) × (stream_position t.stream_id ≡ some (0, k))
      × (k ≤ n)
      × (keep (visible_below k) ts ≡ drop (suc a) ts)
cursor_cuts a n [] t c h = cc
cursor_cuts zero n (x ∷ ts) t (e, pos, c) h = (
  n,
  ground (arith, stream_position-local_id n),
  omega arith,
  ground (arith, is_visible-local_id n n x e, keep-visible_all n (n - 1) ts c),
)
cursor_cuts (suc a) n (x ∷ []) t (e, pos, c) h = (
  n,
  ground (arith, stream_position-local_id n),
  omega arith,
  ground (arith, is_visible-local_id n n x e),
)
cursor_cuts (suc a) n (x ∷ y ∷ ts) t (e, pos, c) h =
    let (k, at, below, cut) = cursor_cuts a (n - 1) (y ∷ ts) t c h in
    (k, at, omega arith, ground (arith, is_visible-local_id k n x e))

keep-visible_none : (ts : List SourcePollTransition) → keep (is_visible none) ts ≡ ts
unfolding is_visible
keep-visible_none [] = refl
keep-visible_none (t ∷ ts) = rw (keep-visible_none ts) refl

pages_join_of :
    (s : Store) (n a b : ℕ) (xs : List SourcePollTransition) (t : SourcePollTransition)
    → CountsDown n (reverse s.history)
    → load_recent_transitions none (suc a) s ≡ ok xs
    → last? xs ≡ some t
    → (ys : List SourcePollTransition) × (load_recent_transitions (some t.stream_id) (suc b) s
        ≡ ok ys)
      × (xs ++ ys ≡ take (suc a + suc b) (reverse s.history))
unfolding load_recent_transitions page
pages_join_of s n a b xs t c first last =
    let newest = reverse s.history in
    let e : xs ≡ take (suc a) newest = ground (arith, keep-visible_none newest) in
    let (k, at, below, cut) = cursor_cuts a n newest t c (rw e at last) in
    (
      take (suc b) (drop (suc a) newest),
      ground arith,
      ground (arith, take-append-take-drop (suc a) (suc b) newest),
    )

-- A call leaves the store as it is, or stores one state with one transition.
abbrev Steps : Store → Store → Type 0
Steps s s' =
    (s' ≡ s)
    ⊎ ((state : SourcePollState) × (kind : SourcePollTransitionKind) × (a : SourcePollAttempt) × (s'
          ≡ stored state kind a s))

module _ (s : Store) where
  abbrev StepsTo : Result StoreError (Unit {0}) × Store → Type 0
  StepsTo r = Steps s r.1

  store_state-Steps :
      (state : SourcePollState) (kind : SourcePollTransitionKind) (a : SourcePollAttempt)
      → a.outcome ≡ expected_outcome kind
      → StepsTo (store_state state kind a s)
  store_state-Steps state kind a h = elim (store_state-cases state kind a s h) [
    | inl e ↦ inr (state, kind, a, rw e refl)
    | inr (err, e) ↦ inl (rw e refl)
  ]

  complete_existing-Steps :
      (existing : Option SourcePollState) (a : SourcePollAttempt)
      → a.outcome ≢ SourcePollOutcome.in_progress
      → StepsTo (complete_existing existing a s)
  unfolding complete_existing
  complete_existing-Steps none a h = inl refl
  complete_existing-Steps (some existing) a h =
      if_ind StepsTo _ (λ _. inl refl)
        (λ _.
          store_state-Steps (completed_state existing a) (completed_kind a) a
            (completed_kind-outcome a h))

  perform-Steps : (c : Call) → Steps s (perform c s)
  unfolding perform record_started record_completed expected_outcome
  perform-Steps (start a p) =
      if_ind StepsTo
        (not (a.outcome == SourcePollOutcome.in_progress) || not (a.source == p.source))
        (λ _. inl refl)
        (λ fits.
          if_ind StepsTo _ (λ _. inl refl)
            (λ _.
              store_state-Steps (started_state (s.states a.source) a p) started a (ground arith)))
  perform-Steps (complete a) =
      if_ind StepsTo (a.outcome == SourcePollOutcome.in_progress || not (is_some a.completed_at))
        (λ _. inl refl) (λ terminal. complete_existing-Steps (s.states a.source) a (ground arith))

abbrev pub IsNumbered : Store → Type 0
IsNumbered s = CountsDown s.history_sequence (reverse s.history)

Steps-IsNumbered : (s s' : Store) → Steps s s' → IsNumbered s → IsNumbered s'
Steps-IsNumbered s s' (inl e) c = rw e c
Steps-IsNumbered s s' (inr (state, kind, a, e)) c =
    let n = s.history_sequence in
    let kept : CountsDown (n + 1 - 1) (reverse s.history) =
      subst (λ k. CountsDown k (reverse s.history)) (omega arith) c in
    rw e (subst (CountsDown (n + 1)) (sym (reverse-append s.history _)) (refl, omega arith, kept))

pub perform_all-IsNumbered :
    (calls : List Call) (s : Store) → IsNumbered s → IsNumbered (perform_all calls s)
unfolding perform_all
perform_all-IsNumbered [] s c = c
perform_all-IsNumbered (call ∷ calls) s c =
    perform_all-IsNumbered calls (perform call s)
      (Steps-IsNumbered s (perform call s) (perform-Steps s call) c)

-- In a store that any calls have led to, the page behind a page's last transition goes on exactly
-- where that page ends: together they are one page of both sizes, with no transition twice and none
-- left out.
pub pages-join :
    (calls : List Call) (a b : ℕ) (xs : List SourcePollTransition) (t : SourcePollTransition)
    → load_recent_transitions none (suc a) (perform_all calls init) ≡ ok xs
    → last? xs ≡ some t
    → (ys : List SourcePollTransition) × (load_recent_transitions
          (some t.stream_id)
          (suc b)
          (perform_all calls init)
        ≡ ok ys)
      × (xs ++ ys ≡ take (suc a + suc b) (reverse (perform_all calls init).history))
pages-join calls a b xs t first last =
    let s = perform_all calls init in
    pages_join_of s s.history_sequence a b xs t
      (perform_all-IsNumbered calls init (unfold init in refl)) first last
