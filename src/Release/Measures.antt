-- ===== src/Release/Measures.antt =====
-- What `evaluate_agent_release` of agent_trajectory/release.py measures on the captures, their
-- grounded reports and the drift between them.
use atlas_pulse.Prelude.{
  ℕ, ◌+◌, Bool, false, ◌&&◌, Option, none, some, List, [], ◌∷◌, map, all, contains, ok, raise, ◌==◌,
  text_eq, if◌then◌else◌, Text, min, unique,
}
use atlas_pulse.Release.Types.{
  DriftStatus, AgentTrajectoryDriftThresholds, pair_eq, drift_status_eq,
}
use atlas_pulse.Release.Reports.{same_drift_report}
use atlas_pulse.Drift.Types.{
  Floats, AgentTrajectoryScoreReport, DriftPayload, AgentTrajectoryDriftReport,
}
use atlas_pulse.Drift.{max_of, compare_agent_trajectory_reports}

-- `min(...)` and `max(...)` of a list that is not empty, given as its first element and the rest.
unfoldable pub min_count : ℕ → List ℕ → ℕ
min_count a [] = a
min_count a (b ∷ bs) = min_count (min a b) bs

-- `len({...})`: the elements without those that come again later
unfoldable pub distinct_count : List (Text × Text) → ℕ
distinct_count [] = 0
distinct_count (p ∷ pairs) =
    let rest = distinct_count pairs in if contains p pairs then rest else 1 + rest

-- `set(a) == set(b)`
unfoldable pub same_pairs : List (Text × Text) → List (Text × Text) → Bool
same_pairs a b = all (λ p. contains p b) a && all (λ p. contains p a) b

-- The values of a list of optional ones, if all are there.
unfoldable pub present : {F : Type 0} → List (Option F) → Option (List F)
present [] = some []
present (none ∷ values) = none
present (some x ∷ values) = elim (present values) [ none ↦ none | some xs ↦ some (x ∷ xs) ]

module _ {F : Type 0} (f : Floats F) where
  -- `min(a, b)`, which is `a` of equal values
  unfoldable pub min_of : F → F → F
  min_of a b = if f.lt b a then b else a

  unfoldable pub min_from : F → List F → F
  min_from a [] = a
  min_from a (b ∷ bs) = min_from (min_of a b) bs

  unfoldable pub max_from : F → List F → F
  max_from a [] = a
  max_from a (b ∷ bs) = max_from (max_of f a b) bs

  -- `_minimum` and `_maximum`
  unfoldable pub minimum : List (Option F) → Option F
  minimum values = elim (present values) [
    | none ↦ none
    | some [] ↦ none
    | some (x ∷ xs) ↦ some (min_from x xs)
  ]

  unfoldable pub maximum : List (Option F) → Option F
  maximum values = elim (present values) [
    | none ↦ none
    | some [] ↦ none
    | some (x ∷ xs) ↦ some (max_from x xs)
  ]

-- Consecutive captures. The source keeps their ids and looks the reports up by them, which are distinct.
unfoldable pub consecutive_reports :
    {F : Type 0}
    → List (AgentTrajectoryScoreReport F)
    → List (AgentTrajectoryScoreReport F × AgentTrajectoryScoreReport F)
consecutive_reports [] = []
consecutive_reports (a ∷ []) = []
consecutive_reports (a ∷ b ∷ rest) = (a, b) ∷ consecutive_reports (b ∷ rest)

unfoldable pub pair_of : {F : Type 0} → AgentTrajectoryDriftReport F → Text × Text
pair_of r = (r.payload.baseline_report_id, r.payload.current_report_id)

-- `drift_by_pair.get(pair)`; of equal pairs the last counts
unfoldable pub drift_by_pair :
    {F : Type 0}
    → Text × Text
    → List (AgentTrajectoryDriftReport F)
    → Option (AgentTrajectoryDriftReport F)
drift_by_pair pair [] = none
drift_by_pair pair (r ∷ reports) = elim (drift_by_pair pair reports) [
  | some later ↦ some later
  | none ↦ if pair_of r == pair then some r else none
]

module _ {F : Type 0} (f : Floats F) (digest : DriftPayload F → Text) where
  module _ (policy : AgentTrajectoryDriftThresholds F)
      (drift_reports : List (AgentTrajectoryDriftReport F)) where
    -- A supplied report is that of the comparison made at its time.
    unfoldable pub is_expected :
        AgentTrajectoryScoreReport F
        → AgentTrajectoryScoreReport F
        → AgentTrajectoryDriftReport F
        → Bool
    is_expected baseline current supplied =
        elim (compare_agent_trajectory_reports f digest baseline current policy
          supplied.payload.generated_at) [
            | ok expected ↦ same_drift_report f supplied expected
            | raise _ ↦ false
          ]

    unfoldable pub drift_matches :
        AgentTrajectoryScoreReport F → AgentTrajectoryScoreReport F → Bool
    drift_matches baseline current =
        elim (drift_by_pair (baseline.report_id, current.report_id) drift_reports) [
          | none ↦ false
          | some supplied ↦ is_expected baseline current supplied
        ]

    -- `drift_chain_complete`
    unfoldable pub drift_chain_complete : List (AgentTrajectoryScoreReport F) → Bool
    drift_chain_complete ordered =
        let pairs = consecutive_reports ordered in
        unique (map pair_of drift_reports)
        && same_pairs (map pair_of drift_reports) (map (λ p. (p.0.report_id, p.1.report_id)) pairs)
        && all (λ p. drift_matches p.0 p.1) pairs

    unfoldable pub is_stable : AgentTrajectoryScoreReport F → AgentTrajectoryScoreReport F → Bool
    is_stable baseline current =
        elim (drift_by_pair (baseline.report_id, current.report_id) drift_reports) [
          | none ↦ false
          | some supplied ↦ supplied.payload.status == DriftStatus.stable
        ]

    -- `drift_stable`
    unfoldable pub drift_stable : List (AgentTrajectoryScoreReport F) → Bool
    drift_stable ordered =
        drift_chain_complete ordered && all (λ p. is_stable p.0 p.1) (consecutive_reports ordered)
