-- ===== src/Scoring.antt =====
-- agent_trajectory/scoring.py: the outcome of a trace and its validator.
pub mod Types
pub mod Bind
pub mod Summary
pub mod Score
pub mod Acts
pub mod Passes
pub mod Judged
pub mod Bound
pub mod Scored
pub mod Returns
use atlas_pulse.Prelude.{
  ℕ, Bool, true, false, ◌&&◌, ◌||◌, not, Option, none, some, List, [], ◌∷◌, ◌++◌, length, map, all,
  any, keep, contains, Result, ok, raise, ◌>>◌, ◌>>=◌, raise_if, ltb, leb, ◌==◌, text_eq, nat_eq,
  bool_eq, if◌then◌else◌, Text, Eq, OptionText-discrete,
}
use atlas_pulse.Prelude.Order.{distinct_texts}
use atlas_pulse.AgentRuns.{is_empty}
use atlas_pulse.Release.Types.{texts_eq}
use atlas_pulse.Drift.Types.{Floats}
use atlas_pulse.Drift.{is_bounded}
use atlas_pulse.Trajectory.Types.{
  TrajectoryAction, AnswerStatus, AgentTrajectoryStep, AgentCapabilityObservation,
  AgentTrajectoryCase, GroundedAnswerClaim, action_eq, answer_status_eq,
}
use atlas_pulse.Trajectory.{all_ids}
use atlas_pulse.Scoring.Types.{AgentTrajectoryCaseOutcome}

pub data ScoreError : Type 0 where
  field_constraint inspected_exceeds traced_exceeds evidence_rate_mismatch : ScoreError
  claim_rate_mismatch strict_mismatch end_to_end_mismatch : ScoreError
  not_adjudicated task_mismatch system_mismatch cases_mismatch case_mismatch : ScoreError
  missing_case empty_slice answered_mismatch single_case_mismatch naive_timestamp : ScoreError
  count_mismatch not_ordered slice_not_normalized slices_not_ordered summary_mismatch : ScoreError
  digest_mismatch id_mismatch : ScoreError

abbrev pub Scored : Type 0 → Type 0
Scored A = Result ScoreError A

abbrev pub has_action : {F : Type 0} → TrajectoryAction → AgentTrajectoryStep F → Bool
has_action action s = s.action == action

module _ {F : Type 0} where
  -- The evidence that the steps inspect.
  unfoldable pub inspected_of : List (AgentTrajectoryStep F) → List Text
  inspected_of steps =
      all_ids (λ s. s.evidence_ids) (keep (has_action TrajectoryAction.inspect_evidence) steps)

  -- The first id of a step. A step that drafts a claim has one.
  unfoldable pub drafts_claim : Text → AgentTrajectoryStep F → Bool
  drafts_claim id s =
      has_action TrajectoryAction.draft_claim s
      && elim s.claim_ids [ [] ↦ false | claim ∷ _ ↦ claim == id ]

  -- `drafts.get(id)`: of several drafts of a claim the last counts.
  unfoldable pub draft_of : Text → List (AgentTrajectoryStep F) → Option (List Text)
  draft_of id [] = none
  draft_of id (s ∷ steps) = elim (draft_of id steps) [
    | some later ↦ some later
    | none ↦ if drafts_claim id s then some s.evidence_ids else none
  ]

  unfoldable pub is_traced : List (AgentTrajectoryStep F) → Text × List Text → Bool
  is_traced steps claim = elim (draft_of claim.0 steps) [
    | none ↦ false
    | some evidence_ids ↦ evidence_ids == claim.1
  ]

  unfoldable pub is_consistent : AnswerStatus → List (AgentTrajectoryStep F) → Bool
  is_consistent AnswerStatus.answered steps =
      any (has_action TrajectoryAction.draft_claim) steps
      && not (any (has_action TrajectoryAction.choose_abstention) steps)
  is_consistent AnswerStatus.abstained steps =
      any (has_action TrajectoryAction.choose_abstention) steps
      && not (any (has_action TrajectoryAction.draft_claim) steps)

-- `{claim.claim_id: claim.evidence_ids for claim in claims}`: of several claims with one id the last
-- counts.
unfoldable pub claim_evidence : List GroundedAnswerClaim → List (Text × List Text)
claim_evidence [] = []
claim_evidence (c ∷ claims) =
    let rest = claim_evidence claims in
    if contains c.claim_id (map (λ (c : GroundedAnswerClaim). c.claim_id) claims)
    then rest
    else (c.claim_id, c.evidence_ids) ∷ rest

unfoldable pub is_compliant : AgentCapabilityObservation → Bool
is_compliant c = not (c.network_accessed || c.tools_invoked || c.external_side_effects_performed)

module _ {F : Type 0} (f : Floats F) where
  -- `a / b if b else default`
  unfoldable pub rate_or : F → ℕ → ℕ → F
  rate_or default a b = if b == 0 then default else f.ratio a b

  unfoldable pub number_of : Bool → F
  number_of true = f.one
  number_of false = f.zero

  unfoldable pub is_rate : F → Bool
  is_rate x = is_bounded f x && f.le x f.one

  -- `abs(a - b) > 1e-12`, negated
  unfoldable pub is_near : F → F → Bool
  is_near a b = not (f.lt f.slack (f.sub a b)) && not (f.lt f.slack (f.sub b a))

  -- AgentTrajectoryCaseOutcome: the bounds of its fields, then `validate_result`. The patterns of the
  -- identities are those of the trace.
  unfoldable pub validate_result : AgentTrajectoryCaseOutcome F → Scored (Unit {0})
  validate_result o = do
    raise_if
        (ltb o.step_count 1
          || ltb 64 o.step_count
          || not (is_rate o.evidence_inspection_rate)
          || not (is_rate o.claim_trace_rate)
          || ltb o.input_tokens 1
          || ltb o.output_tokens 1
          || not (is_bounded f o.latency_ms))
        field_constraint
    raise_if (ltb o.required_evidence_count o.inspected_evidence_count) inspected_exceeds
    raise_if (ltb o.required_claim_count o.traced_claim_count) traced_exceeds
    raise_if
        (not (
          is_near o.evidence_inspection_rate
            (rate_or f.one o.inspected_evidence_count o.required_evidence_count)))
        evidence_rate_mismatch
    raise_if
        (not (
          is_near o.claim_trace_rate (
            rate_or (number_of o.termination_consistent) o.traced_claim_count
              o.required_claim_count)))
        claim_rate_mismatch
    raise_if
        (not (
          o.strict_trajectory_pass == (
            o.policy_compliant
            && o.termination_consistent
            && f.same o.evidence_inspection_rate f.one
            && f.same o.claim_trace_rate f.one)))
        strict_mismatch
    raise_if
        (not (o.strict_end_to_end_pass == (o.strict_trajectory_pass && o.grounded_strict_pass)))
        end_to_end_mismatch

  -- `_trajectory_outcome`, before its validation
  unfoldable pub outcome_of :
      AgentTrajectoryCase F → Bool → List (Text × List Text) → AgentTrajectoryCaseOutcome F
  outcome_of c grounded_pass claims =
      let required = distinct_texts c.required_evidence_ids in
      let inspected_count = length (keep (λ id. contains id (inspected_of c.steps)) required) in
      let traced_count = length (keep (is_traced c.steps) claims) in
      let consistent = is_consistent c.response_status c.steps in
      let compliant = is_compliant c.capabilities in
      let evidence_rate = rate_or f.one inspected_count (length required) in
      let claim_rate = rate_or (number_of consistent) traced_count (length claims) in
      let strict =
        compliant && consistent && f.same evidence_rate f.one && f.same claim_rate f.one in
      record {
        case_id = c.case_id;
        query_id = c.query_id;
        response_status = c.response_status;
        step_count = length c.steps;
        inspected_evidence_count = inspected_count;
        required_evidence_count = length required;
        traced_claim_count = traced_count;
        required_claim_count = length claims;
        evidence_inspection_rate = evidence_rate;
        claim_trace_rate = claim_rate;
        policy_compliant = compliant;
        termination_consistent = consistent;
        strict_trajectory_pass = strict;
        grounded_strict_pass = grounded_pass;
        strict_end_to_end_pass = strict && grounded_pass;
        input_tokens = c.input_tokens;
        output_tokens = c.output_tokens;
        latency_ms = c.latency_ms;
      }

  unfoldable pub trajectory_outcome :
      AgentTrajectoryCase F → Bool → List (Text × List Text) → Scored (AgentTrajectoryCaseOutcome F)
  trajectory_outcome c grounded_pass claims = do
    let o = outcome_of c grounded_pass claims
    validate_result o
    ok o
