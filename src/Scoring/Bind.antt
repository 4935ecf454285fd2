-- ===== src/Scoring/Bind.antt =====
-- agent_trajectory/scoring.py: a batch of traces is bound to its task, to the candidate answers and to
-- their adjudicated outcomes.
use atlas_pulse.Prelude.{
  Bool, ◌&&◌, not, none, some, List, [], ◌∷◌, map, ok, raise, ◌>>◌, ◌>>=◌, raise_if, ◌==◌, text_eq,
  nat_eq, if◌then◌else◌, Text, sorted,
}
use atlas_pulse.Prelude.Order.{text_leb, canonical, same_set}
use atlas_pulse.Release.Types.{texts_eq}
use atlas_pulse.Trajectory.Types.{
  AgentTrajectoryCase, GroundedAnswerClaim, GroundedAnswerTaskCase, GroundedAnswerTask,
  GroundedAnswerCandidateCase, GroundedAnswerCandidateBatch, TrajectoryEnv, answer_status_eq,
}
use atlas_pulse.Trajectory.{all_ids}
use atlas_pulse.Trajectory.Import.{case_of, task_case_id, candidate_case_id}
use atlas_pulse.Scoring.Types.{GroundedAnswerCaseOutcome}
use atlas_pulse.Scoring.{Scored, cases_mismatch, case_mismatch, missing_case}

abbrev pub outcome_case_id : GroundedAnswerCaseOutcome → Text
outcome_case_id o = o.case_id

-- The case of an id that all inputs cover: the raise stands for a `KeyError`, which the comparison of
-- the ids excludes.
unfoldable pub the_case : {A : Type 0} → (A → Text) → Text → List A → Scored A
the_case id_of id cases = elim (case_of id_of id cases) [
  | none ↦ raise missing_case
  | some c ↦ ok c
]

-- `next(case for case in cases if case.case_id == case_id)`
unfoldable pub first_case : {A : Type 0} → (A → Text) → Text → List A → Scored A
first_case id_of id [] = raise missing_case
first_case id_of id (c ∷ cases) =
    let rest = first_case id_of id cases in if id_of c == id then ok c else rest

module _ {F : Type 0} (env : TrajectoryEnv F) where
  abbrev pub trace_case_id : AgentTrajectoryCase F → Text
  trace_case_id c = c.case_id

  unfoldable pub candidate_response_sha256 :
      List (GroundedAnswerCandidateCase F) → Text → Scored Text
  candidate_response_sha256 candidates id = do
    c ← first_case candidate_case_id id candidates
    ok (env.response_digest c.response)

  -- The fields of a trace that its task case, its candidate and its outcome fix.
  unfoldable pub matches_inputs :
      GroundedAnswerTaskCase
      → GroundedAnswerCandidateCase F
      → GroundedAnswerCaseOutcome
      → Text
      → AgentTrajectoryCase F
      → Bool
  matches_inputs t a g digest c =
      c.query_id == t.query_id
      && c.query_id == a.query_id
      && g.query_id == t.query_id
      && c.pack_id == t.pack_id
      && c.response_sha256 == digest
      && c.response_status == a.response.status
      && g.response_status == a.response.status
      && c.available_evidence_ids == sorted text_leb t.evidence_ids
      && c.required_evidence_ids
        == canonical (all_ids (λ (c : GroundedAnswerClaim). c.evidence_ids) a.response.claims)
      && c.required_claim_ids
        == sorted text_leb (map (λ (c : GroundedAnswerClaim). c.claim_id) a.response.claims)
      && c.input_tokens == a.input_tokens
      && c.output_tokens == a.output_tokens
      && env.floats.same c.latency_ms a.latency_ms

  module _ (task : GroundedAnswerTask) (batch : GroundedAnswerCandidateBatch F)
      (traces : List (AgentTrajectoryCase F)) (grounded : List GroundedAnswerCaseOutcome) where
    unfoldable pub check_case : Text → Scored (Unit {0})
    check_case id = do
      t ← the_case task_case_id id task.cases
      a ← the_case candidate_case_id id batch.cases
      c ← the_case trace_case_id id traces
      g ← the_case outcome_case_id id grounded
      digest ← candidate_response_sha256 batch.cases id
      raise_if (not (matches_inputs t a g digest c)) case_mismatch

    unfoldable pub check_cases : List Text → Scored (Unit {0})
    check_cases [] = ok tt
    check_cases (id ∷ ids) = check_case id >> check_cases ids

    unfoldable pub validate_case_bindings : Scored (Unit {0})
    validate_case_bindings = do
      let ids = map task_case_id task.cases
      raise_if
          (not (
            same_set (map candidate_case_id batch.cases) ids
            && same_set (map trace_case_id traces) ids
            && same_set (map outcome_case_id grounded) ids))
          cases_mismatch
      check_cases (canonical ids)
