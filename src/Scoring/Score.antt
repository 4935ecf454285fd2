-- ===== src/Scoring/Score.antt =====
-- agent_trajectory/scoring.py: the score of a batch of traces, and the validator of the report.
use atlas_pulse.Prelude.{
  any, Bool, ◌&&◌, ◌||◌, not, none, some, List, [], ◌∷◌, ◌++◌, length, map, keep, contains, ok,
  raise, ◌>>◌, ◌>>=◌, raise_if, ◌==◌, text_eq, nat_eq, Text, codes, take,
}
use atlas_pulse.Prelude.Order.{canonical}
use atlas_pulse.Prelude.Int.{pos}
use atlas_pulse.Polling.Types.{Datetime}
use atlas_pulse.AgentRuns.{is_empty}
use atlas_pulse.Release.Types.{texts_eq}
use atlas_pulse.Drift.Types.{AgentTrajectoryMetricSummary}
use atlas_pulse.Drift.{same_system}
use atlas_pulse.Trajectory.Types.{
  AgentTrajectoryBatch, GroundedAnswerTaskCase, GroundedAnswerTask, GroundedAnswerCandidateBatch,
}
use atlas_pulse.Trajectory.{all_ids}
use atlas_pulse.Trajectory.Import.{task_case_id, candidate_case_id}
use atlas_pulse.Scoring.Types.{AgentTrajectoryCaseOutcome, GroundedScore, ScorePayload, ScoreEnv}
use atlas_pulse.Scoring.{
  field_constraint, Scored, not_adjudicated, task_mismatch, system_mismatch, naive_timestamp,
  count_mismatch, not_ordered, slice_not_normalized, summary_mismatch, digest_mismatch, id_mismatch,
  claim_evidence, trajectory_outcome,
}
use atlas_pulse.Scoring.Bind.{outcome_case_id, trace_case_id, the_case, validate_case_bindings}
use atlas_pulse.Scoring.Summary.{f, draft_summary, summarize_outcomes}

abbrev pub scored_case_id : {F : Type 0} → AgentTrajectoryCaseOutcome F → Text
scored_case_id o = o.case_id

-- `sorted({name for case in task.cases for name in case.slices})`
unfoldable pub slice_names : GroundedAnswerTask → List Text
slice_names task = canonical (all_ids (λ (c : GroundedAnswerTaskCase). c.slices) task.cases)

unfoldable pub check_score_time : Datetime → Scored (Unit {0})
check_score_time d = elim d.offset [ none ↦ raise naive_timestamp | some _ ↦ ok tt ]

module _ {F : Type 0} (env : ScoreEnv F) where
  -- `==` of two summaries
  unfoldable pub same_summary :
      AgentTrajectoryMetricSummary F → AgentTrajectoryMetricSummary F → Bool
  same_summary a b =
      a.case_count == b.case_count
      && a.answered_case_count == b.answered_case_count
      && a.abstained_case_count == b.abstained_case_count
      && (f env).same a.policy_compliance_rate b.policy_compliance_rate
      && (f env).same a.termination_consistency_rate b.termination_consistency_rate
      && (f env).same a.evidence_inspection_rate b.evidence_inspection_rate
      && (f env).same a.claim_trace_rate b.claim_trace_rate
      && (f env).same a.strict_trajectory_pass_rate b.strict_trajectory_pass_rate
      && (f env).same a.grounded_strict_pass_rate b.grounded_strict_pass_rate
      && (f env).same a.strict_end_to_end_pass_rate b.strict_end_to_end_pass_rate
      && (f env).same a.mean_step_count b.mean_step_count
      && (f env).same a.p95_step_count b.p95_step_count
      && (f env).same a.mean_input_tokens b.mean_input_tokens
      && (f env).same a.mean_output_tokens b.mean_output_tokens
      && (f env).same a.mean_latency_ms b.mean_latency_ms
      && (f env).same a.p95_latency_ms b.p95_latency_ms

  -- The identity of a report is left out of its digest.
  unfoldable pub agent_trajectory_report_sha256 : ScorePayload F → Text
  agent_trajectory_report_sha256 p =
      env.score_digest
        (record p { report = record p.report { report_id = []; report_sha256 = [] } })

  -- AgentTrajectoryScoreReport.validate_report
  unfoldable pub validate_report : ScorePayload F → Scored (Unit {0})
  validate_report p = do
    let r = p.report
    raise_if (is_empty p.outcomes) field_constraint
    check_score_time r.generated_at
    check_score_time r.captured_at
    raise_if (not (r.case_count == length p.outcomes) || not (r.case_count == r.overall.case_count))
        count_mismatch
    raise_if (not (map scored_case_id p.outcomes == canonical (map scored_case_id p.outcomes)))
        not_ordered
    raise_if (not (map (λ s. s.0) p.summaries == canonical (map (λ s. s.0) p.summaries)))
        not_ordered
    raise_if (any (λ s. is_empty s.0 || not (env.is_normalized s.0)) p.summaries)
        slice_not_normalized
    expected ← summarize_outcomes env p.outcomes
    raise_if (not (same_summary r.overall expected)) summary_mismatch
    raise_if (not (r.report_sha256 == agent_trajectory_report_sha256 p)) digest_mismatch
    raise_if
        (not
          (r.report_id == codes "trajectory-report-" ++ take 20 (agent_trajectory_report_sha256 p)))
        id_mismatch

  module _ (task : GroundedAnswerTask) (batch : GroundedAnswerCandidateBatch F)
      (grounded : GroundedScore F) (b : AgentTrajectoryBatch F) where
    unfoldable pub check_inputs : Scored (Unit {0})
    check_inputs = do
      let g = grounded.report
      raise_if (not g.is_adjudicated) not_adjudicated
      raise_if
          (not (batch.task_id == task.task_id)
            || not (batch.task_sha256 == task.task_sha256)
            || not (g.task_id == task.task_id)
            || not (g.task_sha256 == task.task_sha256)
            || not (g.batch_id == batch.batch_id)
            || not (g.batch_sha256 == batch.batch_sha256)
            || not (b.payload.task_id == task.task_id)
            || not (b.payload.task_sha256 == task.task_sha256)
            || not (b.payload.candidate_batch_id == batch.batch_id)
            || not (b.payload.candidate_batch_sha256 == batch.batch_sha256))
          task_mismatch
      raise_if
          (not (
            same_system (f env) batch.system g.system
            && same_system (f env) g.system b.payload.system))
          system_mismatch

    -- The body of the loop over the ids.
    unfoldable pub score_case : Text → Scored (AgentTrajectoryCaseOutcome F)
    score_case id = do
      a ← the_case candidate_case_id id batch.cases
      c ← the_case (trace_case_id env.trajectory) id b.payload.cases
      g ← the_case outcome_case_id id grounded.outcomes
      trajectory_outcome (f env) c g.strict_pass (claim_evidence a.response.claims)

    unfoldable pub score_cases : List Text → Scored (List (AgentTrajectoryCaseOutcome F))
    score_cases [] = ok []
    score_cases (id ∷ ids) = do o ← score_case id; rest ← score_cases ids; ok (o ∷ rest)

    -- The outcomes of the cases of a slice.
    unfoldable pub selected :
        Text → List (AgentTrajectoryCaseOutcome F) → List (AgentTrajectoryCaseOutcome F)
    selected name outcomes =
        keep
          (λ o. contains o.case_id (
            map task_case_id
              (keep (λ (c : GroundedAnswerTaskCase). contains name c.slices) task.cases)))
          outcomes

    unfoldable pub summarize_slices :
        List (AgentTrajectoryCaseOutcome F)
        → List Text
        → Scored (List (Text × AgentTrajectoryMetricSummary F))
    summarize_slices outcomes [] = ok []
    summarize_slices outcomes (name ∷ names) = do
      s ← summarize_outcomes env (selected name outcomes)
      rest ← summarize_slices outcomes names
      ok ((name, s) ∷ rest)

    -- The draft with its digest and the identity made of it.
    unfoldable pub score_of :
        Datetime
        → List (AgentTrajectoryCaseOutcome F)
        → List (Text × AgentTrajectoryMetricSummary F)
        → ScorePayload F
    score_of generated_at outcomes summaries =
        let draft : Text → Text → ScorePayload F = λ id sha. record {
          report = record {
            report_id = id;
            report_sha256 = sha;
            generated_at = record { instant = generated_at.instant; offset = some (pos 0) };
            benchmark_id = task.benchmark_id;
            captured_at = task.captured_at;
            task_id = task.task_id;
            task_sha256 = task.task_sha256;
            candidate_batch_id = batch.batch_id;
            candidate_batch_sha256 = batch.batch_sha256;
            grounded_report_id = grounded.report.report_id;
            grounded_report_sha256 = grounded.report.report_sha256;
            trajectory_batch_id = b.trajectory_batch_id;
            trajectory_batch_sha256 = b.trajectory_batch_sha256;
            system = batch.system;
            case_count = length outcomes;
            overall = draft_summary env outcomes;
            slices = map (λ s. s.0) summaries;
          };
          summaries = summaries;
          outcomes = outcomes;
        } in
        let digest = agent_trajectory_report_sha256 (draft [] []) in
        draft (codes "trajectory-report-" ++ take 20 digest) digest

    -- `generated_at` is the given time, or the clock's. The outcomes and the summaries have been validated
    -- when they were made.
    unfoldable pub score_agent_trajectory : Datetime → Scored (ScorePayload F)
    score_agent_trajectory generated_at = do
      check_inputs
      validate_case_bindings env.trajectory task batch b.payload.cases grounded.outcomes
      outcomes ← score_cases (canonical (map task_case_id task.cases))
      summaries ← summarize_slices outcomes (slice_names task)
      check_score_time generated_at
      summarize_outcomes env outcomes
      validate_report (score_of generated_at outcomes summaries)
      ok (score_of generated_at outcomes summaries)
