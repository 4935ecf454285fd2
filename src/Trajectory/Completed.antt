-- ===== src/Trajectory/Completed.antt =====
-- A template that is completed with traces is imported.
use atlas_pulse.Prelude.{
  ◌≤◌, true, false, List, length, map, unique, ok, ◌>>=◌, Option-cases, ◌==◌, text_eq, nat_eq,
  arith, refl, ◌≡◌, ==_refl, sym, ap, ◌∙◌, length-map, ltb,
}
use mathlib.Core.Path.{subst}
use atlas_pulse.Prelude.Order.{canonical, same_set}
use atlas_pulse.Polling.Types.{Datetime}
use atlas_pulse.Polling.Validate.{is_some}
use atlas_pulse.Release.Types.{texts_eq}
use atlas_pulse.AgentRuns.{is_empty}
use atlas_pulse.Trajectory.Types.{
  AgentTrajectorySubmission, AgentTrajectoryCase, AgentTrajectoryBatch, GroundedAnswerTask,
  GroundedAnswerCandidateBatch, TrajectoryEnv,
}
use atlas_pulse.Trajectory.{Traced, validate_cases, validate_batch, check_observed}
use atlas_pulse.Trajectory.Import.{
  validate_submission, template_of, empty_case, task_case_id, candidate_case_id, submitted_case_id,
  check_task_batch, empty_case, build_agent_trajectory_submission, check_submission, import_cases,
  batch_of, apply_agent_trajectory_submission,
}
use atlas_pulse.Trajectory.Lookups.{Finds-unique, is_subset_self, not_empty}
use atlas_pulse.Trajectory.Rows.{
  Trace, complete, complete-ids, empty_case-ids, completed_cases, Answers, Answers-ids,
  import_cases-completed, completed_cases-ids,
}

module _ {F : Type 0} (env : TrajectoryEnv F) where
  module _ (task : GroundedAnswerTask) (batch : GroundedAnswerCandidateBatch F)
      (traces : List (Trace F)) (observed_at : Datetime) where
    -- A template is built, its cases are completed, and the result is imported.
    abbrev pub complete_template : Traced (AgentTrajectoryBatch F)
    complete_template = do
      template ← build_agent_trajectory_submission task batch
      apply_agent_trajectory_submission env task batch
          (record template { cases = complete template.cases traces }) observed_at

    -- The cases of the result.
    abbrev cases : List (AgentTrajectoryCase F)
    cases = completed_cases env task.cases batch.cases traces

    check_task_batch-matches :
        batch.task_id ≡ task.task_id
        → batch.task_sha256 ≡ task.task_sha256
        → Answers task.cases batch.cases
        → check_task_batch task batch ≡ ok tt
    unfolding check_task_batch
    check_task_batch-matches same_id same_sha answers =
        rw
          (
            same_id,
            same_sha,
            Answers-ids task.cases batch.cases answers,
            ==_refl task.task_id,
            ==_refl task.task_sha256,
            ==_refl (map candidate_case_id batch.cases),
          )
          refl

    validate_batch-completed :
        canonical (map task_case_id task.cases) ≡ map task_case_id task.cases
        → Answers task.cases batch.cases
        → length traces ≡ length task.cases
        → 1 ≤ length task.cases
        → length task.cases ≤ 100
        → validate_cases env cases ≡ ok tt
        → validate_batch env (batch_of env task batch observed_at cases) ≡ ok tt
    unfolding validate_batch batch_of check_observed
    validate_batch-completed ordered answers same some_case few valid =
        let ids : map (λ (c : AgentTrajectoryCase F). c.case_id) cases
            ≡ map task_case_id task.cases =
          completed_cases-ids env task.cases batch.cases traces answers same in
        let ordered_cases : (map (λ (c : AgentTrajectoryCase F). c.case_id) cases
              == canonical (map (λ (c : AgentTrajectoryCase F). c.case_id) cases))
            ≡ true =
          subst (λ i. (i == canonical i) ≡ true) (sym ids)
            (rw ordered (==_refl (map task_case_id task.cases))) in
        let count : length cases ≡ length task.cases =
          sym (length-map (λ (c : AgentTrajectoryCase F). c.case_id) cases)
          ∙ ap length ids
          ∙ length-map task_case_id task.cases in
        let present : is_empty cases ≡ false = not_empty cases (rw count some_case) in
        let bounded : ltb 100 (length cases) ≡ false = ground (arith, count, few) in
        ground (
          arith,
          ordered_cases,
          present,
          bounded,
          valid,
          ==_refl (length cases),
          ==_refl (env.batch_digest (batch_of env task batch observed_at cases).payload),
          ==_refl (batch_of env task batch observed_at cases).trajectory_batch_id,
        )

    validate_submission-template :
        canonical (map task_case_id task.cases) ≡ map task_case_id task.cases
        → 1 ≤ length task.cases
        → length task.cases ≤ 100
        → validate_submission (template_of task batch) ≡ ok tt
    unfolding validate_submission
    validate_submission-template ordered some_case few =
        let cases = (template_of task batch).cases in
        let ids : map submitted_case_id cases ≡ map task_case_id task.cases =
          empty_case-ids F task.cases in
        let ordered_cases : (map submitted_case_id cases == canonical (map submitted_case_id cases))
            ≡ true =
          subst (λ i. (i == canonical i) ≡ true) (sym ids)
            (rw ordered (==_refl (map task_case_id task.cases))) in
        let count : length cases ≡ length task.cases = length-map empty_case task.cases in
        let present : is_empty cases ≡ false = not_empty cases (rw count some_case) in
        let bounded : ltb 100 (length cases) ≡ false = ground (arith, count, few) in
        ground (arith, ordered_cases, present, bounded)

    abbrev completed_template : AgentTrajectorySubmission F
    completed_template = record {
      task_id = task.task_id;
      task_sha256 = task.task_sha256;
      candidate_batch_id = batch.batch_id;
      candidate_batch_sha256 = batch.batch_sha256;
      cases = complete (map empty_case task.cases) traces;
    }

    check_submission-completed :
        length traces ≡ length task.cases → check_submission task batch completed_template ≡ ok tt
    unfolding check_submission same_set
    check_submission-completed same =
        rw
          (
            ==_refl task.task_id,
            ==_refl task.task_sha256,
            ==_refl batch.batch_id,
            ==_refl batch.batch_sha256,
            complete-ids task.cases traces same,
            is_subset_self (map task_case_id task.cases),
          )
          refl

    -- When a batch with the identity of its task answers its cases, one to a hundred with unique
    -- ids in order, one by one, and the time is aware, the template is built, and completed with
    -- a trace of each case it is imported as the batch of these traces, if their cases are valid.
    pub complete_template-is :
        batch.task_id ≡ task.task_id
        → batch.task_sha256 ≡ task.task_sha256
        → canonical (map task_case_id task.cases) ≡ map task_case_id task.cases
        → unique (map task_case_id task.cases) ≡ true
        → Answers task.cases batch.cases
        → length traces ≡ length task.cases
        → 1 ≤ length task.cases
        → length task.cases ≤ 100
        → is_some observed_at.offset ≡ true
        → validate_cases env cases ≡ ok tt
        → complete_template ≡ ok (batch_of env task batch observed_at cases)
    unfolding build_agent_trajectory_submission apply_agent_trajectory_submission check_observed
    complete_template-is same_id same_sha ordered fresh answers same some_case few aware valid =
        let ids = complete-ids task.cases traces same in
        let candidates = Answers-ids task.cases batch.cases answers in
        let imported : import_cases env task batch completed_template (map task_case_id task.cases)
            ≡ ok cases =
          import_cases-completed env task batch completed_template task.cases batch.cases traces
            answers same (Finds-unique task_case_id task.cases fresh)
            (Finds-unique candidate_case_id batch.cases
              (subst (λ i. unique i ≡ true) candidates fresh))
            (Finds-unique submitted_case_id completed_template.cases
              (subst (λ i. unique i ≡ true) (sym ids) fresh))
            valid in
        let observed : check_observed observed_at ≡ ok tt =
          ground (arith, aware, Option-cases observed_at.offset) in
        rw
          (
            check_task_batch-matches same_id same_sha answers,
            validate_submission-template ordered some_case few,
            check_submission-completed same,
            ordered,
            imported,
            observed,
            validate_batch-completed ordered answers same some_case few valid,
          )
          refl
