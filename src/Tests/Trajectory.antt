-- ===== src/Tests/Trajectory.antt =====
-- A task with one question, an answer to it, its trace and its score.
use atlas_pulse.Prelude.{
  ℕ, ◌+◌, ◌&&◌, ◌≡◌, false, some, none, List, [], ◌∷◌, ◌++◌, map, All, Text, codes, ok, refl, leb,
  ◌==◌, text_eq, nat_eq, ℕ_discrete, Text-discrete, Bool-discrete, arith, sort_insert, sorted,
  range_from, strip_prefix, matches_id, OptionText-discrete, if◌then◌else◌,
}
use atlas_pulse.Prelude.Order.{text_leb, distinct_texts, canonical, is_subset, same_set}
use atlas_pulse.AgentRuns.{is_empty}
use atlas_pulse.Release.Types.{texts_eq, Texts-discrete}
use atlas_pulse.Drift.Types.{Floats}
use atlas_pulse.Drift.{is_bounded}
use atlas_pulse.Trajectory.Types.{
  TrajectoryAction, AnswerStatus, Action-discrete, AnswerStatus-discrete, AgentTrajectoryStep,
  AgentTrajectorySubmission, AgentTrajectoryCase, AgentTrajectoryBatch, GroundedAnswerTaskCase,
  GroundedAnswerTask, GroundedAnswerCandidateCase, GroundedAnswerCandidateBatch, TrajectoryEnv,
}
use atlas_pulse.Trajectory.{
  all_ids, check_ids, is_evidence_id, has_action_shape, ends_once, check_observed, is_claim_id,
  validate_step, validate_steps, validate_trace, validate_case, validate_cases, validate_batch,
}
use atlas_pulse.Trajectory.Import.{
  case_of, require_case, capabilities_of, task_case_id, check_task_batch, empty_case,
  build_agent_trajectory_submission, check_submission, steps_of, case_with, import_row, import_case,
  import_cases, batch_of, apply_agent_trajectory_submission,
}
use atlas_pulse.Trajectory.Imported.{IsImported, apply-IsImported}
use atlas_pulse.Trajectory.Rows.{Trace, completed_cases}
use atlas_pulse.Trajectory.Completed.{complete_template, complete_template-is}
use atlas_pulse.Tests.Polling.{at}
use atlas_pulse.Tests.Release.{digest, system}
use atlas_pulse.Tests.Drift.{floats}

unfoldable pub trajectory_program : Unit {0}
unfolding ℕ_discrete Text-discrete Bool-discrete Texts-discrete OptionText-discrete Action-discrete
    AnswerStatus-discrete sort_insert sorted range_from strip_prefix matches_id text_leb
    distinct_texts canonical is_subset same_set is_empty is_bounded all_ids check_ids is_evidence_id
    has_action_shape ends_once check_observed is_claim_id validate_step validate_steps
    validate_trace validate_case validate_cases validate_batch case_of require_case capabilities_of
    check_task_batch empty_case build_agent_trajectory_submission check_submission steps_of
    case_with import_row import_case import_cases batch_of apply_agent_trajectory_submission
trajectory_program = tt

-- A quotient by 1 is exact, of others only whether they are 1.
abbrev pub scores : Floats ℕ
scores = record floats { ratio = λ a b. if b == 1 then a else if a == b then 1 else 0 }

abbrev pub add_up : List ℕ → ℕ
add_up [] = 0
add_up (n ∷ ns) = n + add_up ns

abbrev pub trajectories : TrajectoryEnv ℕ
trajectories = record {
  floats = scores;
  total = add_up;
  slack_ms = 0;
  is_digit_character = λ c. leb 48 c && leb c 57;
  response_digest = λ r. digest;
  batch_digest = λ p. digest;
}

abbrev pub evidence : Text
evidence = codes "evidence-" ++ digest

abbrev pub task_case : GroundedAnswerTaskCase
task_case = record {
  case_id = codes "answer-case-1";
  query_id = codes "query-1";
  slices = codes "all" ∷ [];
  pack_id = codes "evidence-pack-1";
  evidence_ids = evidence ∷ [];
}

abbrev pub task : GroundedAnswerTask
task = record {
  task_id = codes "grounded-task-1";
  task_sha256 = digest;
  benchmark_id = codes "bench-1";
  captured_at = at 3;
  cases = task_case ∷ [];
}

abbrev pub answer : GroundedAnswerCandidateCase ℕ
answer = record {
  case_id = codes "answer-case-1";
  query_id = codes "query-1";
  response = record {
    status = AnswerStatus.answered;
    claims =
        record {
          claim_id = codes "claim-01";
          text = codes "It rains.";
          evidence_ids = evidence ∷ [];
        }
        ∷ [];
    abstention_reason = none;
  };
  input_tokens = 900;
  output_tokens = 90;
  latency_ms = 400;
}

abbrev pub answers : GroundedAnswerCandidateBatch ℕ
answers = record {
  batch_id = codes "grounded-batch-1";
  batch_sha256 = digest;
  task_id = codes "grounded-task-1";
  task_sha256 = digest;
  system = system;
  cases = answer ∷ [];
}

abbrev pub step : ℕ → TrajectoryAction → List Text → List Text → AgentTrajectoryStep ℕ
step n action evidence_ids claim_ids = record {
  sequence = n;
  action = action;
  evidence_ids = evidence_ids;
  claim_ids = claim_ids;
  duration_ms = 100;
}

abbrev pub trace : Trace ℕ
trace = (
  step 1 TrajectoryAction.inspect_evidence (evidence ∷ []) []
      ∷ step 2 TrajectoryAction.draft_claim (evidence ∷ []) (codes "claim-01" ∷ [])
      ∷ step 3 TrajectoryAction.finalize [] []
      ∷ [],
  record {
    network_accessed = false;
    tools_invoked = false;
    external_side_effects_performed = false;
  },
)

abbrev pub traced : AgentTrajectoryCase ℕ
unfolding trajectory_program
traced = case_with trajectories task_case answer trace.0 trace.1

abbrev pub traces : AgentTrajectoryBatch ℕ
unfolding trajectory_program
traces = batch_of trajectories task answers (at 7) (traced ∷ [])

abbrev pub submission : AgentTrajectorySubmission ℕ
submission = record {
  task_id = codes "grounded-task-1";
  task_sha256 = digest;
  candidate_batch_id = codes "grounded-batch-1";
  candidate_batch_sha256 = digest;
  cases =
      record {
        case_id = codes "answer-case-1";
        query_id = codes "query-1";
        steps = some trace.0;
        capabilities = some trace.1;
      }
      ∷ [];
}

apply-IsImported_example :
    All (IsImported trajectories task answers submission) traces.payload.cases
    × (map (λ c. c.case_id) traces.payload.cases ≡ canonical (map task_case_id task.cases))
unfolding trajectory_program
apply-IsImported_example = apply-IsImported trajectories task answers submission (at 7) traces refl

complete_template-is_example :
    complete_template trajectories task answers (trace ∷ []) (at 7)
    ≡ ok (
        batch_of trajectories task answers
          (at 7)
          (completed_cases trajectories task.cases answers.cases (trace ∷ [])))
unfolding trajectory_program
complete_template-is_example =
    complete_template-is trajectories task answers (trace ∷ []) (at 7) refl refl refl refl
      (refl, refl, tt) refl (omega arith) (omega arith) refl refl
