-- ===== src/Scoring/Types.antt =====
-- The data of agent_trajectory/scoring.py. A score is the report that the drift component compares, with
-- its outcomes and the summaries of its slices; of a grounded report there are the outcomes beside the
-- fields that the release component reads.
use atlas_pulse.Prelude.{ℕ, Bool, List, Text}
use atlas_pulse.Drift.Types.{AgentTrajectoryMetricSummary, AgentTrajectoryScoreReport}
use atlas_pulse.Release.Reports.{GroundedAnswerEvaluationReport}
use atlas_pulse.Trajectory.Types.{AnswerStatus, TrajectoryEnv}

pub record AgentTrajectoryCaseOutcome (F : Type 0) : Type 0 where
  pub case_id : Text
  pub query_id : Text
  pub response_status : AnswerStatus
  pub step_count : ℕ
  pub inspected_evidence_count : ℕ
  pub required_evidence_count : ℕ
  pub traced_claim_count : ℕ
  pub required_claim_count : ℕ
  pub evidence_inspection_rate : F
  pub claim_trace_rate : F
  pub policy_compliant : Bool
  pub termination_consistent : Bool
  pub strict_trajectory_pass : Bool
  pub grounded_strict_pass : Bool
  pub strict_end_to_end_pass : Bool
  pub input_tokens : ℕ
  pub output_tokens : ℕ
  pub latency_ms : F

pub record ScorePayload (F : Type 0) : Type 0 where
  pub report : AgentTrajectoryScoreReport F
  pub summaries : List (Text × AgentTrajectoryMetricSummary F)
  pub outcomes : List (AgentTrajectoryCaseOutcome F)

pub record GroundedAnswerCaseOutcome : Type 0 where
  pub case_id : Text
  pub query_id : Text
  pub response_status : AnswerStatus
  pub strict_pass : Bool

pub record GroundedScore (F : Type 0) : Type 0 where
  pub report : GroundedAnswerEvaluationReport F
  pub outcomes : List GroundedAnswerCaseOutcome

-- What the code calls of Python besides: the product of floats, `int` of a float, 0.95, the order of
-- floats for `sorted`, `name == name.strip().casefold()`, and SHA-256 over the canonical JSON of a
-- score without its identity.
pub record ScoreEnv (F : Type 0) : Type 0 where
  pub trajectory : TrajectoryEnv F
  pub mul : F → F → F
  pub truncate : F → ℕ
  pub fraction95 : F
  pub is_normalized : Text → Bool
  pub score_digest : ScorePayload F → Text
