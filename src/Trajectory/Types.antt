-- ===== src/Trajectory/Types.antt =====
-- The data of agent_trajectory/base.py, and what it reads of grounded_answer_evaluation/base.py: of a
-- task case the ids of its evidence stand for the evidence, and of the rest of a task, a response and
-- a batch there are the fields that are read. `F` is the type of floats; fields whose type is one
-- literal are left out.
use atlas_pulse.Prelude.{ℕ, Bool, Option, List, Text, Eq}
use atlas_pulse.Polling.Types.{Datetime}
use atlas_pulse.Release.Types.{CandidateSystemDefinition}
use atlas_pulse.Drift.Types.{Floats}

pub data TrajectoryAction : Type 0 where
  inspect_evidence draft_claim choose_abstention finalize : TrajectoryAction

pub data AnswerStatus : Type 0 where
  answered abstained : AnswerStatus

unfoldable pub Action-discrete : Discrete TrajectoryAction
Action-discrete = hlevel

unfoldable pub AnswerStatus-discrete : Discrete AnswerStatus
AnswerStatus-discrete = hlevel

instance abbrev pub action_eq : Eq TrajectoryAction
action_eq = record { discrete = Action-discrete }

instance abbrev pub answer_status_eq : Eq AnswerStatus
answer_status_eq = record { discrete = AnswerStatus-discrete }

pub record AgentTrajectoryStep (F : Type 0) : Type 0 where
  pub sequence : ℕ
  pub action : TrajectoryAction
  pub evidence_ids : List Text
  pub claim_ids : List Text
  pub duration_ms : F

pub record AgentCapabilityObservation : Type 0 where
  pub network_accessed : Bool
  pub tools_invoked : Bool
  pub external_side_effects_performed : Bool

pub record AgentTrajectorySubmissionCase (F : Type 0) : Type 0 where
  pub case_id : Text
  pub query_id : Text
  pub steps : Option (List (AgentTrajectoryStep F))
  pub capabilities : Option AgentCapabilityObservation

pub record AgentTrajectorySubmission (F : Type 0) : Type 0 where
  pub task_id : Text
  pub task_sha256 : Text
  pub candidate_batch_id : Text
  pub candidate_batch_sha256 : Text
  pub cases : List (AgentTrajectorySubmissionCase F)

pub record AgentTrajectoryCase (F : Type 0) : Type 0 where
  pub case_id : Text
  pub query_id : Text
  pub pack_id : Text
  pub response_sha256 : Text
  pub response_status : AnswerStatus
  pub available_evidence_ids : List Text
  pub required_evidence_ids : List Text
  pub required_claim_ids : List Text
  pub steps : List (AgentTrajectoryStep F)
  pub capabilities : AgentCapabilityObservation
  pub input_tokens : ℕ
  pub output_tokens : ℕ
  pub latency_ms : F

pub record TrajectoryPayload (F : Type 0) : Type 0 where
  pub task_id : Text
  pub task_sha256 : Text
  pub candidate_batch_id : Text
  pub candidate_batch_sha256 : Text
  pub observed_at : Datetime
  pub system : CandidateSystemDefinition F
  pub case_count : ℕ
  pub cases : List (AgentTrajectoryCase F)

pub record AgentTrajectoryBatch (F : Type 0) : Type 0 where
  pub trajectory_batch_id : Text
  pub trajectory_batch_sha256 : Text
  pub payload : TrajectoryPayload F

pub record GroundedAnswerClaim : Type 0 where
  pub claim_id : Text
  pub text : Text
  pub evidence_ids : List Text

pub record GroundedAnswerResponse : Type 0 where
  pub status : AnswerStatus
  pub claims : List GroundedAnswerClaim
  pub abstention_reason : Option Text

pub record GroundedAnswerTaskCase : Type 0 where
  pub case_id : Text
  pub query_id : Text
  pub slices : List Text
  pub pack_id : Text
  pub evidence_ids : List Text

pub record GroundedAnswerTask : Type 0 where
  pub task_id : Text
  pub task_sha256 : Text
  pub benchmark_id : Text
  pub captured_at : Datetime
  pub cases : List GroundedAnswerTaskCase

pub record GroundedAnswerCandidateCase (F : Type 0) : Type 0 where
  pub case_id : Text
  pub query_id : Text
  pub response : GroundedAnswerResponse
  pub input_tokens : ℕ
  pub output_tokens : ℕ
  pub latency_ms : F

pub record GroundedAnswerCandidateBatch (F : Type 0) : Type 0 where
  pub batch_id : Text
  pub batch_sha256 : Text
  pub task_id : Text
  pub task_sha256 : Text
  pub system : CandidateSystemDefinition F
  pub cases : List (GroundedAnswerCandidateCase F)

-- What the code calls of Python: the arithmetic of floats, `sum` of floats, 1e-9, `str.isdigit` of a
-- character, and SHA-256 over the canonical JSON of a response and of a batch.
pub record TrajectoryEnv (F : Type 0) : Type 0 where
  pub floats : Floats F
  pub total : List F → F
  pub slack_ms : F
  pub is_digit_character : ℕ → Bool
  pub response_digest : GroundedAnswerResponse → Text
  pub batch_digest : TrajectoryPayload F → Text
