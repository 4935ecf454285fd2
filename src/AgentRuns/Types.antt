-- ===== src/AgentRuns/Types.antt =====
-- The data of agent_runs.py. Fields whose type admits one literal are left out: the capabilities, the
-- request, the switches of the policy and the execution state hold nothing else.
use atlas_pulse.Prelude.{ℕ, Bool, Option, List, Text, Eq, ℕ_discrete}
use atlas_pulse.Polling.Types.{Datetime}
use atlas_pulse.EvidencePack.Types.{EvidencePackStatus}

pub data AgentApprovalStatus : Type 0 where
  not_supplied not_found not_yet_valid active expired : AgentApprovalStatus
  revoked scope_mismatch untrusted_signer ledger_invalid ledger_unavailable : AgentApprovalStatus

pub data AgentReleaseStatus : Type 0 where
  not_supplied blocked eligible_for_human_review : AgentReleaseStatus

pub data AuthorizationCheckStatus : Type 0 where
  passed blocked : AuthorizationCheckStatus

pub data AuthorizationCheckId : Type 0 where
  evidence_pack_integrity traceable_evidence capability_scope model_adapter : AuthorizationCheckId
  live_relationship_benchmark grounded_answer_evaluation : AuthorizationCheckId
  agent_trajectory_evaluation trajectory_drift_monitoring : AuthorizationCheckId
  release_threshold_policy human_release execution_release : AuthorizationCheckId

pub data AuthorizationBlockReason : Type 0 where
  no_traceable_evidence model_adapter_not_selected : AuthorizationBlockReason
  live_relationship_benchmark_incomplete grounded_answer_evaluation_missing :
      AuthorizationBlockReason
  agent_trajectory_evaluation_missing trajectory_drift_evidence_missing : AuthorizationBlockReason
  release_thresholds_not_met human_release_not_granted : AuthorizationBlockReason
  human_release_not_yet_valid human_release_expired human_release_revoked : AuthorizationBlockReason
  human_release_scope_mismatch human_release_untrusted : AuthorizationBlockReason
  approval_ledger_invalid approval_ledger_unavailable execution_disabled : AuthorizationBlockReason

unfoldable pub ApprovalStatus-discrete : Discrete AgentApprovalStatus
ApprovalStatus-discrete = hlevel

unfoldable pub ReleaseStatus-discrete : Discrete AgentReleaseStatus
ReleaseStatus-discrete = hlevel

unfoldable pub CheckStatus-discrete : Discrete AuthorizationCheckStatus
CheckStatus-discrete = hlevel

unfoldable pub BlockReason-discrete : Discrete AuthorizationBlockReason
BlockReason-discrete = hlevel

instance abbrev pub approval_status_eq : Eq AgentApprovalStatus
approval_status_eq = record { discrete = ApprovalStatus-discrete }

instance abbrev pub release_status_eq : Eq AgentReleaseStatus
release_status_eq = record { discrete = ReleaseStatus-discrete }

instance abbrev pub check_status_eq : Eq AuthorizationCheckStatus
check_status_eq = record { discrete = CheckStatus-discrete }

instance abbrev pub block_reason_eq : Eq AuthorizationBlockReason
block_reason_eq = record { discrete = BlockReason-discrete }

pub record AgentRunEvidence : Type 0 where
  pub pack_id : Text
  pub pack_rule_version : Text
  pub pack_status : EvidencePackStatus
  pub item_count : ℕ
  pub exclusion_count : ℕ
  pub source_text_characters : ℕ
  pub evidence_ids : List Text

pub record AgentAuthorizationPolicy : Type 0 where
  pub policy_version : Text

pub record AgentApprovalObservation : Type 0 where
  pub status : AgentApprovalStatus
  pub approval_id : Option Text
  pub approved_proposal_id : Option Text
  pub source_manifest_id : Option Text
  pub approver_id : Option Text
  pub signing_key_id : Option Text
  pub issued_at : Option Datetime
  pub expires_at : Option Datetime
  pub revocation_id : Option Text
  pub evaluated_at : Option Datetime

pub record AgentReleaseObservation : Type 0 where
  pub status : AgentReleaseStatus
  pub assessment_id : Option Text
  pub assessment_sha256 : Option Text
  pub policy_id : Option Text
  pub policy_sha256 : Option Text
  pub agent_candidate_id : Option Text
  pub relationship_report_id : Option Text
  pub trajectory_report_ids : List Text
  pub model_adapter_evaluated : Bool
  pub relationship_benchmark_passed : Bool
  pub grounded_answer_evaluation_passed : Bool
  pub agent_trajectory_evaluation_passed : Bool
  pub trajectory_drift_monitoring_passed : Bool
  pub release_threshold_policy_passed : Bool
  pub blocking_reasons : List Text

pub record AgentRunProposal : Type 0 where
  pub proposal_id : Text
  pub proposal_rule_version : Text
  pub evidence : AgentRunEvidence
  pub policy : AgentAuthorizationPolicy
  pub release : AgentReleaseObservation

pub record AuthorizationCheck : Type 0 where
  pub check_id : AuthorizationCheckId
  pub status : AuthorizationCheckStatus
  pub observed : Text
  pub required : Text
  pub blocking_reason : Option AuthorizationBlockReason

-- The decision of an authorization is the literal `blocked`.
pub record AgentAuthorization : Type 0 where
  pub passed_check_count : ℕ
  pub blocked_check_count : ℕ
  pub blocking_reasons : List AuthorizationBlockReason
  pub checks : List AuthorizationCheck

pub record AgentRunManifest : Type 0 where
  pub manifest_id : Text
  pub schema_version : Text
  pub rule_version : Text
  pub identity_algorithm : Text
  pub proposal_id : Text
  pub evidence : AgentRunEvidence
  pub policy : AgentAuthorizationPolicy
  pub release : AgentReleaseObservation
  pub approval : AgentApprovalObservation
  pub authorization : AgentAuthorization
  pub caveat : Text

-- The payloads of the two content identities, less their constants.
pub record ProposalPayload : Type 0 where
  pub evidence : AgentRunEvidence
  pub policy : AgentAuthorizationPolicy
  pub release : AgentReleaseObservation

pub record ManifestPayload : Type 0 where
  pub proposal_id : Text
  pub evidence : AgentRunEvidence
  pub policy : AgentAuthorizationPolicy
  pub release : AgentReleaseObservation
  pub approval : AgentApprovalObservation
  pub authorization : AgentAuthorization

-- SHA-256 over the canonical JSON of each payload.
pub record RunHashes : Type 0 where
  pub proposal_sha256 : ProposalPayload → Text
  pub manifest_sha256 : ManifestPayload → Text

-- `==` of proposals, field by field.
unfoldable pub Release-discrete : Discrete AgentReleaseObservation
Release-discrete = hlevel ℕ_discrete

unfoldable pub Proposal-discrete : Discrete AgentRunProposal
Proposal-discrete = hlevel ℕ_discrete

instance abbrev pub proposal_eq : Eq AgentRunProposal
proposal_eq = record { discrete = Proposal-discrete }

unfoldable pub CheckId-discrete : Discrete AuthorizationCheckId
CheckId-discrete = hlevel

instance abbrev pub check_id_eq : Eq AuthorizationCheckId
check_id_eq = record { discrete = CheckId-discrete }
