-- ===== src/AgentRuns.antt =====
-- agent_runs.py: content-addressed preflight manifests of agent runs that never start.
pub mod Types
pub mod Manifest
pub mod Settled
pub mod Blocked
pub mod Approved
use atlas_pulse.Prelude.{
  ℕ, Bool, true, false, ◌&&◌, ◌||◌, not, Option, none, some, List, [], ◌∷◌, ◌++◌, map, length, keep,
  Result, ok, raise, ◌>>=◌, ◌>>◌, raise_if, ltb, leb, ◌==◌, text_eq, if◌then◌else◌, Text, codes,
  all, any, contains,
}
use atlas_pulse.Polling.Types.{Datetime}
use atlas_pulse.Polling.Validate.{is_some}
use atlas_pulse.EvidencePack.Types.{
  EvidencePack, EvidencePackStatus, traceable_evidence_available, no_traceable_evidence,
  pack_status_eq,
}
use atlas_pulse.EvidencePack.{identity_algorithm_constant}
use atlas_pulse.AgentRuns.Types.{
  AgentApprovalStatus, AgentReleaseStatus, AuthorizationCheckStatus, AuthorizationCheckId,
  AuthorizationBlockReason, AgentRunEvidence, AgentAuthorizationPolicy, AgentApprovalObservation,
  AgentReleaseObservation, AgentRunProposal, AuthorizationCheck, AgentAuthorization,
  AgentRunManifest, ProposalPayload, ManifestPayload, RunHashes, approval_status_eq,
  check_status_eq, proposal_eq,
}

pub data RunError : Type 0 where
  reason_required : RunError
  not_supplied_with_fields incomplete_identity eligible_not_passed blocked_without_reasons :
      RunError
  approval_incomplete approval_other_proposal approval_revoked approval_outside_lifetime : RunError
  proposal_mismatch : RunError

abbrev pub Run : Type 0 → Type 0
Run A = Result RunError A

unfoldable pub run_schema_version : Text
run_schema_version = codes "1.2.0"

unfoldable pub run_rule_version : Text
run_rule_version = codes "agent-run-manifest-v3"

unfoldable pub proposal_rule_version_constant : Text
proposal_rule_version_constant = codes "agent-run-proposal-v2"

unfoldable pub authorization_policy_version : Text
authorization_policy_version = codes "agent-authorization-v3"

unfoldable pub run_caveat : Text
run_caveat =
    codes
      "Preflight records a deterministic policy decision bound to one evidence-pack identity. A validated release assessment may satisfy only its measured quality gates, and a trusted, active approval may satisfy only the human-release check. Preflight may perform ordinary local retrieval to assemble the pack, but it does not start the proposed agent, invoke a generative agent model, grant agent network or tool access, generate an answer, or perform agent side effects."

-- The literals that a check observes.
unfoldable pub pack_status_name : EvidencePackStatus → Text
pack_status_name traceable_evidence_available = codes "traceable_evidence_available"
pack_status_name no_traceable_evidence = codes "no_traceable_evidence"

unfoldable pub release_status_name : AgentReleaseStatus → Text
release_status_name AgentReleaseStatus.not_supplied = codes "not_supplied"
release_status_name AgentReleaseStatus.blocked = codes "blocked"
release_status_name AgentReleaseStatus.eligible_for_human_review = codes "eligible_for_human_review"

unfoldable pub approval_status_name : AgentApprovalStatus → Text
approval_status_name AgentApprovalStatus.not_supplied = codes "not_supplied"
approval_status_name AgentApprovalStatus.not_found = codes "not_found"
approval_status_name AgentApprovalStatus.not_yet_valid = codes "not_yet_valid"
approval_status_name AgentApprovalStatus.active = codes "active"
approval_status_name AgentApprovalStatus.expired = codes "expired"
approval_status_name AgentApprovalStatus.revoked = codes "revoked"
approval_status_name AgentApprovalStatus.scope_mismatch = codes "scope_mismatch"
approval_status_name AgentApprovalStatus.untrusted_signer = codes "untrusted_signer"
approval_status_name AgentApprovalStatus.ledger_invalid = codes "ledger_invalid"
approval_status_name AgentApprovalStatus.ledger_unavailable = codes "ledger_unavailable"

-- AgentApprovalObservation()
unfoldable pub no_approval : AgentApprovalObservation
no_approval = record {
  status = AgentApprovalStatus.not_supplied;
  approval_id = none;
  approved_proposal_id = none;
  source_manifest_id = none;
  approver_id = none;
  signing_key_id = none;
  issued_at = none;
  expires_at = none;
  revocation_id = none;
  evaluated_at = none;
}

-- AgentReleaseObservation()
unfoldable pub no_release : AgentReleaseObservation
no_release = record {
  status = AgentReleaseStatus.not_supplied;
  assessment_id = none;
  assessment_sha256 = none;
  policy_id = none;
  policy_sha256 = none;
  agent_candidate_id = none;
  relationship_report_id = none;
  trajectory_report_ids = [];
  model_adapter_evaluated = false;
  relationship_benchmark_passed = false;
  grounded_answer_evaluation_passed = false;
  agent_trajectory_evaluation_passed = false;
  trajectory_drift_monitoring_passed = false;
  release_threshold_policy_passed = false;
  blocking_reasons = [];
}

-- `_check`
unfoldable pub check :
    AuthorizationCheckId
    → Bool
    → Text
    → Text
    → Option AuthorizationBlockReason
    → Run AuthorizationCheck
check id true observed required reason = ok (record {
  check_id = id;
  status = AuthorizationCheckStatus.passed;
  observed = observed;
  required = required;
  blocking_reason = none;
})
check id false observed required none = raise reason_required
check id false observed required (some reason) = ok (record {
  check_id = id;
  status = AuthorizationCheckStatus.blocked;
  observed = observed;
  required = required;
  blocking_reason = some reason;
})

unfoldable pub human_release_blocking_reason : AgentApprovalStatus → AuthorizationBlockReason
human_release_blocking_reason AgentApprovalStatus.not_yet_valid =
    AuthorizationBlockReason.human_release_not_yet_valid
human_release_blocking_reason AgentApprovalStatus.expired =
    AuthorizationBlockReason.human_release_expired
human_release_blocking_reason AgentApprovalStatus.revoked =
    AuthorizationBlockReason.human_release_revoked
human_release_blocking_reason AgentApprovalStatus.scope_mismatch =
    AuthorizationBlockReason.human_release_scope_mismatch
human_release_blocking_reason AgentApprovalStatus.untrusted_signer =
    AuthorizationBlockReason.human_release_untrusted
human_release_blocking_reason AgentApprovalStatus.ledger_invalid =
    AuthorizationBlockReason.approval_ledger_invalid
human_release_blocking_reason AgentApprovalStatus.ledger_unavailable =
    AuthorizationBlockReason.approval_ledger_unavailable
human_release_blocking_reason _ = AuthorizationBlockReason.human_release_not_granted

unfoldable pub is_empty {ℓ} : {A : Type ℓ} → List A → Bool
is_empty [] = true
is_empty (x ∷ xs) = false

unfoldable pub identity_fields : AgentReleaseObservation → List Bool
identity_fields r =
    is_some r.assessment_id
    ∷ is_some r.assessment_sha256
    ∷ is_some r.policy_id
    ∷ is_some r.policy_sha256
    ∷ is_some r.agent_candidate_id
    ∷ is_some r.relationship_report_id
    ∷ []

unfoldable pub release_flags : AgentReleaseObservation → List Bool
release_flags r =
    r.model_adapter_evaluated ∷ r.relationship_benchmark_passed
    ∷ r.grounded_answer_evaluation_passed ∷ r.agent_trajectory_evaluation_passed
    ∷ r.trajectory_drift_monitoring_passed ∷ r.release_threshold_policy_passed ∷ []

abbrev pub holds : Bool → Bool
holds b = b

-- The checks of `_validate_release_observation` on the flags of a resolved release.
unfoldable pub check_release_flags : AgentReleaseObservation → AgentReleaseStatus → Run (Unit {0})
check_release_flags r AgentReleaseStatus.eligible_for_human_review =
    raise_if (not (all holds (release_flags r)) || not (is_empty r.blocking_reasons))
      eligible_not_passed
check_release_flags r _ =
    raise_if (r.release_threshold_policy_passed || is_empty r.blocking_reasons)
      blocked_without_reasons

unfoldable pub validate_release : AgentReleaseObservation → AgentReleaseStatus → Run (Unit {0})
validate_release r AgentReleaseStatus.not_supplied =
    raise_if
      (any holds (identity_fields r)
        || not (is_empty r.trajectory_report_ids)
        || any holds (release_flags r)
        || not (is_empty r.blocking_reasons))
      not_supplied_with_fields
validate_release r status = do
  raise_if (any not (identity_fields r) || is_empty r.trajectory_report_ids) incomplete_identity
  check_release_flags r status

-- `_validate_release_observation`
unfoldable pub validate_release_observation : AgentReleaseObservation → Run (Unit {0})
validate_release_observation r = validate_release r r.status

-- `approval.approved_proposal_id != proposal_id`
unfoldable pub names_other : Option Text → Text → Bool
names_other none id = true
names_other (some other) id = not (other == id)

-- `issued_at <= evaluated_at < expires_at`, where the three are there
unfoldable pub is_within : Option Datetime → Option Datetime → Option Datetime → Bool
is_within (some issued) (some evaluated) (some expires) =
    leb issued.instant evaluated.instant && ltb evaluated.instant expires.instant
is_within _ _ _ = false

-- `_validate_active_approval`
unfoldable pub validate_active_approval : AgentApprovalObservation → Text → Run (Unit {0})
validate_active_approval a proposal_id =
    if not (a.status == AgentApprovalStatus.active) then ok tt else do
      raise_if
          (not (is_some a.approval_id)
            || not (is_some a.approved_proposal_id)
            || not (is_some a.source_manifest_id)
            || not (is_some a.approver_id)
            || not (is_some a.signing_key_id)
            || not (is_some a.issued_at)
            || not (is_some a.expires_at)
            || not (is_some a.evaluated_at))
          approval_incomplete
      raise_if (names_other a.approved_proposal_id proposal_id) approval_other_proposal
      raise_if (is_some a.revocation_id) approval_revoked
      raise_if (not (is_within a.issued_at a.evaluated_at a.expires_at)) approval_outside_lifetime
