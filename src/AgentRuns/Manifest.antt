-- ===== src/AgentRuns/Manifest.antt =====
-- The authorization checks, proposals and manifests of agent_runs.py.
use atlas_pulse.Prelude.{
  Bool, true, false, ◌&&◌, not, Option, none, some, List, [], ◌∷◌, ◌++◌, map, length, keep, ok,
  ◌>>=◌, ◌>>◌, raise_if, ◌==◌, if◌then◌else◌, Text, codes,
}
use atlas_pulse.EvidencePack.Types.{EvidencePack, traceable_evidence_available, pack_status_eq}
use atlas_pulse.EvidencePack.{identity_algorithm_constant}
use atlas_pulse.AgentRuns.Types.{
  AgentApprovalStatus, AuthorizationCheckStatus, AuthorizationCheckId, AuthorizationBlockReason,
  AgentRunEvidence, AgentAuthorizationPolicy, AgentApprovalObservation, AgentReleaseObservation,
  AgentRunProposal, AuthorizationCheck, AgentAuthorization, AgentRunManifest, RunHashes,
  approval_status_eq, check_status_eq, proposal_eq,
}
use atlas_pulse.AgentRuns.{
  Run, check, human_release_blocking_reason, is_empty, pack_status_name, release_status_name,
  approval_status_name, validate_release_observation, validate_active_approval, run_schema_version,
  run_rule_version, proposal_rule_version_constant, authorization_policy_version, run_caveat,
  proposal_mismatch,
}

-- `a or b`, for a text that may be missing
unfoldable pub or_text : Option Text → Text → Text
or_text none d = d
or_text (some []) d = d
or_text (some (c ∷ s)) d = c ∷ s

module _ {F Q : Type 0} where
  -- `pack.status == "traceable_evidence_available" and bool(pack.items)`
  unfoldable pub has_traceable_evidence : EvidencePack F Q → Bool
  has_traceable_evidence pack =
      pack.status == traceable_evidence_available && not (is_empty pack.items)

  -- `_authorization_checks`: eleven checks, in order.
  unfoldable pub authorization_checks :
      EvidencePack F Q
      → AgentReleaseObservation
      → AgentApprovalObservation
      → Run (List AuthorizationCheck)
  authorization_checks pack release approval = do
    let status = release_status_name release.status
    integrity ←
        check AuthorizationCheckId.evidence_pack_integrity true
          (codes "content_addressed_bounded_pack") (codes "content_addressed_bounded_pack") none
    evidence ←
        check AuthorizationCheckId.traceable_evidence (has_traceable_evidence pack)
          (pack_status_name pack.status) (codes "traceable_evidence_available")
          (some AuthorizationBlockReason.no_traceable_evidence)
    scope ←
        check AuthorizationCheckId.capability_scope true
          (codes "read_only_no_network_no_tools_no_side_effects")
          (codes "read_only_no_network_no_tools_no_side_effects") none
    adapter ←
        check AuthorizationCheckId.model_adapter release.model_adapter_evaluated
          (or_text release.agent_candidate_id status) (codes "evaluated_model_adapter")
          (some AuthorizationBlockReason.model_adapter_not_selected)
    relationship ←
        check AuthorizationCheckId.live_relationship_benchmark release.relationship_benchmark_passed
          (or_text release.relationship_report_id status) (codes "adjudicated_pass")
          (some AuthorizationBlockReason.live_relationship_benchmark_incomplete)
    grounded ←
        check AuthorizationCheckId.grounded_answer_evaluation
          release.grounded_answer_evaluation_passed (or_text release.assessment_id status)
          (codes "evaluated_pass")
          (some AuthorizationBlockReason.grounded_answer_evaluation_missing)
    trajectory ←
        check AuthorizationCheckId.agent_trajectory_evaluation
          release.agent_trajectory_evaluation_passed (or_text release.assessment_id status)
          (codes "observable_trajectory_pass")
          (some AuthorizationBlockReason.agent_trajectory_evaluation_missing)
    drift ←
        check AuthorizationCheckId.trajectory_drift_monitoring
          release.trajectory_drift_monitoring_passed (or_text release.assessment_id status)
          (codes "complete_stable_drift_chain")
          (some AuthorizationBlockReason.trajectory_drift_evidence_missing)
    threshold ←
        check AuthorizationCheckId.release_threshold_policy release.release_threshold_policy_passed
          status (codes "eligible_for_human_review")
          (some AuthorizationBlockReason.release_thresholds_not_met)
    human ←
        check AuthorizationCheckId.human_release (approval.status == AgentApprovalStatus.active)
          (approval_status_name approval.status) (codes "active_trusted_unrevoked_approval")
          (some (human_release_blocking_reason approval.status))
    execution ←
        check AuthorizationCheckId.execution_release false (codes "disabled") (codes "enabled")
          (some AuthorizationBlockReason.execution_disabled)
    ok (
        integrity ∷ evidence ∷ scope ∷ adapter ∷ relationship ∷ grounded ∷ trajectory ∷ drift
        ∷ threshold ∷ human ∷ execution ∷ [])

  unfoldable pub evidence_of : EvidencePack F Q → AgentRunEvidence
  evidence_of pack = record {
    pack_id = pack.pack_id;
    pack_rule_version = pack.rule_version;
    pack_status = pack.status;
    item_count = length pack.items;
    exclusion_count = length pack.exclusions;
    source_text_characters = pack.source_text_characters;
    evidence_ids = map (λ i. i.evidence_id) pack.items;
  }

-- AgentAuthorizationPolicy()
unfoldable pub locked_policy : AgentAuthorizationPolicy
locked_policy = record { policy_version = authorization_policy_version }

-- The reasons of the blocked checks, in order.
unfoldable pub blocking_reasons_of : List AuthorizationCheck → List AuthorizationBlockReason
blocking_reasons_of [] = []
blocking_reasons_of (c ∷ checks) =
    let rest = blocking_reasons_of checks in
    if c.status == AuthorizationCheckStatus.blocked
    then (elim c.blocking_reason [ none ↦ rest | some reason ↦ reason ∷ rest ])
    else rest

unfoldable pub authorization_of : List AuthorizationCheck → AgentAuthorization
authorization_of checks = record {
  passed_check_count = length (keep (λ c. c.status == AuthorizationCheckStatus.passed) checks);
  blocked_check_count = length (keep (λ c. c.status == AuthorizationCheckStatus.blocked) checks);
  blocking_reasons = blocking_reasons_of checks;
  checks = checks;
}

module _ (h : RunHashes) {F Q : Type 0} (pack : EvidencePack F Q) where
  unfoldable pub proposal_of : AgentReleaseObservation → AgentRunProposal
  proposal_of release = record {
    proposal_id =
        codes "proposal-"
        ++ h.proposal_sha256
            (record { evidence = evidence_of pack; policy = locked_policy; release = release });
    proposal_rule_version = proposal_rule_version_constant;
    evidence = evidence_of pack;
    policy = locked_policy;
    release = release;
  }

  unfoldable pub build_agent_run_proposal : AgentReleaseObservation → Run AgentRunProposal
  build_agent_run_proposal release = do
    validate_release_observation release
    ok (proposal_of release)

  -- The manifest of a proposal, an approval and the checks.
  unfoldable pub manifest_of :
      AgentRunProposal → AgentApprovalObservation → List AuthorizationCheck → AgentRunManifest
  manifest_of proposal approval checks = record {
    manifest_id =
        codes "manifest-"
        ++ h.manifest_sha256 (record {
          proposal_id = proposal.proposal_id;
          evidence = proposal.evidence;
          policy = proposal.policy;
          release = proposal.release;
          approval = approval;
          authorization = authorization_of checks;
        });
    schema_version = run_schema_version;
    rule_version = run_rule_version;
    identity_algorithm = identity_algorithm_constant;
    proposal_id = proposal.proposal_id;
    evidence = proposal.evidence;
    policy = proposal.policy;
    release = proposal.release;
    approval = approval;
    authorization = authorization_of checks;
    caveat = run_caveat;
  }

  -- `proposal is not None and proposal != expected_proposal`
  unfoldable pub is_other_proposal : Option AgentRunProposal → AgentRunProposal → Bool
  is_other_proposal none expected = false
  is_other_proposal (some proposal) expected = not (proposal == expected)

  -- The rest of build_agent_run_manifest, once the proposal is settled.
  unfoldable pub manifest_for :
      AgentReleaseObservation → AgentApprovalObservation → AgentRunProposal → Run AgentRunManifest
  manifest_for release approval proposal = do
    validate_active_approval approval proposal.proposal_id
    checks ← authorization_checks pack release approval
    ok (manifest_of proposal approval checks)

  -- The defaults of `approval` and `release` are `no_approval` and `no_release`. A given proposal is
  -- the expected one, or the call raises.
  unfoldable pub build_agent_run_manifest :
      AgentApprovalObservation
      → Option AgentRunProposal
      → AgentReleaseObservation
      → Run AgentRunManifest
  build_agent_run_manifest approval proposal release = do
    validate_release_observation release
    expected ← build_agent_run_proposal release
    raise_if (is_other_proposal proposal expected) proposal_mismatch
    manifest_for release approval expected
