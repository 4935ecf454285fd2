-- ===== src/AgentRuns/Settled.antt =====
-- The checks of a manifest, in full.
use atlas_pulse.Prelude.{
  ◌≡◌, ◌⊎◌, Bool, true, false, Option, none, some, List, [], ◌∷◌, All, text_eq, raise_if, ok, ◌==◌,
  if◌then◌else◌, Text, codes, refl, sym, ◌∙◌, inl, inr, returns_before,
}
use mathlib.Core.Path.{subst}
use atlas_pulse.Polling.Validate.{is_some}
use atlas_pulse.EvidencePack.Types.{EvidencePack}
use atlas_pulse.AgentRuns.Types.{
  AgentApprovalStatus, AuthorizationCheckStatus, AuthorizationCheckId, AuthorizationBlockReason,
  AgentApprovalObservation, AgentReleaseObservation, AgentRunProposal, AuthorizationCheck,
  AgentRunManifest, RunHashes, approval_status_eq, check_status_eq, block_reason_eq, check_id_eq,
}
use atlas_pulse.AgentRuns.{
  Run, proposal_mismatch, check, human_release_blocking_reason, pack_status_name,
  release_status_name, approval_status_name, validate_release_observation, validate_active_approval,
}
use atlas_pulse.AgentRuns.Manifest.{
  or_text, has_traceable_evidence, authorization_checks, manifest_of, manifest_for,
  build_agent_run_proposal, build_agent_run_manifest, is_other_proposal,
}

-- A check with a reason to give.
unfoldable pub decided :
    AuthorizationCheckId → Bool → Text → Text → AuthorizationBlockReason → AuthorizationCheck
decided id passed observed required reason = record {
  check_id = id;
  status = if passed then AuthorizationCheckStatus.passed else AuthorizationCheckStatus.blocked;
  observed = observed;
  required = required;
  blocking_reason = if passed then none else some reason;
}

check-decided :
    (id : AuthorizationCheckId) (b : Bool) (o r : Text) (reason : AuthorizationBlockReason)
    → check id b o r (some reason) ≡ ok (decided id b o r reason)
unfolding check decided
check-decided id true o r reason = refl
check-decided id false o r reason = refl

-- A check that carries a reason exactly if it is blocked.
abbrev pub IsSettled : AuthorizationCheck → Type 0
IsSettled c =
    (c.blocking_reason ≡ none) × (c.status ≡ AuthorizationCheckStatus.passed)
    ⊎ (is_some c.blocking_reason ≡ true) × (c.status ≡ AuthorizationCheckStatus.blocked)

decided-status :
    (id : AuthorizationCheckId) (b : Bool) (o r : Text) (reason : AuthorizationBlockReason)
    → IsSettled (decided id b o r reason)
unfolding decided
decided-status id true o r reason = inl (refl, refl)
decided-status id false o r reason = inr (refl, refl)

-- A check carries a reason exactly if it is blocked.
-- The eleven checks.
module _ {F Q : Type 0} (pack : EvidencePack F Q) (release : AgentReleaseObservation)
    (approval : AgentApprovalObservation) where
  abbrev pub settled_checks : List AuthorizationCheck
  settled_checks =
      let status = release_status_name release.status in
      decided AuthorizationCheckId.evidence_pack_integrity true
        (codes "content_addressed_bounded_pack") (codes "content_addressed_bounded_pack")
        AuthorizationBlockReason.no_traceable_evidence
      ∷ decided AuthorizationCheckId.traceable_evidence (has_traceable_evidence pack)
          (pack_status_name pack.status) (codes "traceable_evidence_available")
          AuthorizationBlockReason.no_traceable_evidence
      ∷ decided AuthorizationCheckId.capability_scope true
          (codes "read_only_no_network_no_tools_no_side_effects")
          (codes "read_only_no_network_no_tools_no_side_effects")
          AuthorizationBlockReason.no_traceable_evidence
      ∷ decided AuthorizationCheckId.model_adapter release.model_adapter_evaluated
          (or_text release.agent_candidate_id status) (codes "evaluated_model_adapter")
          AuthorizationBlockReason.model_adapter_not_selected
      ∷ decided AuthorizationCheckId.live_relationship_benchmark
          release.relationship_benchmark_passed (or_text release.relationship_report_id status)
          (codes "adjudicated_pass") AuthorizationBlockReason.live_relationship_benchmark_incomplete
      ∷ decided AuthorizationCheckId.grounded_answer_evaluation
          release.grounded_answer_evaluation_passed (or_text release.assessment_id status)
          (codes "evaluated_pass") AuthorizationBlockReason.grounded_answer_evaluation_missing
      ∷ decided AuthorizationCheckId.agent_trajectory_evaluation
          release.agent_trajectory_evaluation_passed (or_text release.assessment_id status)
          (codes "observable_trajectory_pass")
          AuthorizationBlockReason.agent_trajectory_evaluation_missing
      ∷ decided AuthorizationCheckId.trajectory_drift_monitoring
          release.trajectory_drift_monitoring_passed (or_text release.assessment_id status)
          (codes "complete_stable_drift_chain")
          AuthorizationBlockReason.trajectory_drift_evidence_missing
      ∷ decided AuthorizationCheckId.release_threshold_policy
          release.release_threshold_policy_passed status (codes "eligible_for_human_review")
          AuthorizationBlockReason.release_thresholds_not_met
      ∷ decided AuthorizationCheckId.human_release (approval.status == AgentApprovalStatus.active)
          (approval_status_name approval.status) (codes "active_trusted_unrevoked_approval")
          (human_release_blocking_reason approval.status)
      ∷ decided AuthorizationCheckId.execution_release false (codes "disabled") (codes "enabled")
          AuthorizationBlockReason.execution_disabled
      ∷ []

  authorization_checks-settled : authorization_checks pack release approval ≡ ok settled_checks
  unfolding authorization_checks check decided
  authorization_checks-settled = simp (check-decided)

  pub settled_checks-IsSettled : All IsSettled settled_checks
  settled_checks-IsSettled = (
    decided-status _ _ _ _ _,
    (
      decided-status _ _ _ _ _,
      (
        decided-status _ _ _ _ _,
        (
          decided-status _ _ _ _ _,
          (
            decided-status _ _ _ _ _,
            (
              decided-status _ _ _ _ _,
              (
                decided-status _ _ _ _ _,
                (
                  decided-status _ _ _ _ _,
                  (
                    decided-status _ _ _ _ _,
                    (decided-status _ _ _ _ _, (decided-status _ _ _ _ _, tt)),
                  ),
                ),
              ),
            ),
          ),
        ),
      ),
    ),
  )

ok_injective : {A : Type 0} {a b : A} → ◌≡◌ {A = Run A} (ok a) (ok b) → a ≡ b
ok_injective h = cc

module _ (h : RunHashes) {F Q : Type 0} (pack : EvidencePack F Q)
    (approval : AgentApprovalObservation) (proposal : Option AgentRunProposal)
    (release : AgentReleaseObservation) where
  manifest_for-settled :
      (p : AgentRunProposal) (m : AgentRunManifest)
      → manifest_for h pack release approval p ≡ ok m
      → (m ≡ manifest_of h pack p approval (settled_checks pack release approval))
        × (validate_active_approval approval p.proposal_id ≡ ok tt)
  unfolding manifest_for
  manifest_for-settled p m is =
      let (_, valid, rest) =
        returns_before (validate_active_approval approval p.proposal_id) _ m is in
      let (checks, listed, built) =
        returns_before (authorization_checks pack release approval) _ m rest in
      let same : ok (settled_checks pack release approval) ≡ ok checks =
        sym (authorization_checks-settled pack release approval) ∙ listed in
      (
        subst (λ c. m ≡ manifest_of h pack p approval c) (sym (ok_injective same))
            (sym (ok_injective built)),
        valid,
      )

  pub build_agent_run_manifest-settled :
      (m : AgentRunManifest)
      → build_agent_run_manifest h pack approval proposal release ≡ ok m
      → (p : AgentRunProposal) × (m
          ≡ manifest_of h pack p approval (settled_checks pack release approval))
        × (validate_active_approval approval p.proposal_id ≡ ok tt)
  unfolding build_agent_run_manifest
  build_agent_run_manifest-settled m is =
      let (_, _, built) = returns_before (validate_release_observation release) _ m is in
      let (p, _, checked) = returns_before (build_agent_run_proposal h pack release) _ m built in
      let (_, _, rest) =
        returns_before (raise_if (is_other_proposal h pack proposal p) proposal_mismatch) _ m
          checked in
      let (same, valid) = manifest_for-settled p m rest in (p, same, valid)
