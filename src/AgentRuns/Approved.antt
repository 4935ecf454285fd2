-- ===== src/AgentRuns/Approved.antt =====
-- What a passed human_release check says of the approval.
use atlas_pulse.Prelude.{
  ◌≡◌, true, false, ◌&&◌, Option, none, some, any, ==→eq, text_eq, ok, ◌==◌, Text, arith, refl, sym,
}
use mathlib.Core.Path.{subst}
use atlas_pulse.Polling.Validate.{is_some}
use atlas_pulse.EvidencePack.Types.{EvidencePack}
use atlas_pulse.AgentRuns.Types.{
  AgentApprovalStatus, AuthorizationCheckStatus, AuthorizationCheckId, AgentApprovalObservation,
  AgentReleaseObservation, AgentRunProposal, AgentRunManifest, RunHashes, approval_status_eq,
  check_status_eq, block_reason_eq, check_id_eq,
}
use atlas_pulse.AgentRuns.{validate_active_approval, is_within, names_other}
use atlas_pulse.AgentRuns.Manifest.{authorization_of, manifest_of, build_agent_run_manifest}
use atlas_pulse.AgentRuns.Settled.{decided, settled_checks, build_agent_run_manifest-settled}

-- An active approval that has been validated for a proposal.
validated_active :
    (a : AgentApprovalObservation) (id : Text)
    → a.status == AgentApprovalStatus.active ≡ true
    → validate_active_approval a id ≡ ok tt
    → (names_other a.approved_proposal_id id ≡ false)
      × (is_within a.issued_at a.evaluated_at a.expires_at ≡ true)
      × (is_some a.revocation_id ≡ false)
unfolding validate_active_approval
validated_active a id active valid = ground arith

names_other_lem : (o : Option Text) (id : Text) → names_other o id ≡ false → o ≡ some id
unfolding names_other
names_other_lem none id h = cc
names_other_lem (some other) id h = ground (arith, ==→eq other id)

is_none : (o : Option Text) → is_some o ≡ false → o ≡ none
is_none none h = refl
is_none (some t) h = cc

module _ {F Q : Type 0} (pack : EvidencePack F Q) (release : AgentReleaseObservation)
    (approval : AgentApprovalObservation) where
  human_check_active :
      any
          (λ c.
            c.check_id == AuthorizationCheckId.human_release
            && c.status == AuthorizationCheckStatus.passed)
          (settled_checks pack release approval)
        ≡ true
      → approval.status == AgentApprovalStatus.active ≡ true
  unfolding decided
  human_check_active h = ground arith

module _ (h : RunHashes) {F Q : Type 0} (pack : EvidencePack F Q)
    (approval : AgentApprovalObservation) (proposal : Option AgentRunProposal)
    (release : AgentReleaseObservation) where
  -- Where the human_release check of a returned manifest has passed, the approval was active, it
  -- approved this manifest's own proposal, it was evaluated within its lifetime, and no revocation
  -- stood against it.
  pub human_release-approved :
      (m : AgentRunManifest)
      → build_agent_run_manifest h pack approval proposal release ≡ ok m
      → any
          (λ c.
            c.check_id == AuthorizationCheckId.human_release
            && c.status == AuthorizationCheckStatus.passed)
          m.authorization.checks
        ≡ true
      → (approval.status ≡ AgentApprovalStatus.active)
        × (approval.approved_proposal_id ≡ some m.proposal_id)
        × (is_within approval.issued_at approval.evaluated_at approval.expires_at ≡ true)
        × (approval.revocation_id ≡ none)
  unfolding manifest_of authorization_of decided
  human_release-approved m is passes =
      let (p, same, valid) =
        build_agent_run_manifest-settled h pack approval proposal release m is in
      subst
        (λ m.
          any
              (λ c.
                c.check_id == AuthorizationCheckId.human_release
                && c.status == AuthorizationCheckStatus.passed)
              m.authorization.checks
            ≡ true
          → (approval.status ≡ AgentApprovalStatus.active)
            × (approval.approved_proposal_id ≡ some m.proposal_id)
            × (is_within approval.issued_at approval.evaluated_at approval.expires_at ≡ true)
            × (approval.revocation_id ≡ none))
        (sym same)
        (λ released.
          let active = human_check_active pack release approval released in
          let (named, within, kept) = validated_active approval p.proposal_id active valid in
          (
            ==→eq approval.status AgentApprovalStatus.active active,
            names_other_lem approval.approved_proposal_id p.proposal_id named,
            within,
            is_none approval.revocation_id kept,
          ))
        passes
