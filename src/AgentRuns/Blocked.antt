-- ===== src/AgentRuns/Blocked.antt =====
-- Every manifest is blocked, and accounts for each of its checks.
use atlas_pulse.Prelude.{
  ◌+◌, ◌≡◌, ◌⊎◌, true, Option, some, List, [], ◌∷◌, length, keep, All, contains, text_eq, last?, ok,
  ◌==◌, arith, refl, sym, inl, inr,
}
use mathlib.Core.Path.{subst}
use atlas_pulse.EvidencePack.Types.{EvidencePack}
use atlas_pulse.AgentRuns.Types.{
  AuthorizationCheckStatus, AuthorizationBlockReason, AgentApprovalObservation,
  AgentReleaseObservation, AgentRunProposal, AuthorizationCheck, AgentRunManifest, RunHashes,
  approval_status_eq, check_status_eq, block_reason_eq, check_id_eq,
}
use atlas_pulse.AgentRuns.Manifest.{
  blocking_reasons_of, authorization_of, manifest_of, build_agent_run_manifest,
}
use atlas_pulse.AgentRuns.Settled.{
  decided, IsSettled, settled_checks, settled_checks-IsSettled, build_agent_run_manifest-settled,
}

blocking_reasons_of-length :
    (checks : List AuthorizationCheck)
    → All IsSettled checks
    → length (blocking_reasons_of checks)
      ≡ length (keep (λ c. c.status == AuthorizationCheckStatus.blocked) checks)
unfolding blocking_reasons_of
blocking_reasons_of-length [] settled = refl
blocking_reasons_of-length (c ∷ checks) (settled, rest) =
    ground (arith, blocking_reasons_of-length checks rest)

status-cases :
    (s : AuthorizationCheckStatus)
    → (s ≡ AuthorizationCheckStatus.passed) ⊎ (s ≡ AuthorizationCheckStatus.blocked)
status-cases AuthorizationCheckStatus.passed = inl refl
status-cases AuthorizationCheckStatus.blocked = inr refl

keep-statuses :
    (checks : List AuthorizationCheck)
    → length (keep (λ c. c.status == AuthorizationCheckStatus.passed) checks)
        + length (keep (λ c. c.status == AuthorizationCheckStatus.blocked) checks)
      ≡ length checks
keep-statuses [] = refl
keep-statuses (c ∷ checks) = elim (status-cases c.status) [
  | inl p ↦ ground (arith, keep-statuses checks)
  | inr p ↦ ground (arith, keep-statuses checks)
]

blocks_later :
    (reason : AuthorizationBlockReason) (c : AuthorizationCheck) (checks : List AuthorizationCheck)
    → contains reason (blocking_reasons_of checks) ≡ true
    → contains reason (blocking_reasons_of (c ∷ checks)) ≡ true
unfolding blocking_reasons_of
blocks_later reason c checks h = ground arith

blocking_reasons_of-last? :
    (reason : AuthorizationBlockReason) (checks : List AuthorizationCheck) (c : AuthorizationCheck)
    → last? checks ≡ some c
    → c.status ≡ AuthorizationCheckStatus.blocked
    → c.blocking_reason ≡ some reason
    → contains reason (blocking_reasons_of checks) ≡ true
unfolding blocking_reasons_of
blocking_reasons_of-last? reason [] c h s r = cc
blocking_reasons_of-last? reason (x ∷ []) c h s r = ground arith
blocking_reasons_of-last? reason (x ∷ y ∷ checks) c h s r =
    blocks_later reason x (y ∷ checks) (blocking_reasons_of-last? reason (y ∷ checks) c h s r)

module _ (h : RunHashes) {F Q : Type 0} (pack : EvidencePack F Q)
    (approval : AgentApprovalObservation) (proposal : Option AgentRunProposal)
    (release : AgentReleaseObservation) where
  -- A manifest that build_agent_run_manifest returns always has `execution_disabled` among its
  -- blocking reasons, so that at least one check is blocked; each of its eleven checks is counted
  -- once, as passed or as blocked; and there is one blocking reason per blocked check.
  pub build_agent_run_manifest-blocked :
      (m : AgentRunManifest)
      → build_agent_run_manifest h pack approval proposal release ≡ ok m
      → (contains AuthorizationBlockReason.execution_disabled m.authorization.blocking_reasons
          ≡ true)
        × (m.authorization.passed_check_count + m.authorization.blocked_check_count ≡ 11)
        × (length m.authorization.blocking_reasons ≡ m.authorization.blocked_check_count)
  unfolding manifest_of authorization_of decided
  build_agent_run_manifest-blocked m is =
      let (_, same, _) = build_agent_run_manifest-settled h pack approval proposal release m is in
      subst
        (λ m.
          (contains AuthorizationBlockReason.execution_disabled m.authorization.blocking_reasons
            ≡ true)
          × (m.authorization.passed_check_count + m.authorization.blocked_check_count ≡ 11)
          × (length m.authorization.blocking_reasons ≡ m.authorization.blocked_check_count))
        (sym same)
        (
          blocking_reasons_of-last? AuthorizationBlockReason.execution_disabled
              (settled_checks pack release approval) _ refl refl refl,
          keep-statuses (settled_checks pack release approval),
          blocking_reasons_of-length (settled_checks pack release approval)
              (settled_checks-IsSettled pack release approval),
        )
