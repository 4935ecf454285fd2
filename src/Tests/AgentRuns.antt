-- ===== src/Tests/AgentRuns.antt =====
-- Runs of build_agent_run_manifest.
use atlas_pulse.Prelude.{
  ℕ, ◌+◌, ◌≡◌, true, some, none, [], Text, codes, ok, raise, refl, length, contains, ℕ_discrete,
  Text-discrete, Bool-discrete,
}
use atlas_pulse.EvidencePack.Types.{EvidencePack}
use atlas_pulse.EvidencePack.{build_evidence_pack}
use atlas_pulse.AgentRuns.Types.{
  AgentApprovalStatus, AuthorizationBlockReason, AgentApprovalObservation, AgentRunManifest,
  RunHashes, ApprovalStatus-discrete, ReleaseStatus-discrete, CheckStatus-discrete,
  BlockReason-discrete, CheckId-discrete, check_status_eq, check_id_eq, block_reason_eq,
}
use atlas_pulse.AgentRuns.{
  check, human_release_blocking_reason, validate_release_observation, validate_release,
  validate_active_approval, identity_fields, release_flags, is_empty, names_other, is_within,
  no_release,
}
use atlas_pulse.AgentRuns.Manifest.{
  has_traceable_evidence, authorization_checks, blocking_reasons_of, authorization_of, proposal_of,
  manifest_of, manifest_for, build_agent_run_proposal, build_agent_run_manifest, is_other_proposal,
}
use atlas_pulse.AgentRuns.Blocked.{build_agent_run_manifest-blocked}
use atlas_pulse.AgentRuns.Approved.{human_release-approved}
use atlas_pulse.Tests.Polling.{at}
use atlas_pulse.Tests.EvidencePack.{hashes, result, budget, pack_program}

run_program : Unit {0}
unfolding check human_release_blocking_reason validate_release_observation validate_release
    validate_active_approval identity_fields release_flags is_empty names_other is_within no_release
    has_traceable_evidence authorization_checks blocking_reasons_of authorization_of proposal_of
    manifest_of manifest_for build_agent_run_proposal build_agent_run_manifest is_other_proposal
    ApprovalStatus-discrete ReleaseStatus-discrete CheckStatus-discrete BlockReason-discrete
    CheckId-discrete ℕ_discrete Text-discrete Bool-discrete
run_program = tt

abbrev pack : EvidencePack ℕ Text
pack = build_evidence_pack hashes result [] budget

abbrev run_hashes : RunHashes
run_hashes = record { proposal_sha256 = λ p. codes "1"; manifest_sha256 = λ p. codes "2" }

abbrev approval : AgentApprovalObservation
approval = record {
  status = AgentApprovalStatus.active;
  approval_id = some (codes "a");
  approved_proposal_id = some (codes "proposal-1");
  source_manifest_id = some (codes "m");
  approver_id = some (codes "p");
  signing_key_id = some (codes "k");
  issued_at = some (at 5);
  expires_at = some (at 9);
  revocation_id = none;
  evaluated_at = some (at 7);
}

abbrev manifest : AgentRunManifest
manifest = elim (authorization_checks pack no_release approval) [
  | ok checks ↦ manifest_of run_hashes pack (proposal_of run_hashes pack no_release) approval checks
  | raise e ↦ manifest_of run_hashes pack (proposal_of run_hashes pack no_release) approval []
]

manifest_built : build_agent_run_manifest run_hashes pack approval none no_release ≡ ok manifest
unfolding run_program pack_program
manifest_built = refl

manifest_counts :
    (manifest.authorization.passed_check_count ≡ 4)
    × (manifest.authorization.blocked_check_count ≡ 7)
unfolding run_program pack_program
manifest_counts = (refl, refl)

build_agent_run_manifest-blocked_example :
    (contains AuthorizationBlockReason.execution_disabled manifest.authorization.blocking_reasons
      ≡ true)
    × (manifest.authorization.passed_check_count + manifest.authorization.blocked_check_count ≡ 11)
    × (length manifest.authorization.blocking_reasons ≡ manifest.authorization.blocked_check_count)
build_agent_run_manifest-blocked_example =
    build_agent_run_manifest-blocked run_hashes pack approval none no_release manifest
      manifest_built

human_release-approved_example :
    (approval.status ≡ AgentApprovalStatus.active)
    × (approval.approved_proposal_id ≡ some manifest.proposal_id)
    × (is_within approval.issued_at approval.evaluated_at approval.expires_at ≡ true)
    × (approval.revocation_id ≡ none)
unfolding run_program pack_program
human_release-approved_example =
    human_release-approved run_hashes pack approval none no_release manifest manifest_built refl
