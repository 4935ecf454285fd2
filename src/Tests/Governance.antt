-- ===== src/Tests/Governance.antt =====
-- An approval through the ledger.
use atlas_pulse.Prelude.{
  ℕ, ◌+◌, ◌≤◌, ◌<◌, ◌≡◌, true, false, some, none, List, [], ◌∷◌, ◌++◌, Text, codes, ok, refl, arith,
  length, any, ◌==◌, is_hex, strip_prefix, matches_id, is_space, strip_start, strip, text_eq,
  ℕ_discrete, Text-discrete, Bool-discrete, ==_refl, if◌then◌else◌, nat_eq, ◌↔◌, if_ind, all,
}
use mathlib.Core.Path.{subst}
use atlas_pulse.AgentRuns.Types.{AgentApprovalStatus, AgentApprovalObservation}
use atlas_pulse.AgentRuns.{validate_active_approval}
use atlas_pulse.Prelude.{OptionText-discrete}
use atlas_pulse.Governance.Types.{
  PolicyVersion, GovernanceActorRole, AgentApprovalGrant, AgentApprovalRevocation, granted, revoked,
  Crypto, AgentRunLedgerEntry, AgentRunLedgerSignature, ActorRole-discrete, EventType-discrete,
}
use atlas_pulse.Governance.{
  prefixed_hash, utc, check_reason, is_lower, is_issuer_character, is_subject, is_issuer_rest,
  is_actor_id, new_actor, validate_actor, check_role, approval_max_ttl, validate_grant,
  validate_revocation, validate_event, build_agent_approval, build_agent_approval_revocation,
  key_prefix,
}
use atlas_pulse.Governance.Artifacts.{build_agent_approval-bounds}
use atlas_pulse.Governance.Ledger.{
  event_metadata, entry_payload, has_own_metadata, check_link, decode_base64, key_id_for_public_key,
  sign, verify_signature, verify_entry, validate_entry, build_signed_ledger_entry,
}
use atlas_pulse.Governance.Ledger.Signed.{Laws}
use atlas_pulse.Governance.Chain.{
  fault_if, is_untrusted, fault_of, last_id, see, nothing_seen, entry_faults, ledger_faults,
  has_none, verify_agent_run_ledger, append,
}
use atlas_pulse.Governance.Chain.Intact.{IsIntact, verify_agent_run_ledger-iff-IsIntact}
use atlas_pulse.Governance.Chain.Tamper.{same_head-same_ledger}
use atlas_pulse.Governance.Chain.Append.{append-valid}
use atlas_pulse.Governance.Chain.Accepts.{append-returns}
use atlas_pulse.Governance.Resolve.{
  grants_of, revocations_of, bare_observation, grant_observation, lifetime_status, is_foreign,
  resolve_revocations, resolve_grants, resolve_checked, resolve_agent_approval, at_utc,
}
use atlas_pulse.Governance.Resolve.Observation.{resolve_agent_approval-validates}
use atlas_pulse.Governance.Resolve.Lifecycle.{granted-active, revoked-status}
use atlas_pulse.Tests.Polling.{at}

governance_program : Unit {0}
unfolding is_hex strip_prefix matches_id is_space strip_start strip ℕ_discrete Text-discrete
    Bool-discrete ActorRole-discrete EventType-discrete OptionText-discrete prefixed_hash utc
    check_reason is_lower is_issuer_character is_subject is_issuer_rest is_actor_id new_actor
    validate_actor check_role approval_max_ttl validate_grant validate_revocation validate_event
    build_agent_approval build_agent_approval_revocation event_metadata entry_payload
    has_own_metadata check_link decode_base64 key_id_for_public_key sign verify_signature
    verify_entry validate_entry build_signed_ledger_entry fault_if is_untrusted fault_of last_id see
    nothing_seen entry_faults ledger_faults has_none verify_agent_run_ledger append grants_of
    revocations_of bare_observation grant_observation lifetime_status is_foreign resolve_revocations
    resolve_grants resolve_checked resolve_agent_approval at_utc
governance_program = tt

abbrev digits : Text
digits = codes "00112233445566778899aabbccddeeff00112233445566778899aabbccddeef"

-- Digests that tell the sequences of entries apart, bytes that are their own base64, and signatures
-- that end in the length of what they sign.
abbrev crypto : Crypto ℕ
crypto = record {
  approval_sha256 = λ p. digits ++ codes "a";
  revocation_sha256 = λ p. digits ++ codes "b";
  preflight_sha256 = λ p. digits ++ codes "c";
  entry_bytes = λ p. p.artifact_id;
  entry_sha256 = λ p s. digits ++ (if p.sequence == 1 then b'1' else b'2') ∷ [];
  key_sha256 = λ k. digits ++ codes "e";
  b64encode = λ b. b;
  b64decode = λ b. some b;
  public_bytes = λ k. codes "0123456789abcdef0123456789abcdef";
  sign = λ k m. digits ++ (length m) ∷ [];
  verify = λ p s m. s == digits ++ (length m) ∷ [];
}

crypto-Laws : Laws crypto
unfolding is_hex ℕ_discrete Text-discrete
crypto-Laws = record {
  entry_digest = λ p s. (
    refl,
    if_ind (λ x. all is_hex (digits ++ x ∷ []) ≡ true) (p.sequence == 1) (λ _. refl) (λ _. refl),
  );
  key_digest = λ k. (refl, refl);
  decodes = λ b. refl;
  key_bytes = λ k. refl;
  signature_bytes = λ k m. refl;
  verifies = λ k m. ==_refl (digits ++ (length m) ∷ []);
}

abbrev proposal : Text
proposal = codes "proposal-" ++ digits ++ codes "1"

abbrev source_manifest : Text
source_manifest = codes "manifest-" ++ digits ++ codes "2"

abbrev grant : AgentApprovalGrant
grant = record {
  approval_id = codes "approval-" ++ digits ++ codes "a";
  payload = record {
    proposal_id = proposal;
    source_manifest_id = source_manifest;
    policy_version = PolicyVersion.authorization_v3;
    approver = record {
      actor_id = codes "github:1";
      role = GovernanceActorRole.human_release_approver;
    };
    issued_at = 5;
    expires_at = 9;
    reason = codes "looks fine";
  };
}

grant_built :
    build_agent_approval crypto proposal source_manifest
      (codes "github:1")
      (at 5)
      (at 9)
      (codes " looks fine ")
      PolicyVersion.authorization_v3
    ≡ ok grant
unfolding governance_program
grant_built = refl

abbrev revocation : AgentApprovalRevocation
revocation = record {
  revocation_id = codes "revocation-" ++ digits ++ codes "b";
  payload = record {
    approval_id = grant.approval_id;
    proposal_id = proposal;
    source_manifest_id = source_manifest;
    revoked_by = record {
      actor_id = codes "github:2";
      role = GovernanceActorRole.human_release_revoker;
    };
    revoked_at = 7;
    reason = codes "not any more";
  };
}

revocation_built :
    build_agent_approval_revocation crypto grant (codes "github:2") (at 7) (codes "not any more")
    ≡ ok revocation
unfolding governance_program
revocation_built = refl

abbrev key_id : Text
key_id = key_prefix ++ digits ++ codes "e"

abbrev signature : Text → AgentRunLedgerSignature
signature artifact = record {
  key_id = key_id;
  public_key = codes "0123456789abcdef0123456789abcdef";
  value = digits ++ (length artifact) ∷ [];
}

abbrev grant_entry : AgentRunLedgerEntry
grant_entry = record {
  entry_id = codes "ledger-" ++ digits ++ codes "1";
  payload = entry_payload 1 none (granted grant);
  signature = signature grant.approval_id;
}

abbrev revocation_entry : AgentRunLedgerEntry
revocation_entry = record {
  entry_id = codes "ledger-" ++ digits ++ codes "2";
  payload = entry_payload 2 (some grant_entry.entry_id) (revoked revocation);
  signature = signature revocation.revocation_id;
}

grant_appended : append crypto (granted grant) 0 [] ≡ (ok grant_entry, grant_entry ∷ [])
unfolding governance_program
grant_appended = refl

revocation_appended :
    append crypto (revoked revocation) 0 (grant_entry ∷ [])
    ≡ (ok revocation_entry, grant_entry ∷ revocation_entry ∷ [])
unfolding governance_program
revocation_appended = refl

grant_verifies : (verify_agent_run_ledger crypto (grant_entry ∷ []) none).valid ≡ true
unfolding governance_program
grant_verifies = refl

tampered_fails :
    (verify_agent_run_ledger crypto (record grant_entry { entry_id = codes "x" } ∷ []) none).valid
    ≡ false
unfolding governance_program
tampered_fails = refl

build_agent_approval-bounds_example :
    (validate_event crypto (granted grant) ≡ ok tt)
    × (grant.payload.proposal_id ≡ proposal)
    × (grant.payload.source_manifest_id ≡ source_manifest)
    × (grant.payload.reason ≡ strip (codes " looks fine "))
    × (grant.payload.issued_at ≡ 5)
    × (grant.payload.expires_at ≡ 9)
    × (5 < 9)
    × (9 ≤ 5 + 86400000000)
build_agent_approval-bounds_example =
    build_agent_approval-bounds crypto proposal source_manifest (codes "github:1") (at 5) (at 9)
      (codes " looks fine ") PolicyVersion.authorization_v3 grant grant_built

verify_agent_run_ledger-iff-IsIntact_example :
    ((verify_agent_run_ledger crypto (grant_entry ∷ []) none).valid ≡ true)
    ↔ IsIntact crypto none 1 none (grant_entry ∷ [])
verify_agent_run_ledger-iff-IsIntact_example =
    verify_agent_run_ledger-iff-IsIntact crypto (grant_entry ∷ []) none

same_head-same_ledger_example :
    ◌≡◌ {A = List AgentRunLedgerEntry} (grant_entry ∷ []) (grant_entry ∷ [])
same_head-same_ledger_example =
    same_head-same_ledger crypto (grant_entry ∷ []) (grant_entry ∷ []) grant_verifies grant_verifies
      (((λ h. (refl, refl)), tt), tt) refl

append-valid_example :
    (verify_agent_run_ledger crypto
      (append crypto (revoked revocation) 0 (grant_entry ∷ [])).1
      none).valid
    ≡ true
unfolding governance_program
append-valid_example =
    append-valid crypto none (revoked revocation) 0 (grant_entry ∷ []) grant_verifies (λ e h.
      let same : revocation_entry ≡ e = cc in
      (subst (λ e. any (λ x. x.entry_id == e.entry_id) (grant_entry ∷ []) ≡ false) same refl, refl))

append-returns_example :
    (e : AgentRunLedgerEntry) × (append crypto (granted grant) 0 [] ≡ (ok e, e ∷ []))
    × (e.payload.event ≡ granted grant)
    × (e.signature.key_id ≡ key_id)
unfolding governance_program
append-returns_example = append-returns crypto crypto-Laws (granted grant) 0 [] refl refl refl

abbrev resolved : Text → ℕ → List AgentRunLedgerEntry → AgentApprovalObservation
resolved id t entries = resolve_checked grant.approval_id id t crypto entries (key_id ∷ [])

resolve_agent_approval-validates_example :
    validate_active_approval (resolved proposal 6 (grant_entry ∷ [])) proposal ≡ ok tt
unfolding governance_program
resolve_agent_approval-validates_example =
    resolve_agent_approval-validates crypto (grant_entry ∷ []) grant.approval_id proposal (at 6)
      (key_id ∷ []) (resolved proposal 6 (grant_entry ∷ [])) refl

granted-active_example :
    (resolve_checked grant.approval_id proposal 6 crypto
      (append crypto (granted grant) 0 []).1
      (key_id ∷ [])).status
    ≡ AgentApprovalStatus.active
unfolding governance_program
granted-active_example =
    granted-active crypto 0 [] (key_id ∷ []) grant grant_entry 6 refl refl refl refl refl refl refl
      (omega arith) (omega arith)

revoked-status_example :
    (resolve_checked grant.approval_id proposal 8 crypto
      (append crypto (revoked revocation) 0 (grant_entry ∷ [])).1
      (key_id ∷ [])).status
    ≡ AgentApprovalStatus.revoked
unfolding governance_program
revoked-status_example =
    revoked-status crypto 0 (grant_entry ∷ []) (key_id ∷ []) grant key_id (codes "github:2")
      (codes "not any more") (at 7) revocation revocation_entry 8 refl refl refl refl
      revocation_built refl refl refl (omega arith)
