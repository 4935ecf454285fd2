-- ===== src/Governance.antt =====
-- agent_governance.py: signed approval artifacts and a tamper-evident ledger of agent runs.
pub mod Types
pub mod Artifacts
pub mod Ledger
pub mod Chain
pub mod Resolve
use atlas_pulse.Prelude.{
  ℕ, Bool, true, false, ◌&&◌, ◌||◌, not, Option, none, some, List, [], ◌∷◌, ◌++◌, length, all, any,
  Result, ok, raise, ◌>>=◌, ◌>>◌, raise_if, ltb, leb, ◌==◌, text_eq, nat_eq, if◌then◌else◌, Text,
  codes, matches_id, is_space, strip, ◌-◌, ◌+◌,
}
use atlas_pulse.Polling.Types.{Datetime}
use atlas_pulse.Governance.Types.{
  GovernanceActorRole, PolicyVersion, GovernanceActor, ApprovalPayload, AgentApprovalGrant,
  RevocationPayload, AgentApprovalRevocation, PreflightPayload, AgentPreflightRecord,
  AgentGovernanceEvent, granted, revoked, recorded, Crypto, actor_role_eq,
}

pub data GovernanceError : Type 0 where
  not_prefixed_hash naive_timestamp bad_reason bad_actor_id : GovernanceError
  wrong_role expiry_not_after_issue lifetime_too_long identity_mismatch : GovernanceError
  revocation_predates_approval no_blocking_reasons empty_blocking_reason : GovernanceError
  sequence_without_link metadata_mismatch not_base64 key_length key_id_mismatch : GovernanceError
  signature_length bad_signature entry_identity_mismatch duplicate_artifact : GovernanceError
  field_constraint : GovernanceError

abbrev pub Governed : Type 0 → Type 0
Governed A = Result GovernanceError A

-- AGENT_APPROVAL_MAX_TTL, in microseconds
unfoldable pub approval_max_ttl : ℕ
approval_max_ttl = 86400000000

abbrev pub approval_prefix : Text
approval_prefix = codes "approval-"

abbrev pub revocation_prefix : Text
revocation_prefix = codes "revocation-"

abbrev pub preflight_prefix : Text
preflight_prefix = codes "preflight-"

abbrev pub proposal_prefix : Text
proposal_prefix = codes "proposal-"

abbrev pub manifest_prefix : Text
manifest_prefix = codes "manifest-"

abbrev pub ledger_prefix : Text
ledger_prefix = codes "ledger-"

abbrev pub key_prefix : Text
key_prefix = codes "ed25519-"

-- `_prefixed_hash`; also the pattern `^<prefix>[0-9a-f]{64}$` of a field.
unfoldable pub prefixed_hash : Text → Text → Governed Text
prefixed_hash value prefix = do
  raise_if (not (matches_id prefix 64 value)) not_prefixed_hash
  ok value

-- `_utc`
unfoldable pub utc : Datetime → Governed ℕ
utc value = elim value.offset [ none ↦ raise naive_timestamp | some _ ↦ ok value.instant ]

-- `_reason`
unfoldable pub check_reason : Text → Governed Text
check_reason value = do
  raise_if (not (value == strip value) || not (leb 8 (length value) && leb (length value) 1000))
      bad_reason
  ok value

unfoldable pub is_lower : ℕ → Bool
is_lower c = leb b'a' c && leb c b'z'

unfoldable pub is_issuer_character : ℕ → Bool
unfolding is_lower
is_issuer_character c =
    is_lower c || (leb b'0' c && leb c b'9') || c == b'+' || c == b'.' || c == b'-'

-- `[^\s:][^\s]{0,179}`
unfoldable pub is_subject : Text → Bool
is_subject [] = false
is_subject (c ∷ s) =
    not (is_space c) && not (c == b':') && leb (length s) 179 && all (λ c. not (is_space c)) s

-- `[a-z0-9+.-]*:`, and the subject after it. The class has no colon, so the first colon ends it.
unfoldable pub is_issuer_rest : Text → Bool
unfolding is_issuer_character is_subject
is_issuer_rest [] = false
is_issuer_rest (c ∷ s) =
    let rest = is_issuer_rest s in if c == b':' then is_subject s else is_issuer_character c && rest

-- `_ACTOR_ID.fullmatch`
unfoldable pub is_actor_id : Text → Bool
unfolding is_issuer_rest
is_actor_id [] = false
is_actor_id (c ∷ s) = is_lower c && is_issuer_rest s

-- GovernanceActor, with its validator
unfoldable pub new_actor : Text → GovernanceActorRole → Governed GovernanceActor
new_actor actor_id role = do
  raise_if (not (is_actor_id actor_id)) bad_actor_id
  ok (record { actor_id = actor_id; role = role })

unfoldable pub validate_actor : GovernanceActor → Governed GovernanceActor
validate_actor a = new_actor a.actor_id a.role

-- The role that an artifact demands of its actor.
unfoldable pub check_role : GovernanceActor → GovernanceActorRole → Governed (Unit {0})
check_role actor role = raise_if (not (actor.role == role)) wrong_role

module _ {K : Type 0} (c : Crypto K) where
  -- AgentApprovalGrant: the patterns of its fields, then its validators
  unfoldable pub validate_grant : AgentApprovalGrant → Governed AgentApprovalGrant
  validate_grant g = do
    prefixed_hash g.approval_id approval_prefix
    prefixed_hash g.payload.proposal_id proposal_prefix
    prefixed_hash g.payload.source_manifest_id manifest_prefix
    validate_actor g.payload.approver
    check_reason g.payload.reason
    check_role g.payload.approver GovernanceActorRole.human_release_approver
    raise_if (leb g.payload.expires_at g.payload.issued_at) expiry_not_after_issue
    raise_if (ltb approval_max_ttl (g.payload.expires_at - g.payload.issued_at)) lifetime_too_long
    raise_if (not (g.approval_id == approval_prefix ++ c.approval_sha256 g.payload))
        identity_mismatch
    ok g

  -- AgentApprovalRevocation
  unfoldable pub validate_revocation : AgentApprovalRevocation → Governed AgentApprovalRevocation
  validate_revocation r = do
    prefixed_hash r.revocation_id revocation_prefix
    prefixed_hash r.payload.approval_id approval_prefix
    prefixed_hash r.payload.proposal_id proposal_prefix
    prefixed_hash r.payload.source_manifest_id manifest_prefix
    validate_actor r.payload.revoked_by
    check_reason r.payload.reason
    check_role r.payload.revoked_by GovernanceActorRole.human_release_revoker
    raise_if (not (r.revocation_id == revocation_prefix ++ c.revocation_sha256 r.payload))
        identity_mismatch
    ok r

  unfoldable pub is_empty_text : Text → Bool
  is_empty_text t = length t == 0

  -- AgentPreflightRecord
  unfoldable pub validate_record : AgentPreflightRecord → Governed AgentPreflightRecord
  validate_record p = do
    prefixed_hash p.record_id preflight_prefix
    prefixed_hash p.payload.manifest_id manifest_prefix
    prefixed_hash p.payload.proposal_id proposal_prefix
    raise_if (length p.payload.blocking_reasons == 0) no_blocking_reasons
    raise_if (any is_empty_text p.payload.blocking_reasons) empty_blocking_reason
    validate_actor p.payload.recorded_by
    check_role p.payload.recorded_by GovernanceActorRole.preflight_recorder
    raise_if (not (p.record_id == preflight_prefix ++ c.preflight_sha256 p.payload))
        identity_mismatch
    ok p

  unfoldable pub build_agent_approval :
      Text → Text → Text → Datetime → Datetime → Text → PolicyVersion → Governed AgentApprovalGrant
  build_agent_approval proposal_id source_manifest_id approver_id issued expires reason policy = do
    proposal ← prefixed_hash proposal_id proposal_prefix
    manifest ← prefixed_hash source_manifest_id manifest_prefix
    issued_at ← utc issued
    expires_at ← utc expires
    reason ← check_reason (strip reason)
    approver ← new_actor approver_id GovernanceActorRole.human_release_approver
    let payload : ApprovalPayload = record {
      proposal_id = proposal;
      source_manifest_id = manifest;
      policy_version = policy;
      approver = approver;
      issued_at = issued_at;
      expires_at = expires_at;
      reason = reason;
    }
    validate_grant
        (record { approval_id = approval_prefix ++ c.approval_sha256 payload; payload = payload })

  unfoldable pub build_agent_approval_revocation :
      AgentApprovalGrant → Text → Datetime → Text → Governed AgentApprovalRevocation
  build_agent_approval_revocation approval revoker_id revoked_time reason = do
    revoked_at ← utc revoked_time
    raise_if (ltb revoked_at approval.payload.issued_at) revocation_predates_approval
    revoked_by ← new_actor revoker_id GovernanceActorRole.human_release_revoker
    reason ← check_reason (strip reason)
    let payload : RevocationPayload = record {
      approval_id = approval.approval_id;
      proposal_id = approval.payload.proposal_id;
      source_manifest_id = approval.payload.source_manifest_id;
      revoked_by = revoked_by;
      revoked_at = revoked_at;
      reason = reason;
    }
    validate_revocation (record {
      revocation_id = revocation_prefix ++ c.revocation_sha256 payload;
      payload = payload;
    })

  unfoldable pub build_agent_preflight_record :
      Text → Text → List Text → Text → Datetime → Governed AgentPreflightRecord
  build_agent_preflight_record manifest_id proposal_id reasons recorder_id recorded_time = do
    manifest ← prefixed_hash manifest_id manifest_prefix
    proposal ← prefixed_hash proposal_id proposal_prefix
    recorded_by ← new_actor recorder_id GovernanceActorRole.preflight_recorder
    recorded_at ← utc recorded_time
    let payload : PreflightPayload = record {
      manifest_id = manifest;
      proposal_id = proposal;
      blocking_reasons = reasons;
      recorded_by = recorded_by;
      recorded_at = recorded_at;
    }
    validate_record
        (record { record_id = preflight_prefix ++ c.preflight_sha256 payload; payload = payload })

  -- The validator of the event's own class.
  unfoldable pub validate_event : AgentGovernanceEvent → Governed (Unit {0})
  validate_event (granted g) = do validate_grant g; ok tt
  validate_event (revoked r) = do validate_revocation r; ok tt
  validate_event (recorded p) = do validate_record p; ok tt
