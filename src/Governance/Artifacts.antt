-- ===== src/Governance/Artifacts.antt =====
-- What a built approval guarantees.
use atlas_pulse.Prelude.{
  ℕ, ◌+◌, ◌≤◌, ◌<◌, ok, ◌++◌, text_eq, Text, arith, sym, ◌≡◌, returns_before, strip,
}
use mathlib.Core.Path.{subst}
use atlas_pulse.Polling.Types.{Datetime}
use atlas_pulse.Governance.Types.{
  GovernanceActorRole, PolicyVersion, ApprovalPayload, AgentApprovalGrant, Crypto, granted,
  actor_role_eq,
}
use atlas_pulse.Governance.{
  prefixed_hash, utc, check_reason, new_actor, validate_grant, validate_event, build_agent_approval,
  approval_prefix, proposal_prefix, manifest_prefix, approval_max_ttl,
}

validate_grant_lem :
    {K : Type 0} (c : Crypto K) (g r : AgentApprovalGrant)
    → validate_grant c g ≡ ok r
    → (r ≡ g)
      × (g.payload.issued_at < g.payload.expires_at)
      × (g.payload.expires_at ≤ g.payload.issued_at + approval_max_ttl)
unfolding validate_grant
validate_grant_lem c g r h = ground arith

validate_event_lem :
    {K : Type 0} (c : Crypto K) (g r : AgentApprovalGrant)
    → validate_grant c g ≡ ok r
    → validate_event c (granted g) ≡ ok tt
unfolding validate_event
validate_event_lem c g r h = ground arith

prefixed_hash_lem : (value prefix r : Text) → prefixed_hash value prefix ≡ ok r → r ≡ value
unfolding prefixed_hash
prefixed_hash_lem value prefix r h = ground arith

utc_lem : (d : Datetime) (t : ℕ) → utc d ≡ ok t → t ≡ d.instant
unfolding utc
utc_lem d t h = ground arith

check_reason_lem : (s r : Text) → check_reason s ≡ ok r → r ≡ s
unfolding check_reason
check_reason_lem s r h = ground arith

-- An approval that build_agent_approval returns validates as an event of the ledger. It is for the
-- given proposal and manifest, with the given times and the reason stripped of surrounding space, and
-- it expires after it is issued, at most 24 hours later.
pub build_agent_approval-bounds :
    {K : Type 0} (c : Crypto K) (proposal manifest approver : Text) (issued expires : Datetime)
    (reason : Text) (policy : PolicyVersion) (g : AgentApprovalGrant)
    → build_agent_approval c proposal manifest approver issued expires reason policy ≡ ok g
    → (validate_event c (granted g) ≡ ok tt)
      × (g.payload.proposal_id ≡ proposal)
      × (g.payload.source_manifest_id ≡ manifest)
      × (g.payload.reason ≡ strip reason)
      × (g.payload.issued_at ≡ issued.instant)
      × (g.payload.expires_at ≡ expires.instant)
      × (issued.instant < expires.instant)
      × (expires.instant ≤ issued.instant + 86400000000)
unfolding build_agent_approval approval_max_ttl
build_agent_approval-bounds c proposal manifest approver issued expires reason policy g h =
    let (p, named, h1) = returns_before (prefixed_hash proposal proposal_prefix) _ g h in
    let (m, sourced, h2) = returns_before (prefixed_hash manifest manifest_prefix) _ g h1 in
    let (from, starts, h3) = returns_before (utc issued) _ g h2 in
    let (to, ends, h4) = returns_before (utc expires) _ g h3 in
    let (why, reasoned, h5) = returns_before (check_reason (strip reason)) _ g h4 in
    let (actor, _, h6) =
      returns_before (new_actor approver GovernanceActorRole.human_release_approver) _ g h5 in
    let payload : ApprovalPayload = record {
      proposal_id = p;
      source_manifest_id = m;
      policy_version = policy;
      approver = actor;
      issued_at = from;
      expires_at = to;
      reason = why;
    } in
    let (same, after, bounded) =
      validate_grant_lem c
        (record { approval_id = approval_prefix ++ c.approval_sha256 payload; payload = payload }) g
        h6 in
    let same_proposal = prefixed_hash_lem proposal proposal_prefix p named in
    let same_manifest = prefixed_hash_lem manifest manifest_prefix m sourced in
    let same_reason = check_reason_lem (strip reason) why reasoned in
    let same_from = utc_lem issued from starts in
    let same_to = utc_lem expires to ends in
    subst
      (λ g.
        (validate_event c (granted g) ≡ ok tt)
        × (g.payload.proposal_id ≡ proposal)
        × (g.payload.source_manifest_id ≡ manifest)
        × (g.payload.reason ≡ strip reason)
        × (g.payload.issued_at ≡ issued.instant)
        × (g.payload.expires_at ≡ expires.instant)
        × (issued.instant < expires.instant)
        × (expires.instant ≤ issued.instant + 86400000000))
      (sym same)
      (
        validate_event_lem c
            (record {
              approval_id = approval_prefix ++ c.approval_sha256 payload;
              payload = payload;
            })
            g h6,
        same_proposal,
        same_manifest,
        same_reason,
        same_from,
        same_to,
        ground arith,
        ground arith,
      )
