-- ===== src/Governance/Resolve.antt =====
-- resolve_agent_approval: the observation that a ledger gives of one approval.
pub mod Observation
pub mod Active
pub mod Lifecycle
use atlas_pulse.Prelude.{
  ℕ, suc, Bool, true, false, ◌&&◌, ◌||◌, not, Option, none, some, List, [], ◌∷◌, ◌++◌, length, map,
  any, keep, contains, Result, ok, raise, ◌>>=◌, ◌>>◌, raise_if, ltb, leb, ◌==◌, text_eq,
  if◌then◌else◌, Text,
}
use atlas_pulse.Prelude.Int.{pos}
use atlas_pulse.Polling.Types.{Datetime}
use atlas_pulse.AgentRuns.Types.{AgentApprovalStatus, AgentApprovalObservation}
use atlas_pulse.Governance.Types.{
  AgentApprovalGrant, AgentApprovalRevocation, AgentGovernanceEvent, granted, revoked, recorded,
  Crypto, AgentRunLedgerEntry,
}
use atlas_pulse.Governance.{Governed, prefixed_hash, utc, approval_prefix, proposal_prefix}
use atlas_pulse.Governance.Chain.{verify_agent_run_ledger}

-- An instant in UTC as a `datetime`.
unfoldable pub at_utc : ℕ → Datetime
at_utc instant = record { instant = instant; offset = some (pos 0) }

-- What the entries say of an approval: its grants with the keys that signed them, and its
-- revocations, in the order of the ledger.
unfoldable pub grants_of : Text → List AgentRunLedgerEntry → List (AgentApprovalGrant × Text)
grants_of id [] = []
grants_of id (e ∷ entries) =
    let rest = grants_of id entries in
    elim e.payload.event [
      | granted g ↦ if g.approval_id == id then (g, e.signature.key_id) ∷ rest else rest
      | revoked r ↦ rest
      | recorded p ↦ rest
    ]

unfoldable pub revocations_of : Text → List AgentRunLedgerEntry → List AgentApprovalRevocation
revocations_of id [] = []
revocations_of id (e ∷ entries) =
    let rest = revocations_of id entries in
    elim e.payload.event [
      | granted g ↦ rest
      | revoked r ↦ if r.payload.approval_id == id then r ∷ rest else rest
      | recorded p ↦ rest
    ]

-- `_observation`, without and with the grant.
unfoldable pub bare_observation : AgentApprovalStatus → Text → ℕ → AgentApprovalObservation
unfolding at_utc
bare_observation status approval_id evaluated_at = record {
  status = status;
  approval_id = some approval_id;
  approved_proposal_id = none;
  source_manifest_id = none;
  approver_id = none;
  signing_key_id = none;
  issued_at = none;
  expires_at = none;
  revocation_id = none;
  evaluated_at = some (at_utc evaluated_at);
}

unfoldable pub grant_observation :
    AgentApprovalStatus
    → Text
    → ℕ
    → AgentApprovalGrant × Text
    → Option Text
    → AgentApprovalObservation
unfolding at_utc
grant_observation status approval_id evaluated_at (g, key_id) revocation_id = record {
  status = status;
  approval_id = some approval_id;
  approved_proposal_id = some g.payload.proposal_id;
  source_manifest_id = some g.payload.source_manifest_id;
  approver_id = some g.payload.approver.actor_id;
  signing_key_id = some key_id;
  issued_at = some (at_utc g.payload.issued_at);
  expires_at = some (at_utc g.payload.expires_at);
  revocation_id = revocation_id;
  evaluated_at = some (at_utc evaluated_at);
}

-- The status within the lifetime, with no revocation in effect.
unfoldable pub lifetime_status : AgentApprovalGrant → ℕ → AgentApprovalStatus
lifetime_status g evaluated_at =
    if ltb evaluated_at g.payload.issued_at
    then AgentApprovalStatus.not_yet_valid
    else if leb g.payload.expires_at evaluated_at
    then AgentApprovalStatus.expired
    else AgentApprovalStatus.active

unfoldable pub is_foreign : AgentApprovalRevocation → AgentApprovalGrant → Bool
is_foreign r g =
    not (r.payload.proposal_id == g.payload.proposal_id)
    || not (r.payload.source_manifest_id == g.payload.source_manifest_id)
    || ltb r.payload.revoked_at g.payload.issued_at

module _ (approval_id proposal_id : Text) (evaluated_at : ℕ) where
  abbrev pub bare : AgentApprovalStatus → AgentApprovalObservation
  bare status = bare_observation status approval_id evaluated_at

  abbrev pub scoped :
      AgentApprovalStatus → AgentApprovalGrant × Text → Option Text → AgentApprovalObservation
  scoped status g revocation = grant_observation status approval_id evaluated_at g revocation

  -- From the one grant, by the revocations.
  unfoldable pub resolve_revocations :
      AgentApprovalGrant × Text → List AgentApprovalRevocation → AgentApprovalObservation
  resolve_revocations g [] = scoped (lifetime_status g.0 evaluated_at) g none
  resolve_revocations g (r ∷ []) =
      if is_foreign r g.0
      then bare AgentApprovalStatus.ledger_invalid
      else if leb r.payload.revoked_at evaluated_at
      then scoped AgentApprovalStatus.revoked g (some r.revocation_id)
      else scoped (lifetime_status g.0 evaluated_at) g none
  resolve_revocations g (r ∷ s ∷ more) = bare AgentApprovalStatus.ledger_invalid

  -- From the grants.
  unfoldable pub resolve_grants :
      List (AgentApprovalGrant × Text) → List AgentApprovalRevocation → AgentApprovalObservation
  resolve_grants [] revocations = bare AgentApprovalStatus.not_found
  resolve_grants (g ∷ []) revocations =
      if not (g.0.payload.proposal_id == proposal_id)
      then scoped AgentApprovalStatus.scope_mismatch g none
      else resolve_revocations g revocations
  resolve_grants (g ∷ h ∷ more) revocations = bare AgentApprovalStatus.ledger_invalid

  -- The rest of resolve_agent_approval, once its arguments are checked.
  unfoldable pub resolve_checked :
      {K : Type 0} → Crypto K → List AgentRunLedgerEntry → List Text → AgentApprovalObservation
  resolve_checked c entries trusted =
      if not (verify_agent_run_ledger c entries none).valid
      then bare AgentApprovalStatus.ledger_invalid
      else if any (λ e. not (contains e.signature.key_id trusted)) entries
      then bare AgentApprovalStatus.untrusted_signer
      else resolve_grants (grants_of approval_id entries) (revocations_of approval_id entries)

unfoldable pub resolve_agent_approval :
    {K : Type 0}
    → Crypto K
    → List AgentRunLedgerEntry
    → Text
    → Text
    → Datetime
    → List Text
    → Governed AgentApprovalObservation
resolve_agent_approval c entries approval_id proposal_id evaluated trusted = do
  prefixed_hash approval_id approval_prefix
  prefixed_hash proposal_id proposal_prefix
  evaluated_at ← utc evaluated
  ok (resolve_checked approval_id proposal_id evaluated_at c entries trusted)
