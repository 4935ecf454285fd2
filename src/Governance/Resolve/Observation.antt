-- ===== src/Governance/Resolve/Observation.antt =====
-- What an observation of an approval guarantees.
use atlas_pulse.Prelude.{
  ℕ, true, false, not, Option, none, some, List, [], ◌∷◌, any, contains, ok, ◌==◌, text_eq, Text,
  arith, refl, ◌≡◌, returns_before, if_ind, leb,
}
use atlas_pulse.Polling.Types.{Datetime}
use atlas_pulse.AgentRuns.Types.{
  AgentApprovalStatus, AgentApprovalObservation, approval_status_eq, ApprovalStatus-discrete,
}
use atlas_pulse.AgentRuns.{validate_active_approval, names_other, is_within}
use atlas_pulse.Governance.Types.{
  AgentApprovalGrant, AgentApprovalRevocation, Crypto, AgentRunLedgerEntry,
}
use atlas_pulse.Governance.{prefixed_hash, utc, approval_prefix, proposal_prefix}
use atlas_pulse.Governance.Chain.{verify_agent_run_ledger}
use atlas_pulse.Governance.Resolve.{
  bare_observation, grant_observation, lifetime_status, is_foreign, resolve_revocations,
  resolve_grants, resolve_checked, resolve_agent_approval, grants_of, revocations_of, bare, scoped,
}

module _ (approval_id proposal_id : Text) (t : ℕ) where
  -- An observation that preflight accepts for this proposal.
  abbrev Accepted : AgentApprovalObservation → Type 0
  Accepted o = validate_active_approval o proposal_id ≡ ok tt

  -- What a status other than `active` needs is nothing.
  inactive-Accepted :
      (o : AgentApprovalObservation) → o.status == AgentApprovalStatus.active ≡ false → Accepted o
  unfolding validate_active_approval
  inactive-Accepted o h = ground arith

  bare-Accepted :
      (s : AgentApprovalStatus)
      → s == AgentApprovalStatus.active ≡ false
      → Accepted (bare approval_id proposal_id t s)
  unfolding bare_observation
  bare-Accepted s h = inactive-Accepted (bare approval_id proposal_id t s) h

  scoped-Accepted :
      (s : AgentApprovalStatus) (g : AgentApprovalGrant × Text) (revocation : Option Text)
      → s == AgentApprovalStatus.active ≡ false
      → Accepted (scoped approval_id proposal_id t s g revocation)
  unfolding grant_observation
  scoped-Accepted s g revocation h =
      inactive-Accepted (scoped approval_id proposal_id t s g revocation) h

  lifetime-Accepted :
      (g : AgentApprovalGrant × Text)
      → g.0.payload.proposal_id == proposal_id ≡ true
      → Accepted (scoped approval_id proposal_id t (lifetime_status g.0 t) g none)
  unfolding validate_active_approval grant_observation lifetime_status names_other is_within
  lifetime-Accepted g h = ground arith

  resolve_revocations-Accepted :
      (g : AgentApprovalGrant × Text) (revocations : List AgentApprovalRevocation)
      → g.0.payload.proposal_id == proposal_id ≡ true
      → Accepted (resolve_revocations approval_id proposal_id t g revocations)
  unfolding resolve_revocations ApprovalStatus-discrete
  resolve_revocations-Accepted g [] h = lifetime-Accepted g h
  resolve_revocations-Accepted g (r ∷ []) h =
      if_ind Accepted (is_foreign r g.0)
        (λ foreign. bare-Accepted AgentApprovalStatus.ledger_invalid refl)
        (λ own.
          if_ind Accepted (leb r.payload.revoked_at t)
            (λ past. scoped-Accepted AgentApprovalStatus.revoked g (some r.revocation_id) refl)
            (λ later. lifetime-Accepted g h))
  resolve_revocations-Accepted g (r ∷ s ∷ more) h =
      bare-Accepted AgentApprovalStatus.ledger_invalid refl

  resolve_grants-Accepted :
      (grants : List (AgentApprovalGrant × Text)) (revocations : List AgentApprovalRevocation)
      → Accepted (resolve_grants approval_id proposal_id t grants revocations)
  unfolding resolve_grants ApprovalStatus-discrete
  resolve_grants-Accepted [] revocations = bare-Accepted AgentApprovalStatus.not_found refl
  resolve_grants-Accepted (g ∷ []) revocations =
      if_ind Accepted (not (g.0.payload.proposal_id == proposal_id))
        (λ other. scoped-Accepted AgentApprovalStatus.scope_mismatch g none refl)
        (λ same. resolve_revocations-Accepted g revocations (ground arith))
  resolve_grants-Accepted (g ∷ h ∷ more) revocations =
      bare-Accepted AgentApprovalStatus.ledger_invalid refl

  resolve_checked-Accepted :
      {K : Type 0} (c : Crypto K) (entries : List AgentRunLedgerEntry) (trusted : List Text)
      → Accepted (resolve_checked approval_id proposal_id t c entries trusted)
  unfolding resolve_checked ApprovalStatus-discrete
  resolve_checked-Accepted c entries trusted =
      if_ind Accepted (not (verify_agent_run_ledger c entries none).valid)
        (λ invalid. bare-Accepted AgentApprovalStatus.ledger_invalid refl)
        (λ valid.
          if_ind Accepted (any (λ e. not (contains e.signature.key_id trusted)) entries)
            (λ untrusted. bare-Accepted AgentApprovalStatus.untrusted_signer refl)
            (λ trusts.
              resolve_grants-Accepted (grants_of approval_id entries)
                (revocations_of approval_id entries)))

-- Whatever a ledger holds, an observation that is resolved for a proposal passes the checks that a
-- preflight manifest of the same proposal makes of its approval.
pub resolve_agent_approval-validates :
    {K : Type 0} (c : Crypto K) (entries : List AgentRunLedgerEntry)
    (approval_id proposal_id : Text) (evaluated : Datetime) (trusted : List Text)
    (o : AgentApprovalObservation)
    → resolve_agent_approval c entries approval_id proposal_id evaluated trusted ≡ ok o
    → validate_active_approval o proposal_id ≡ ok tt
unfolding resolve_agent_approval utc
resolve_agent_approval-validates c entries approval_id proposal_id evaluated trusted o h =
    let (_, _, named) = returns_before (prefixed_hash approval_id approval_prefix) _ o h in
    let (_, _, scoped) = returns_before (prefixed_hash proposal_id proposal_prefix) _ o named in
    ground
      (arith, resolve_checked-Accepted approval_id proposal_id evaluated.instant c entries trusted)
