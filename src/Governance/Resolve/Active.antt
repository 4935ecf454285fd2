-- ===== src/Governance/Resolve/Active.antt =====
-- When a ledger resolves an approval as active.
use atlas_pulse.Prelude.{
  ℕ, ◌≤◌, ◌<◌, true, false, not, none, List, [], ◌∷◌, any, contains, text_eq, Text, arith, ◌≡◌, ◌↔◌,
  ==→eq, ==_refl, Bool-cases,
}
use atlas_pulse.AgentRuns.Types.{AgentApprovalStatus, AgentApprovalObservation}
use atlas_pulse.Governance.Types.{
  AgentApprovalGrant, AgentApprovalRevocation, Crypto, AgentRunLedgerEntry,
}
use atlas_pulse.Governance.Chain.{verify_agent_run_ledger}
use atlas_pulse.Governance.Resolve.{
  bare_observation, grant_observation, lifetime_status, is_foreign, resolve_revocations,
  resolve_grants, resolve_checked, grants_of, revocations_of,
}

-- No revocation is in effect at `t`: there is none, or one of the same scope that is yet to come.
abbrev pub IsPending : ℕ → AgentApprovalGrant → List AgentApprovalRevocation → Type 0
IsPending t g [] = Unit
IsPending t g (r ∷ []) = (is_foreign r g ≡ false) × (t < r.payload.revoked_at)
IsPending t g (r ∷ s ∷ more) = ⊥

-- One grant, of the proposal, that `t` falls into.
abbrev pub IsGranted :
    Text → ℕ → List (AgentApprovalGrant × Text) → List AgentApprovalRevocation → Type 0
IsGranted proposal_id t [] revocations = ⊥
IsGranted proposal_id t (g ∷ []) revocations =
    (g.0.payload.proposal_id ≡ proposal_id)
    × (g.0.payload.issued_at ≤ t)
    × (t < g.0.payload.expires_at)
    × IsPending t g.0 revocations
IsGranted proposal_id t (g ∷ h ∷ more) revocations = ⊥

module _ (approval_id proposal_id : Text) (t : ℕ) where
  abbrev IsActive : AgentApprovalObservation → Type 0
  IsActive o = o.status ≡ AgentApprovalStatus.active

  lifetime_status-active :
      (g : AgentApprovalGrant)
      → (lifetime_status g t ≡ AgentApprovalStatus.active)
        ↔ ((g.payload.issued_at ≤ t) × (t < g.payload.expires_at))
  unfolding lifetime_status
  lifetime_status-active g = ground arith

  resolve_revocations-IsActive :
      (g : AgentApprovalGrant × Text) (revocations : List AgentApprovalRevocation)
      → IsActive (resolve_revocations approval_id proposal_id t g revocations)
        ↔ ((g.0.payload.issued_at ≤ t) × (t < g.0.payload.expires_at) × IsPending t g.0 revocations)
  unfolding resolve_revocations bare_observation grant_observation
  resolve_revocations-IsActive g [] = ground (arith, lifetime_status-active g.0)
  resolve_revocations-IsActive g (r ∷ []) =
      ground (arith, lifetime_status-active g.0, Bool-cases (is_foreign r g.0))
  resolve_revocations-IsActive g (r ∷ s ∷ more) = ground arith

  resolve_grants-IsActive :
      (grants : List (AgentApprovalGrant × Text)) (revocations : List AgentApprovalRevocation)
      → IsActive (resolve_grants approval_id proposal_id t grants revocations)
        ↔ IsGranted proposal_id t grants revocations
  unfolding resolve_grants bare_observation grant_observation
  resolve_grants-IsActive [] revocations = ground arith
  resolve_grants-IsActive (g ∷ []) revocations = ground (
    arith,
    resolve_revocations-IsActive g revocations,
    ==→eq g.0.payload.proposal_id proposal_id,
    ==_refl proposal_id,
  )
  resolve_grants-IsActive (g ∷ h ∷ more) revocations = ground arith

  pub resolve_checked-active :
      {K : Type 0} (c : Crypto K) (entries : List AgentRunLedgerEntry) (trusted : List Text)
      → ((resolve_checked approval_id proposal_id t c entries trusted).status
          ≡ AgentApprovalStatus.active)
        ↔ (((verify_agent_run_ledger c entries none).valid ≡ true)
            × (any (λ e. not (contains e.signature.key_id trusted)) entries ≡ false)
            × IsGranted proposal_id t
                (grants_of approval_id entries)
                (revocations_of approval_id entries))
  unfolding resolve_checked bare_observation
  resolve_checked-active c entries trusted = ground (
    arith,
    resolve_grants-IsActive (grants_of approval_id entries) (revocations_of approval_id entries),
  )
