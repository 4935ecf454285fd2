-- ===== src/Governance/Resolve/Lifecycle.antt =====
-- An approval from its grant to its revocation, through the ledger.
use atlas_pulse.Prelude.{
  ℕ, ◌≤◌, ◌<◌, ◌+◌, true, false, not, none, List, [], ◌∷◌, ◌++◌, any, any-append, contains, ok,
  length, ◌==◌, text_eq, Text, arith, refl, sym, ◌≡◌, ==_refl, inl, inr, ltb, returns_before,
  raise_if, raise_if-eq-ok, strip,
}
use mathlib.Core.Path.{subst}
use atlas_pulse.AgentRuns.Types.{AgentApprovalStatus}
use atlas_pulse.Governance.Types.{
  AgentApprovalGrant, AgentApprovalRevocation, AgentGovernanceEvent, RevocationPayload,
  GovernanceActorRole, granted, revoked, Crypto, AgentRunLedgerEntry,
}
use atlas_pulse.Polling.Types.{Datetime}
use atlas_pulse.Governance.{
  build_agent_approval_revocation, utc, new_actor, check_reason, validate_revocation,
  revocation_prefix, revocation_predates_approval,
}
use atlas_pulse.Governance.Ledger.{entry_payload}
use atlas_pulse.Governance.Chain.{verify_agent_run_ledger, append, last_id, is_untrusted}
use atlas_pulse.Governance.Chain.Append.{append_cases, append-valid, build_signed_ledger_entry_lem}
use atlas_pulse.Governance.Resolve.{
  grant_observation, is_foreign, resolve_revocations, resolve_grants, resolve_checked, grants_of,
  revocations_of,
}
use atlas_pulse.Governance.Resolve.Active.{IsGranted, resolve_checked-active}

grants_of-append :
    (id : Text) (xs ys : List AgentRunLedgerEntry)
    → grants_of id (xs ++ ys) ≡ grants_of id xs ++ grants_of id ys
unfolding grants_of
grants_of-append id [] ys = refl
grants_of-append id (x ∷ xs) ys = ground (arith, grants_of-append id xs ys)

revocations_of-append :
    (id : Text) (xs ys : List AgentRunLedgerEntry)
    → revocations_of id (xs ++ ys) ≡ revocations_of id xs ++ revocations_of id ys
unfolding revocations_of
revocations_of-append id [] ys = refl
revocations_of-append id (x ∷ xs) ys = ground (arith, revocations_of-append id xs ys)

grants_of-grant :
    (g : AgentApprovalGrant) (e : AgentRunLedgerEntry)
    → e.payload.event ≡ granted g
    → (grants_of g.approval_id (e ∷ []) ≡ (g, e.signature.key_id) ∷ [])
      × (revocations_of g.approval_id (e ∷ []) ≡ [])
unfolding grants_of revocations_of
grants_of-grant g e h = ground (arith, ==_refl g.approval_id)

grants_of-revocation :
    (id : Text) (r : AgentApprovalRevocation) (e : AgentRunLedgerEntry)
    → e.payload.event ≡ revoked r
    → r.payload.approval_id ≡ id
    → (grants_of id (e ∷ []) ≡ []) × (revocations_of id (e ∷ []) ≡ r ∷ [])
unfolding grants_of revocations_of
grants_of-revocation id r e h same = ground (arith, ==_refl id)

-- The ledger after an event is appended: its entries, and the entry of that event.
module _ {K : Type 0} (c : Crypto K) (key : K) (entries : List AgentRunLedgerEntry)
    (trusted : List Text) (event : AgentGovernanceEvent) (e : AgentRunLedgerEntry)
    (appended : (append c event key entries).0 ≡ ok e) where
  append_lem : ((append c event key entries).1 ≡ entries ++ e ∷ []) × (e.payload.event ≡ event)
  unfolding entry_payload
  append_lem = elim (append_cases c none event key entries) [
    | inl (f, refused) ↦ absurd (ground arith)
    | inr (e', added, built, new) ↦ ground (
      arith,
      build_signed_ledger_entry_lem c event (length entries + 1) (last_id entries) key e' built,
    )
  ]

  -- What resolving reads of the ledger: it is valid, and its keys are trusted.
  resolvable_after :
      (verify_agent_run_ledger c entries none).valid ≡ true
      → any (λ e. not (contains e.signature.key_id trusted)) entries ≡ false
      → any (λ x. x.entry_id == e.entry_id) entries ≡ false
      → contains e.signature.key_id trusted ≡ true
      → ((verify_agent_run_ledger c (append c event key entries).1 none).valid ≡ true)
        × (any (λ e. not (contains e.signature.key_id trusted)) (append c event key entries).1
            ≡ false)
  unfolding is_untrusted
  resolvable_after valid trusts fresh trusted_key = (
    append-valid c none event key entries valid (λ other same.
        let is_e : e ≡ other = cc in
        (subst (λ o. any (λ x. x.entry_id == o.entry_id) entries ≡ false) is_e fresh, refl)),
    rw append_lem.0 (
        ground
          (arith, any-append (λ x. not (contains x.signature.key_id trusted)) entries (e ∷ []))),
  )

-- Once a grant is appended to a valid ledger of trusted keys that holds no event of this approval, the
-- approval resolves as active at every time of its lifetime, for its own proposal.
pub granted-active :
    {K : Type 0} (c : Crypto K) (key : K) (entries : List AgentRunLedgerEntry) (trusted : List Text)
    (g : AgentApprovalGrant) (e : AgentRunLedgerEntry) (t : ℕ)
    → (verify_agent_run_ledger c entries none).valid ≡ true
    → any (λ e. not (contains e.signature.key_id trusted)) entries ≡ false
    → grants_of g.approval_id entries ≡ []
    → revocations_of g.approval_id entries ≡ []
    → (append c (granted g) key entries).0 ≡ ok e
    → any (λ x. x.entry_id == e.entry_id) entries ≡ false
    → contains e.signature.key_id trusted ≡ true
    → g.payload.issued_at ≤ t
    → t < g.payload.expires_at
    → (resolve_checked g.approval_id g.payload.proposal_id t c
        (append c (granted g) key entries).1
        trusted).status
      ≡ AgentApprovalStatus.active
granted-active c key entries trusted g e t valid trusts no_grant no_revocation appended fresh
      trusted_key from to =
    let (added, event) = append_lem c key entries trusted (granted g) e appended in
    let (valid', trusts') =
      resolvable_after c key entries trusted (granted g) e appended valid trusts fresh
        trusted_key in
    (resolve_checked-active g.approval_id g.payload.proposal_id t c
        (append c (granted g) key entries).1 trusted).1
      (
        valid',
        trusts',
        subst
            (λ l.
              IsGranted g.payload.proposal_id t (grants_of g.approval_id l)
                (revocations_of g.approval_id l))
            (sym added)
            (rw
              (
                grants_of-append g.approval_id entries (e ∷ []),
                revocations_of-append g.approval_id entries (e ∷ []),
                no_grant,
                no_revocation,
                (grants_of-grant g e event).0,
                (grants_of-grant g e event).1,
              )
              (refl, from, to, tt)),
      )

validate_revocation_lem :
    {K : Type 0} (c : Crypto K) (r s : AgentApprovalRevocation)
    → validate_revocation c r ≡ ok s
    → s ≡ r
unfolding validate_revocation
validate_revocation_lem c r s h = ground arith

own_revocation :
    (r : AgentApprovalRevocation) (g : AgentApprovalGrant)
    → r.payload.proposal_id ≡ g.payload.proposal_id
    → r.payload.source_manifest_id ≡ g.payload.source_manifest_id
    → ltb r.payload.revoked_at g.payload.issued_at ≡ false
    → is_foreign r g ≡ false
unfolding is_foreign
own_revocation r g same_proposal same_manifest later =
    ground (arith, ==_refl g.payload.proposal_id, ==_refl g.payload.source_manifest_id)

resolve_checked_lem :
    {K : Type 0} (c : Crypto K) (id proposal_id : Text) (t : ℕ) (entries : List AgentRunLedgerEntry)
    (trusted : List Text)
    → (verify_agent_run_ledger c entries none).valid ≡ true
    → any (λ e. not (contains e.signature.key_id trusted)) entries ≡ false
    → resolve_checked id proposal_id t c entries trusted
      ≡ resolve_grants id proposal_id t (grants_of id entries) (revocations_of id entries)
unfolding resolve_checked
resolve_checked_lem c id proposal_id t entries trusted valid trusts = ground arith

resolve_grants-revoked :
    (g : AgentApprovalGrant) (key_id : Text) (r : AgentApprovalRevocation) (t : ℕ)
    → is_foreign r g ≡ false
    → r.payload.revoked_at ≤ t
    → (resolve_grants g.approval_id g.payload.proposal_id t ((g, key_id) ∷ []) (r ∷ [])).status
      ≡ AgentApprovalStatus.revoked
unfolding resolve_grants resolve_revocations grant_observation
resolve_grants-revoked g key_id r t own past = ground (arith, ==_refl g.payload.proposal_id)

utc_lem : (d : Datetime) (t : ℕ) → utc d ≡ ok t → t ≡ d.instant
unfolding utc
utc_lem d t h = ground arith

-- A revocation of a grant is of its scope.
build_agent_approval_revocation-scope :
    {K : Type 0} (c : Crypto K) (g : AgentApprovalGrant) (revoker : Text) (when : Datetime)
    (reason : Text) (r : AgentApprovalRevocation)
    → build_agent_approval_revocation c g revoker when reason ≡ ok r
    → (r.payload.approval_id ≡ g.approval_id)
      × (is_foreign r g ≡ false)
      × (r.payload.revoked_at ≡ when.instant)
unfolding build_agent_approval_revocation
build_agent_approval_revocation-scope c g revoker when reason r h =
    let (t, timed, h1) = returns_before (utc when) _ r h in
    let (_, later, h2) =
      returns_before (raise_if (ltb t g.payload.issued_at) revocation_predates_approval) _ r h1 in
    let (actor, _, h3) =
      returns_before (new_actor revoker GovernanceActorRole.human_release_revoker) _ r h2 in
    let (why, _, h4) = returns_before (check_reason (strip reason)) _ r h3 in
    let payload : RevocationPayload = record {
      approval_id = g.approval_id;
      proposal_id = g.payload.proposal_id;
      source_manifest_id = g.payload.source_manifest_id;
      revoked_by = actor;
      revoked_at = t;
      reason = why;
    } in
    let same =
      validate_revocation_lem c
        (record {
          revocation_id = revocation_prefix ++ c.revocation_sha256 payload;
          payload = payload;
        })
        r h4 in
    subst
      (λ r.
        (r.payload.approval_id ≡ g.approval_id)
        × (is_foreign r g ≡ false)
        × (r.payload.revoked_at ≡ when.instant))
      (sym same)
      (
        refl,
        own_revocation
            (record {
              revocation_id = revocation_prefix ++ c.revocation_sha256 payload;
              payload = payload;
            })
            g refl refl
            (raise_if-eq-ok (ltb t g.payload.issued_at) revocation_predates_approval later),
        utc_lem when t timed,
      )

-- Once a grant is revoked in the ledger, by a revocation built for it, the approval resolves as revoked
-- at every time from the revocation on, where the ledger was valid, its keys trusted, and it held that
-- one grant and no revocation of it before.
pub revoked-status :
    {K : Type 0} (c : Crypto K) (key : K) (entries : List AgentRunLedgerEntry) (trusted : List Text)
    (g : AgentApprovalGrant) (key_id : Text) (revoker reason : Text) (when : Datetime)
    (r : AgentApprovalRevocation) (e : AgentRunLedgerEntry) (t : ℕ)
    → (verify_agent_run_ledger c entries none).valid ≡ true
    → any (λ e. not (contains e.signature.key_id trusted)) entries ≡ false
    → grants_of g.approval_id entries ≡ (g, key_id) ∷ []
    → revocations_of g.approval_id entries ≡ []
    → build_agent_approval_revocation c g revoker when reason ≡ ok r
    → (append c (revoked r) key entries).0 ≡ ok e
    → any (λ x. x.entry_id == e.entry_id) entries ≡ false
    → contains e.signature.key_id trusted ≡ true
    → when.instant ≤ t
    → (resolve_checked g.approval_id g.payload.proposal_id t c
        (append c (revoked r) key entries).1
        trusted).status
      ≡ AgentApprovalStatus.revoked
revoked-status c key entries trusted g key_id revoker reason when r e t valid trusts one_grant
      no_revocation built appended fresh trusted_key from =
    let (added, event) = append_lem c key entries trusted (revoked r) e appended in
    let (valid', trusts') =
      resolvable_after c key entries trusted (revoked r) e appended valid trusts fresh
        trusted_key in
    let (of_grant, own, time) =
      build_agent_approval_revocation-scope c g revoker when reason r built in
    subst
      (λ l.
        (resolve_checked g.approval_id g.payload.proposal_id t c l trusted).status
        ≡ AgentApprovalStatus.revoked)
      (sym added)
      (rw
        (
          resolve_checked_lem c g.approval_id g.payload.proposal_id t (entries ++ e ∷ []) trusted
              (subst (λ l. (verify_agent_run_ledger c l none).valid ≡ true) added valid')
              (subst (λ l. any (λ e. not (contains e.signature.key_id trusted)) l ≡ false) added
                trusts'),
          grants_of-append g.approval_id entries (e ∷ []),
          revocations_of-append g.approval_id entries (e ∷ []),
          one_grant,
          no_revocation,
          (grants_of-revocation g.approval_id r e event of_grant).0,
          (grants_of-revocation g.approval_id r e event of_grant).1,
        )
        (resolve_grants-revoked g key_id r t own (subst (λ n. n ≤ t) (sym time) from)))
