-- ===== src/Governance/Chain/Accepts.antt =====
-- A valid ledger takes every new event that is valid.
use atlas_pulse.Prelude.{
  ◌+◌, true, false, none, some, List, [], ◌∷◌, ◌++◌, length, any, All, ok, ◌==◌, text_eq, nat_eq,
  bool_eq, arith, ap, ◌≡◌, last?, last?-cons,
}
use atlas_pulse.Governance.Types.{Crypto, AgentGovernanceEvent, AgentRunLedgerEntry}
use atlas_pulse.Governance.{ledger_prefix, key_prefix, prefixed_hash, validate_event}
use atlas_pulse.Governance.Ledger.{verify_entry, entry_payload, event_metadata, check_link}
use atlas_pulse.Governance.Ledger.Signed.{Laws, build_signed_ledger_entry-returns}
use atlas_pulse.Governance.Chain.{verify_agent_run_ledger, append, last_id}
use atlas_pulse.Governance.Chain.Intact.{verify_agent_run_ledger-iff-IsIntact}

module _ {K : Type 0} (c : Crypto K) where
  last-verified :
      (entries : List AgentRunLedgerEntry) (e : AgentRunLedgerEntry)
      → All (λ e. verify_entry c e ≡ ok tt) entries
      → last? entries ≡ some e
      → verify_entry c e ≡ ok tt
  last-verified [] e v h = cc
  last-verified (x ∷ []) e v h = ground arith
  last-verified (x ∷ y ∷ entries) e v h = last-verified (y ∷ entries) e v.1 h

  verify_entry-prefixed :
      (e : AgentRunLedgerEntry)
      → verify_entry c e ≡ ok tt
      → prefixed_hash e.entry_id ledger_prefix ≡ ok e.entry_id
  unfolding verify_entry prefixed_hash
  verify_entry-prefixed e h = ground arith

  check_link-last_id :
      (entries : List AgentRunLedgerEntry)
      → All (λ e. verify_entry c e ≡ ok tt) entries
      → check_link (length entries + 1) (last_id entries) ≡ ok tt
  unfolding check_link last_id
  check_link-last_id [] v = ground arith
  check_link-last_id (x ∷ entries) v =
      let (e, last) = last?-cons x entries in
      let prefixed = verify_entry-prefixed e (last-verified (x ∷ entries) e v last) in ground arith

  -- With cryptography that keeps its laws, a valid ledger takes every event that validates and whose
  -- artifact it does not hold: `append` returns the entry of the event, signed with the given key, and
  -- adds it at the end.
  pub append-returns :
      Laws c
      → (event : AgentGovernanceEvent) (key : K) (entries : List AgentRunLedgerEntry)
      → (verify_agent_run_ledger c entries none).valid ≡ true
      → validate_event c event ≡ ok tt
      → any (λ x. x.payload.artifact_id == (event_metadata event).artifact_id) entries ≡ false
      → (e : AgentRunLedgerEntry) × (append c event key entries ≡ (ok e, entries ++ e ∷ []))
        × (e.payload.event ≡ event)
        × (e.signature.key_id ≡ key_prefix ++ c.key_sha256 (c.public_bytes key))
  unfolding append entry_payload
  append-returns laws event key entries valid validated new =
      let intact = (verify_agent_run_ledger-iff-IsIntact c entries none).0 valid in
      let (e, built, payload, key_id) =
        build_signed_ledger_entry-returns c laws event (length entries + 1) (last_id entries) key
          validated (omega arith) (check_link-last_id entries intact.verified) in
      (e, ground arith, ap (λ p. p.event) payload, key_id)
