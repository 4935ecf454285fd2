-- ===== src/Governance/Chain/Append.antt =====
-- A ledger stays valid under `append`.
use atlas_pulse.Prelude.{
  ℕ, suc, true, false, Option, none, some, List, [], ◌∷◌, ◌++◌, length, any, contains, ok, raise,
  ◌==◌, ◌||◌, ◌+◌, text_eq, nat_eq, Text, arith, refl, sym, ap, inl, inr, ◌⊎◌, ◌≡◌, last?,
  last?-cons, returns_before, Result-cases, Bool-cases,
}
use mathlib.Core.Path.{subst}
use atlas_pulse.Prelude.{option_text_eq}
use atlas_pulse.Governance.Types.{Crypto, AgentGovernanceEvent, AgentRunLedgerEntry, event_type_eq}
use atlas_pulse.Governance.{GovernanceError, duplicate_artifact, ledger_prefix}
use atlas_pulse.Governance.Ledger.{
  verify_entry, validate_entry, entry_payload, sign, check_link, build_signed_ledger_entry,
}
use atlas_pulse.Governance.Chain.{
  Seen, see, nothing_seen, is_untrusted, verify_agent_run_ledger, last_id, append,
}
use atlas_pulse.Governance.Chain.Intact.{IsNext, IsChain, verify_agent_run_ledger-iff-IsChain}

-- What the loop has seen after all entries.
abbrev see_all : Seen → List AgentRunLedgerEntry → Seen
see_all seen [] = seen
see_all seen (e ∷ entries) = see_all (see e seen) entries

module _ {K : Type 0} (c : Crypto K) where
  validate_entry_lem :
      (e r : AgentRunLedgerEntry) → validate_entry c e ≡ ok r → (r ≡ e) × (verify_entry c e ≡ ok tt)
  unfolding validate_entry
  validate_entry_lem e r h = ground (arith, Result-cases (verify_entry c e))

  -- A built entry carries its sequence, its link and its event, and verifies.
  pub build_signed_ledger_entry_lem :
      (event : AgentGovernanceEvent) (n : ℕ) (previous : Option Text) (key : K)
      (e : AgentRunLedgerEntry)
      → build_signed_ledger_entry c event n previous key ≡ ok e
      → (e.payload ≡ entry_payload n previous event) × (verify_entry c e ≡ ok tt)
  unfolding build_signed_ledger_entry
  build_signed_ledger_entry_lem event n previous key e h =
      let (_, _, signing) = returns_before (check_link n previous) _ e h in
      let (s, _, validated) =
        returns_before (sign c key (entry_payload n previous event)) _ e signing in
      ground (
        arith,
        validate_entry_lem
            (record {
              entry_id = ledger_prefix ++ c.entry_sha256 (entry_payload n previous event) s;
              payload = entry_payload n previous event;
              signature = s;
            })
            e validated,
      )

  module _ (trusted : Option (List Text)) where
    IsChain-snoc :
        (n : ℕ) (seen : Seen) (entries : List AgentRunLedgerEntry) (e : AgentRunLedgerEntry)
        → IsChain c trusted n seen entries
        → IsNext c trusted (length entries + n) (see_all seen entries) e
        → IsChain c trusted n seen (entries ++ e ∷ [])
    IsChain-snoc n seen [] e chain next = (ground arith, tt)
    IsChain-snoc n seen (x ∷ entries) e chain next =
        (chain.0, IsChain-snoc (suc n) (see x seen) entries e chain.1 (ground arith))

contains-see_all :
    (a : Text) (seen : Seen) (entries : List AgentRunLedgerEntry)
    → (contains a (see_all seen entries).entries
        ≡ (contains a seen.entries || any (λ x. x.entry_id == a) entries))
      × (contains a (see_all seen entries).artifacts
          ≡ (contains a seen.artifacts || any (λ x. x.payload.artifact_id == a) entries))
unfolding see
contains-see_all a seen [] = ground arith
contains-see_all a seen (e ∷ entries) = ground (arith, contains-see_all a (see e seen) entries)

previous-see_all :
    (seen : Seen) (entries : List AgentRunLedgerEntry)
    → (see_all seen entries).previous
      ≡ (elim (last? entries) [ none ↦ seen.previous | some e ↦ some e.entry_id ])
unfolding see
previous-see_all seen [] = refl
previous-see_all seen (e ∷ []) = refl
previous-see_all seen (e ∷ f ∷ entries) =
    ground (arith, last?-cons f entries, previous-see_all (see e seen) (f ∷ entries))

module _ {K : Type 0} (c : Crypto K) (trusted : Option (List Text)) where
  -- An entry that is built on an accepted chain continues it.
  IsNext-built :
      (event : AgentGovernanceEvent) (key : K) (entries : List AgentRunLedgerEntry)
      (e : AgentRunLedgerEntry)
      → build_signed_ledger_entry c event (length entries + 1) (last_id entries) key ≡ ok e
      → any (λ x. x.payload.artifact_id == e.payload.artifact_id) entries ≡ false
      → any (λ x. x.entry_id == e.entry_id) entries ≡ false
      → is_untrusted trusted e ≡ false
      → IsNext c trusted (length entries + 1) (see_all nothing_seen entries) e
  unfolding nothing_seen entry_payload last_id
  IsNext-built event key entries e built new_artifact new_id trusts = ground (
    arith,
    build_signed_ledger_entry_lem c event (length entries + 1) (last_id entries) key e built,
    contains-see_all e.entry_id nothing_seen entries,
    contains-see_all e.payload.artifact_id nothing_seen entries,
    previous-see_all nothing_seen entries,
  )

  -- Either an append is refused, or it adds the entry that was built.
  pub append_cases :
      (event : AgentGovernanceEvent) (key : K) (entries : List AgentRunLedgerEntry)
      → ((f : GovernanceError) × (append c event key entries ≡ (raise f, entries)))
        ⊎ ((e : AgentRunLedgerEntry) × (append c event key entries ≡ (ok e, entries ++ e ∷ []))
            × (build_signed_ledger_entry c event (length entries + 1) (last_id entries) key ≡ ok e)
            × (any (λ x. x.payload.artifact_id == e.payload.artifact_id) entries ≡ false))
  unfolding append
  append_cases event key entries =
      elim (Result-cases
        (build_signed_ledger_entry c event (length entries + 1) (last_id entries) key)) [
          | inr (f, refused) ↦ inl (f, ground arith)
          | inl (e, built) ↦
              elim (Bool-cases
                (any (λ x. x.payload.artifact_id == e.payload.artifact_id) entries)) [
                  | inl repeated ↦ inl (duplicate_artifact, ground arith)
                  | inr new ↦ inr (e, ground arith, built, new)
                ]
        ]

  -- A ledger that verifies, also against trusted keys, still verifies after an event is appended with a
  -- trusted key, if the hash of the new entry is not that of an earlier one; an append that is refused
  -- leaves the ledger as it is.
  pub append-valid :
      (event : AgentGovernanceEvent) (key : K) (entries : List AgentRunLedgerEntry)
      → (verify_agent_run_ledger c entries trusted).valid ≡ true
      → ((e : AgentRunLedgerEntry)
          → (append c event key entries).0 ≡ ok e
          → (any (λ x. x.entry_id == e.entry_id) entries ≡ false)
            × (is_untrusted trusted e ≡ false))
      → (verify_agent_run_ledger c (append c event key entries).1 trusted).valid ≡ true
  append-valid event key entries valid fresh = elim (append_cases event key entries) [
    | inl (f, refused) ↦
        subst (λ r. (verify_agent_run_ledger c r.1 trusted).valid ≡ true) (sym refused) valid
    | inr (e, appended, built, new) ↦
        let (new_id, trusts) = fresh e (ap (λ r. r.0) appended) in
        subst (λ r. (verify_agent_run_ledger c r.1 trusted).valid ≡ true) (sym appended)
          ((verify_agent_run_ledger-iff-IsChain c (entries ++ e ∷ []) trusted).1 (
            IsChain-snoc c trusted 1 nothing_seen entries e
              ((verify_agent_run_ledger-iff-IsChain c entries trusted).0 valid)
              (IsNext-built event key entries e built new new_id trusts)))
  ]
