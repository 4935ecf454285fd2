-- ===== src/Governance/Chain.antt =====
-- verify_agent_run_ledger, and InMemoryAgentRunLedger with its `append`.
pub mod Intact
pub mod Tamper
pub mod Append
pub mod Accepts
use atlas_pulse.Prelude.{
  ℕ, suc, Bool, true, false, ◌&&◌, ◌||◌, not, Option, none, some, List, [], ◌∷◌, ◌++◌, length, map,
  any, contains, Result, ok, raise, raise_if, ◌==◌, text_eq, nat_eq, if◌then◌else◌, Text, ◌+◌,
  last?,
}
use atlas_pulse.Prelude.{option_text_eq}
use atlas_pulse.Governance.Types.{
  AgentGovernanceEvent, Crypto, AgentRunLedgerEntry, AgentRunLedgerVerification,
}
use atlas_pulse.Governance.{Governed, GovernanceError, duplicate_artifact}
use atlas_pulse.Governance.Ledger.{verify_entry, build_signed_ledger_entry}

-- The messages of the verification, each with the number of the entry.
pub data LedgerFault : Type 0 where
  wrong_sequence : ℕ → ℕ → LedgerFault
  broken_link duplicate_entry duplicate_identity untrusted_key : ℕ → LedgerFault
  invalid_entry : ℕ → GovernanceError → LedgerFault

-- The variables of the loop.
pub record Seen : Type 0 where
  pub previous : Option Text
  pub entries : List Text
  pub artifacts : List Text

unfoldable pub fault_if : Bool → LedgerFault → List LedgerFault
fault_if true f = f ∷ []
fault_if false f = []

-- `trusted is not None and entry.signature.key_id not in trusted`
unfoldable pub is_untrusted : Option (List Text) → AgentRunLedgerEntry → Bool
is_untrusted none e = false
is_untrusted (some trusted) e = not (contains e.signature.key_id trusted)

unfoldable pub fault_of : ℕ → Governed (Unit {0}) → List LedgerFault
fault_of n (ok _) = []
fault_of n (raise e) = invalid_entry n e ∷ []

unfoldable pub last_id : List AgentRunLedgerEntry → Option Text
last_id entries = elim (last? entries) [ none ↦ none | some e ↦ some e.entry_id ]

unfoldable pub see : AgentRunLedgerEntry → Seen → Seen
see e seen = record {
  previous = some e.entry_id;
  entries = e.entry_id ∷ seen.entries;
  artifacts = e.payload.artifact_id ∷ seen.artifacts;
}

unfoldable pub nothing_seen : Seen
nothing_seen = record { previous = none; entries = []; artifacts = [] }

unfoldable pub has_none : List LedgerFault → Bool
has_none [] = true
has_none (f ∷ faults) = false

module _ {K : Type 0} (c : Crypto K) where
  -- The faults of one entry, at the number that is expected of it.
  unfoldable pub entry_faults :
      Option (List Text) → ℕ → Seen → AgentRunLedgerEntry → List LedgerFault
  entry_faults trusted expected seen e =
      fault_if (not (e.payload.sequence == expected)) (wrong_sequence expected e.payload.sequence)
      ++ fault_if (not (e.payload.previous_entry_id == seen.previous)) (broken_link expected)
      ++ fault_if (contains e.entry_id seen.entries) (duplicate_entry expected)
      ++ fault_if (contains e.payload.artifact_id seen.artifacts) (duplicate_identity expected)
      ++ fault_if (is_untrusted trusted e) (untrusted_key expected)
      ++ fault_of expected (verify_entry c e)

  -- The loop.
  unfoldable pub ledger_faults :
      Option (List Text) → ℕ → Seen → List AgentRunLedgerEntry → List LedgerFault
  ledger_faults trusted expected seen [] = []
  ledger_faults trusted expected seen (e ∷ entries) =
      entry_faults trusted expected seen e
      ++ ledger_faults trusted (suc expected) (see e seen) entries

  unfoldable pub verify_agent_run_ledger :
      List AgentRunLedgerEntry → Option (List Text) → AgentRunLedgerVerification LedgerFault
  verify_agent_run_ledger entries trusted =
      let errors = ledger_faults trusted 1 nothing_seen entries in
      record {
        valid = has_none errors;
        entry_count = length entries;
        head_entry_id = last_id entries;
        errors = errors;
      }

  -- InMemoryAgentRunLedger.append, on the entries of the ledger
  unfoldable pub append :
      AgentGovernanceEvent
      → K
      → List AgentRunLedgerEntry
      → Governed AgentRunLedgerEntry × List AgentRunLedgerEntry
  append event key entries =
      elim (build_signed_ledger_entry c event (length entries + 1) (last_id entries) key) [
        | raise e ↦ (raise e, entries)
        | ok entry ↦
            if any (λ x. x.payload.artifact_id == entry.payload.artifact_id) entries
            then (raise duplicate_artifact, entries)
            else (ok entry, entries ++ entry ∷ [])
      ]
