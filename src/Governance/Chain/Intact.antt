-- ===== src/Governance/Chain/Intact.antt =====
-- What verify_agent_run_ledger accepts.
use atlas_pulse.Prelude.{
  ℕ, suc, Bool, true, false, ◌&&◌, not, Option, none, some, List, [], ◌∷◌, ◌++◌, length, map, any,
  contains, unique, overlaps, overlaps-cons, overlaps-nil, range_from, ok, text_eq, nat_eq, Text,
  All, arith, refl, ◌≡◌, ◌↔◌, ==→eq, ==_refl, Result-cases, Bool-cases,
}
use atlas_pulse.Prelude.{option_text_eq}
use atlas_pulse.Governance.Types.{Crypto, AgentRunLedgerEntry}
use atlas_pulse.Governance.Ledger.{verify_entry}
use atlas_pulse.Governance.Chain.{
  LedgerFault, Seen, fault_if, fault_of, is_untrusted, see, nothing_seen, entry_faults,
  ledger_faults, has_none, verify_agent_run_ledger,
}

has_none-append : (xs ys : List LedgerFault) → has_none (xs ++ ys) ≡ (has_none xs && has_none ys)
unfolding has_none
has_none-append [] ys = refl
has_none-append (x ∷ xs) ys = refl

has_none-fault_if : (b : Bool) (f : LedgerFault) → has_none (fault_if b f) ≡ not b
unfolding has_none fault_if
has_none-fault_if true f = refl
has_none-fault_if false f = refl

module _ {K : Type 0} (c : Crypto K) (trusted : Option (List Text)) where
  -- An entry that may come next.
  abbrev pub IsNext : ℕ → Seen → AgentRunLedgerEntry → Type 0
  IsNext n seen e =
      (e.payload.sequence ≡ n)
      × (e.payload.previous_entry_id ≡ seen.previous)
      × (contains e.entry_id seen.entries ≡ false)
      × (contains e.payload.artifact_id seen.artifacts ≡ false)
      × (is_untrusted trusted e ≡ false)
      × (verify_entry c e ≡ ok tt)

  abbrev pub IsChain : ℕ → Seen → List AgentRunLedgerEntry → Type 0
  IsChain n seen [] = Unit
  IsChain n seen (e ∷ entries) = IsNext n seen e × IsChain (suc n) (see e seen) entries

  entry_faults-iff-IsNext :
      (n : ℕ) (seen : Seen) (e : AgentRunLedgerEntry)
      → (has_none (entry_faults c trusted n seen e) ≡ true) ↔ IsNext n seen e
  unfolding entry_faults fault_of has_none fault_if
  entry_faults-iff-IsNext n seen e = ground (
    arith,
    Result-cases (verify_entry c e),
    ==→eq e.payload.previous_entry_id seen.previous,
    ==_refl seen.previous,
  )

  pub ledger_faults-iff-IsChain :
      (n : ℕ) (seen : Seen) (entries : List AgentRunLedgerEntry)
      → (has_none (ledger_faults c trusted n seen entries) ≡ true) ↔ IsChain n seen entries
  unfolding ledger_faults has_none
  ledger_faults-iff-IsChain n seen [] = (λ h. tt, λ h. refl)
  ledger_faults-iff-IsChain n seen (e ∷ entries) = ground (
    arith,
    entry_faults-iff-IsNext n seen e,
    has_none-append (entry_faults c trusted n seen e)
        (ledger_faults c trusted (suc n) (see e seen) entries),
    ledger_faults-iff-IsChain (suc n) (see e seen) entries,
  )

  -- The identity of the entry before each entry.
  abbrev pub previous_ids : Option Text → List AgentRunLedgerEntry → List (Option Text)
  previous_ids previous [] = []
  previous_ids previous (e ∷ entries) = previous ∷ previous_ids (some e.entry_id) entries

  abbrev pub entry_ids : List AgentRunLedgerEntry → List Text
  entry_ids entries = map (λ e. e.entry_id) entries

  abbrev pub artifact_ids : List AgentRunLedgerEntry → List Text
  artifact_ids entries = map (λ e. e.payload.artifact_id) entries

  -- An intact ledger: numbered from `n` on, each entry linked to the one before it, no identity
  -- repeated, every key trusted, and every entry verified.
  pub record IsIntact (n : ℕ) (previous : Option Text) (entries : List AgentRunLedgerEntry)
      : Type 0 where
    pub sequences : map (λ e. e.payload.sequence) entries ≡ range_from n (length entries)
    pub links : map (λ e. e.payload.previous_entry_id) entries ≡ previous_ids previous entries
    pub unique_entries : unique (entry_ids entries) ≡ true
    pub unique_artifacts : unique (artifact_ids entries) ≡ true
    pub trusted_keys : any (is_untrusted trusted) entries ≡ false
    pub verified : All (λ e. verify_entry c e ≡ ok tt) entries

  -- The loop, from what it has seen.
  abbrev IsIntactFrom : ℕ → Seen → List AgentRunLedgerEntry → Type 0
  IsIntactFrom n seen entries =
      IsIntact n seen.previous entries
      × (overlaps seen.entries (entry_ids entries) ≡ false)
      × (overlaps seen.artifacts (artifact_ids entries) ≡ false)

  IsChain-iff-IsIntactFrom :
      (n : ℕ) (seen : Seen) (entries : List AgentRunLedgerEntry)
      → IsChain n seen entries ↔ IsIntactFrom n seen entries
  unfolding range_from see
  IsChain-iff-IsIntactFrom n seen [] = ground arith
  IsChain-iff-IsIntactFrom n seen (e ∷ entries) = ground (
    arith,
    IsChain-iff-IsIntactFrom (suc n) (see e seen) entries,
    overlaps-cons e.entry_id seen.entries (entry_ids entries),
    overlaps-cons e.payload.artifact_id seen.artifacts (artifact_ids entries),
    Bool-cases (contains e.entry_id (entry_ids entries)),
    Bool-cases (contains e.payload.artifact_id (artifact_ids entries)),
  )

  pub ledger_faults-iff-IsIntact :
      (entries : List AgentRunLedgerEntry)
      → (has_none (ledger_faults c trusted 1 nothing_seen entries) ≡ true) ↔ IsIntact 1 none entries
  unfolding nothing_seen
  ledger_faults-iff-IsIntact entries = ground (
    arith,
    ledger_faults-iff-IsChain 1 nothing_seen entries,
    IsChain-iff-IsIntactFrom 1 nothing_seen entries,
    overlaps-nil (entry_ids entries),
    overlaps-nil (artifact_ids entries),
  )

-- The verification of a ledger is valid exactly for an intact one: numbered from 1 on, each entry
-- linked to the entry before it and the first to none, no entry or artifact identity repeated, every
-- key among the trusted ones where these are given, and every entry passing its own verification.
pub verify_agent_run_ledger-iff-IsIntact :
    {K : Type 0} (c : Crypto K) (entries : List AgentRunLedgerEntry) (trusted : Option (List Text))
    → ((verify_agent_run_ledger c entries trusted).valid ≡ true) ↔ IsIntact c trusted 1 none entries
unfolding verify_agent_run_ledger
verify_agent_run_ledger-iff-IsIntact c entries trusted =
    ledger_faults-iff-IsIntact c trusted entries

pub verify_agent_run_ledger-iff-IsChain :
    {K : Type 0} (c : Crypto K) (entries : List AgentRunLedgerEntry) (trusted : Option (List Text))
    → ((verify_agent_run_ledger c entries trusted).valid ≡ true)
      ↔ IsChain c trusted 1 nothing_seen entries
unfolding verify_agent_run_ledger
verify_agent_run_ledger-iff-IsChain c entries trusted =
    ledger_faults-iff-IsChain c trusted 1 nothing_seen entries
