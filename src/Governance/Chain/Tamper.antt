-- ===== src/Governance/Chain/Tamper.antt =====
-- An intact ledger is fixed by its head.
use atlas_pulse.Prelude.{
  true, Option, none, some, List, [], ◌∷◌, ◌++◌, map, ok, text_eq, nat_eq, Text, All, arith, refl,
  sym, ◌∙◌, ap, ◌≡◌, last?, last?-cons, append-nil, ==→eq,
}
use atlas_pulse.Prelude.{option_text_eq}
use atlas_pulse.Governance.Types.{Crypto, AgentRunLedgerEntry, EntryPayload, event_type_eq}
use atlas_pulse.Governance.{ledger_prefix}
use atlas_pulse.Governance.Ledger.{verify_entry, entry_payload, event_metadata, has_own_metadata}
use atlas_pulse.Governance.Chain.{verify_agent_run_ledger, last_id}
use atlas_pulse.Governance.Chain.Intact.{previous_ids, verify_agent_run_ledger-iff-IsIntact}

has_own_metadata_lem :
    (p : EntryPayload)
    → has_own_metadata p ≡ true
    → entry_payload p.sequence p.previous_entry_id p.event ≡ p
unfolding has_own_metadata entry_payload
has_own_metadata_lem p h = ground (
  arith,
  ==→eq (event_metadata p.event).event_type p.event_type,
  ==→eq (event_metadata p.event).occurred_at p.occurred_at,
  ==→eq (event_metadata p.event).artifact_id p.artifact_id,
  ==→eq (event_metadata p.event).manifest_id p.manifest_id,
  ==→eq (event_metadata p.event).proposal_id p.proposal_id,
)

-- A verified entry has the identity of its content.
verify_entry-identity :
    {K : Type 0} (c : Crypto K) (e : AgentRunLedgerEntry)
    → verify_entry c e ≡ ok tt
    → e.entry_id ≡ ledger_prefix ++ c.entry_sha256 e.payload e.signature
unfolding verify_entry
verify_entry-identity c e h = ground (
  arith,
  has_own_metadata_lem e.payload,
  ==→eq e.entry_id (ledger_prefix ++ c.entry_sha256 e.payload e.signature),
)

append_cancel : (p : Text) {a b : Text} → p ++ a ≡ p ++ b → a ≡ b
append_cancel [] h = h
append_cancel (x ∷ p) h = append_cancel p (cc)

-- A list reversed in front of another.
abbrev reversed_onto :
    List AgentRunLedgerEntry → List AgentRunLedgerEntry → List AgentRunLedgerEntry
reversed_onto acc [] = acc
reversed_onto acc (x ∷ xs) = reversed_onto (x ∷ acc) xs

reversed_onto_twice :
    (acc xs ys : List AgentRunLedgerEntry)
    → reversed_onto ys (reversed_onto acc xs) ≡ reversed_onto (xs ++ ys) acc
reversed_onto_twice acc [] ys = refl
reversed_onto_twice acc (x ∷ xs) ys = reversed_onto_twice (x ∷ acc) xs ys

abbrev head_id : List AgentRunLedgerEntry → Option Text
head_id [] = none
head_id (e ∷ _) = some e.entry_id

All-reversed_onto :
    (P : AgentRunLedgerEntry → Type 0) (acc xs : List AgentRunLedgerEntry)
    → All P acc
    → All P xs
    → All P (reversed_onto acc xs)
All-reversed_onto P acc [] a h = a
All-reversed_onto P acc (x ∷ xs) a (hx, h) = All-reversed_onto P (x ∷ acc) xs (hx, a) h

All-map :
    (P Q : AgentRunLedgerEntry → Type 0) (xs : List AgentRunLedgerEntry)
    → ((x : AgentRunLedgerEntry) → P x → Q x)
    → All P xs
    → All Q xs
All-map P Q [] f h = tt
All-map P Q (x ∷ xs) f (hx, h) = (f x hx, All-map P Q xs f h)

reversed_onto_injective :
    (xs ys : List AgentRunLedgerEntry) → reversed_onto [] xs ≡ reversed_onto [] ys → xs ≡ ys
reversed_onto_injective xs ys h =
    sym (append-nil xs)
    ∙ sym (reversed_onto_twice [] xs [])
    ∙ ap (λ l. reversed_onto [] l) h
    ∙ reversed_onto_twice [] ys []
    ∙ append-nil ys

head_id-reversed_onto :
    (acc xs : List AgentRunLedgerEntry)
    → head_id (reversed_onto acc xs)
      ≡ (elim (last? xs) [ none ↦ head_id acc | some e ↦ some e.entry_id ])
head_id-reversed_onto acc [] = refl
head_id-reversed_onto acc (x ∷ []) = refl
head_id-reversed_onto acc (x ∷ y ∷ xs) =
    ground (arith, last?-cons y xs, head_id-reversed_onto (x ∷ acc) (y ∷ xs))

module _ {K : Type 0} (c : Crypto K) where
  -- No two contents of these ledgers have one hash.
  abbrev pub CollisionFree : List AgentRunLedgerEntry → List AgentRunLedgerEntry → Type 0
  CollisionFree xs ys =
      All
        (λ x.
          All
            (λ y.
              c.entry_sha256 x.payload x.signature ≡ c.entry_sha256 y.payload y.signature
              → (x.payload ≡ y.payload) × (x.signature ≡ y.signature))
            ys)
        xs

  -- Newest entry first, each linked to the one after it.
  abbrev Linked : List AgentRunLedgerEntry → Type 0
  Linked [] = Unit
  Linked (e ∷ entries) =
      (e.payload.previous_entry_id ≡ head_id entries) × (verify_entry c e ≡ ok tt) × Linked entries

  Linked-reversed_onto :
      (acc entries : List AgentRunLedgerEntry) (trusted : Option (List Text))
      → Linked acc
      → map (λ e. e.payload.previous_entry_id) entries
        ≡ previous_ids c trusted (head_id acc) entries
      → All (λ e. verify_entry c e ≡ ok tt) entries
      → Linked (reversed_onto acc entries)
  Linked-reversed_onto acc [] trusted l links v = l
  Linked-reversed_onto acc (e ∷ entries) trusted l links v =
      Linked-reversed_onto (e ∷ acc) entries trusted (ground arith) (cc) v.1

  CollisionFree-tail :
      (xs : List AgentRunLedgerEntry) (y : AgentRunLedgerEntry) (ys : List AgentRunLedgerEntry)
      → CollisionFree xs (y ∷ ys)
      → CollisionFree xs ys
  CollisionFree-tail [] y ys free = tt
  CollisionFree-tail (x ∷ xs) y ys ((_, free), rest) = (free, CollisionFree-tail xs y ys rest)

  Linked-head_id :
      (xs ys : List AgentRunLedgerEntry)
      → Linked xs
      → Linked ys
      → CollisionFree xs ys
      → head_id xs ≡ head_id ys
      → xs ≡ ys
  Linked-head_id [] [] lx ly free h = refl
  Linked-head_id [] (y ∷ ys) lx ly free h = cc
  Linked-head_id (x ∷ xs) [] lx ly free h = cc
  Linked-head_id (x ∷ xs) (y ∷ ys) lx ly free h =
      let same_id : x.entry_id ≡ y.entry_id = cc in
      let same_hash : c.entry_sha256 x.payload x.signature ≡ c.entry_sha256 y.payload y.signature =
        append_cancel ledger_prefix
          (sym (verify_entry-identity c x lx.1) ∙ same_id ∙ verify_entry-identity c y ly.1) in
      let (same_payload, same_signature) = free.0.0 same_hash in
      let same_previous : head_id xs ≡ head_id ys =
        sym lx.0 ∙ ap (λ p. p.previous_entry_id) same_payload ∙ ly.0 in
      let rest = Linked-head_id xs ys lx.2 ly.2 (CollisionFree-tail xs y ys free.1) same_previous in
      ground arith

  CollisionFree-reversed_onto :
      (xs ys : List AgentRunLedgerEntry)
      → CollisionFree xs ys
      → CollisionFree (reversed_onto [] xs) (reversed_onto [] ys)
  CollisionFree-reversed_onto xs ys free =
      All-reversed_onto _ [] xs tt (All-map _ _ xs (λ x h. All-reversed_onto _ [] ys tt h) free)

  -- Two ledgers that both verify and end in the same identity are the same, entry by entry, if no two
  -- of their contents have one hash: a change, an omission or a reordering anywhere shows in the head.
  pub same_head-same_ledger :
      (xs ys : List AgentRunLedgerEntry)
      → (verify_agent_run_ledger c xs none).valid ≡ true
      → (verify_agent_run_ledger c ys none).valid ≡ true
      → CollisionFree xs ys
      → (verify_agent_run_ledger c xs none).head_entry_id
        ≡ (verify_agent_run_ledger c ys none).head_entry_id
      → xs ≡ ys
  unfolding verify_agent_run_ledger last_id
  same_head-same_ledger xs ys vx vy free h =
      let ix = (verify_agent_run_ledger-iff-IsIntact c xs none).0 vx in
      let iy = (verify_agent_run_ledger-iff-IsIntact c ys none).0 vy in
      reversed_onto_injective xs ys (
        Linked-head_id (reversed_onto [] xs) (reversed_onto [] ys)
          (Linked-reversed_onto [] xs none tt ix.links ix.verified)
          (Linked-reversed_onto [] ys none tt iy.links iy.verified)
          (CollisionFree-reversed_onto xs ys free)
          (head_id-reversed_onto [] xs ∙ h ∙ sym (head_id-reversed_onto [] ys)))
