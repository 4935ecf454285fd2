-- ===== src/EvidencePack/Budget.antt =====
-- What holds of the lists of build_evidence_pack after each hit.
use atlas_pulse.Prelude.{
  ℕ, suc, ◌+◌, ◌-◌, ◌≤◌, ◌≡◌, ◌⊎◌, false, none, List, [], ◌∷◌, ◌++◌, map, length, sum_by, any, ltb,
  arith, refl, inl, inr, Option-cases, sum_by-append, any-append, length-append, length-take, min,
}
use atlas_pulse.EvidencePack.Types.{
  CitationStatus, SearchHit, EvidenceExclusionReason, EvidencePackBudget, EvidencePackItem,
  EvidencePackExclusion, Hashes,
}
use atlas_pulse.EvidencePack.{
  Assembly, exclusion_reason, exclusion_of, item_of, included_length, assemble_hit, assemble,
}
use atlas_pulse.EvidencePack.Validate.{lacks_url}

module _ {F : Type 0} where
  abbrev pub ranks_in : List (EvidencePackItem F) → List ℕ
  ranks_in = map (λ i. i.retrieval_rank)

  abbrev pub ranks_out : List (EvidencePackExclusion F) → List ℕ
  ranks_out = map (λ e. e.retrieval_rank)

  -- A citation as `validate_event_citation` gives it: if traceable, its url is not empty.
  abbrev pub IsCited : SearchHit F → Type 0
  IsCited hit = hit.citation.status ≡ CitationStatus.traceable → lacks_url hit.citation.url ≡ false

  -- The budget, after any hits.
  pub record Within (budget : EvidencePackBudget) (done : Assembly F) : Type 0 where
    pub few : length done.items ≤ budget.max_items
    pub total : done.source_text_characters ≤ budget.max_total_characters
    pub counted : done.source_text_characters ≡ sum_by (λ i. i.text_characters) done.items
    pub each : any (λ i. ltb budget.max_characters_per_item i.text_characters) done.items ≡ false

module _ {F Q : Type 0} (h : Hashes F Q) (budget : EvidencePackBudget) where
  module _ (rank : ℕ) (hit : SearchHit F) (done : Assembly F) where
    abbrev pub next_item : EvidencePackItem F
    next_item = item_of h rank (included_length h budget done.source_text_characters hit) hit

    abbrev pub admitted : Assembly F
    admitted = record done {
      items = done.items ++ next_item ∷ [];
      source_text_characters = done.source_text_characters + length next_item.text;
    }

    abbrev pub excluded : EvidenceExclusionReason → Assembly F
    excluded reason = record done {
      exclusions = done.exclusions ++ exclusion_of h rank hit reason ∷ [];
    }

    -- A hit becomes the last item, or the last exclusion.
    pub assemble_hit-cases :
        ((exclusion_reason budget done hit ≡ none)
          × (assemble_hit h budget rank hit done ≡ admitted))
        ⊎ ((reason : EvidenceExclusionReason) × (assemble_hit h budget rank hit done
              ≡ excluded reason))
    unfolding assemble_hit
    assemble_hit-cases = elim (Option-cases (exclusion_reason budget done hit)) [
      | inl e ↦ inl (e, ground arith)
      | inr (reason, e) ↦ inr (reason, ground arith)
    ]

    -- What a hit shows when it is admitted.
    pub exclusion_reason-none :
        exclusion_reason budget done hit ≡ none
        → (hit.citation.status ≡ CitationStatus.traceable)
          × (suc (length done.items) ≤ budget.max_items)
    unfolding exclusion_reason
    exclusion_reason-none e = ground arith

    next_item-characters :
        (next_item.text_characters ≡ length next_item.text)
        × (next_item.text_characters ≤ budget.max_characters_per_item)
        × (next_item.text_characters ≤ budget.max_total_characters - done.source_text_characters)
    unfolding item_of included_length
    next_item-characters =
        let e =
          length-take
            (min (length hit.document_text) (
              min budget.max_characters_per_item
                (budget.max_total_characters - done.source_text_characters)))
            hit.document_text in
        (refl, omega arith, omega arith)

    admitted-Within :
        exclusion_reason budget done hit ≡ none → Within budget done → Within budget admitted
    admitted-Within e w =
        let (measured, short, fits) = next_item-characters in
        let (cited, room) = exclusion_reason-none e in
        record {
          few = omega (arith, length-append done.items (next_item ∷ []));
          total = omega arith;
          counted =
              omega (arith, sum_by-append (λ i. i.text_characters) done.items (next_item ∷ []));
          each = ground (
            arith,
            w.each,
            any-append (λ i. ltb budget.max_characters_per_item i.text_characters) done.items
                (next_item ∷ []),
          );
        }

    pub assemble_hit-Within :
        Within budget done → Within budget (assemble_hit h budget rank hit done)
    assemble_hit-Within w = elim assemble_hit-cases [
      | inl (e, admits) ↦ rw admits (admitted-Within e w)
      | inr (reason, excludes) ↦
          rw excludes (record { few = w.few; total = w.total; counted = w.counted; each = w.each })
    ]

  -- However the hits are cited, the items stay within the budget: their number, each text, and the
  -- total, which is counted exactly.
  pub assemble-Within :
      (rank : ℕ) (hits : List (SearchHit F)) (done : Assembly F)
      → Within budget done
      → Within budget (assemble h budget rank hits done)
  unfolding assemble
  assemble-Within rank [] done w = w
  assemble-Within rank (hit ∷ hits) done w =
      assemble-Within (rank + 1) hits (assemble_hit h budget rank hit done)
        (assemble_hit-Within rank hit done w)
