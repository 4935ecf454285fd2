-- ===== src/EvidencePack/Valid.antt =====
-- A built pack passes its own validation.
use atlas_pulse.Prelude.{
  range_from, ℕ, ◌+◌, ◌≤◌, ◌≡◌, true, false, none, List, [], ◌∷◌, ◌++◌, map, length, All, ok, leb,
  text_eq, sorted, arith, refl, sym, ◌∙◌, ap, inl, inr, Text, unique, contains, unique-cons,
  length-append, map-append, append_assoc, append-nil, nat_eq, length-take,
}
use mathlib.Core.Path.{subst}
use atlas_pulse.EvidencePack.Types.{
  CitationStatus, SearchHit, SearchResult, EvidenceExclusionReason, EvidencePackBudget,
  EvidencePackItem, EvidencePackExclusion, Hashes, EvidencePack, EvidencePackRetrieval,
}
use atlas_pulse.EvidencePack.{
  Assembly, exclusion_reason, exclusion_of, item_of, included_length, assemble_hit, assemble,
  pack_of, build_evidence_pack, retrieval_of,
}
use atlas_pulse.EvidencePack.Validate.{
  lacks_url, check_item, check_items, check_ranks, check_within_budget, check_metadata, item_ranks,
  exclusion_ranks, validate_evidence_pack_identity,
}
use atlas_pulse.EvidencePack.Ranks.{
  Below, Increasing, Increasing-snoc, Below-snoc, Below-weaken, Below-mono, Below-append,
  sorted-largest, range_from-snoc, sorted_of_Increasing,
}
use atlas_pulse.EvidencePack.Budget.{
  IsCited, Within, assemble-Within, assemble_hit-cases, next_item, exclusion_reason-none, admitted,
  excluded,
}

module _ {F : Type 0} where
  abbrev pub ranks_in : List (EvidencePackItem F) → List ℕ
  ranks_in = map (λ i. i.retrieval_rank)

  abbrev pub ranks_out : List (EvidencePackExclusion F) → List ℕ
  ranks_out = map (λ e. e.retrieval_rank)

-- The ranks of the items and of the exclusions, after the hits of ranks 1 to `n`.
record Ranked (n : ℕ) (ins outs : List ℕ) : Type 0 where
  ins_below : Below (n + 1) ins
  outs_below : Below (n + 1) outs
  ins_increase : Increasing 0 ins
  outs_increase : Increasing 0 outs
  cover : sorted leb (ins ++ outs) ≡ range_from 1 n
  size : length (ins ++ outs) ≡ n

Ranked-in :
    (n : ℕ) (ins outs : List ℕ) → Ranked n ins outs → Ranked (n + 1) (ins ++ (n + 1) ∷ []) outs
Ranked-in n ins outs r = record {
  ins_below = Below-snoc (n + 1) ins r.ins_below;
  outs_below = Below-weaken (n + 1) outs r.outs_below;
  ins_increase = Increasing-snoc 0 (n + 1) ins (omega arith) r.ins_increase r.ins_below;
  outs_increase = r.outs_increase;
  cover = rw append_assoc (
      rw (sorted-largest (n + 1) ins outs r.ins_below r.outs_below, r.cover, range_from-snoc 1 n)
        (ap (λ k. range_from 1 n ++ k ∷ []) (omega arith)));
  size = omega (
    arith,
    r.size,
    length-append ins outs,
    length-append ins ((n + 1) ∷ []),
    length-append (ins ++ (n + 1) ∷ []) outs,
  );
}

Ranked-out :
    (n : ℕ) (ins outs : List ℕ) → Ranked n ins outs → Ranked (n + 1) ins (outs ++ (n + 1) ∷ [])
Ranked-out n ins outs r = record {
  ins_below = Below-weaken (n + 1) ins r.ins_below;
  outs_below = Below-snoc (n + 1) outs r.outs_below;
  ins_increase = r.ins_increase;
  outs_increase = Increasing-snoc 0 (n + 1) outs (omega arith) r.outs_increase r.outs_below;
  cover =
      ap (sorted leb) (sym (append_assoc ins outs ((n + 1) ∷ [])))
      ∙ sorted-largest (n + 1) (ins ++ outs) []
          (Below-append (n + 1) ins outs r.ins_below r.outs_below) tt
      ∙ rw (append-nil, r.cover, range_from-snoc 1 n)
          (ap (λ k. range_from 1 n ++ k ∷ []) (omega arith));
  size = omega (
    arith,
    r.size,
    length-append ins outs,
    length-append outs ((n + 1) ∷ []),
    length-append ins (outs ++ (n + 1) ∷ []),
  );
}

start-Ranked : Ranked 0 [] []
unfolding sorted range_from
start-Ranked = record {
  ins_below = tt;
  outs_below = tt;
  ins_increase = tt;
  outs_increase = tt;
  cover = refl;
  size = refl;
}

All-snoc {ℓ} :
    {A : Type ℓ} (P : A → Type 0) (l : List A) (a : A) → All P l → P a → All P (l ++ a ∷ [])
All-snoc P [] a hs h = (h, tt)
All-snoc P (b ∷ l) a (hb, hs) h = (hb, All-snoc P l a hs h)

module _ {F Q : Type 0} (h : Hashes F Q) (budget : EvidencePackBudget) where
  included_length-le :
      (used : ℕ) (hit : SearchHit F) → included_length h budget used hit ≤ length hit.document_text
  unfolding included_length
  included_length-le used hit = omega arith

  check_item-next :
      (rank : ℕ) (hit : SearchHit F) (done : Assembly F)
      → hit.citation.status ≡ CitationStatus.traceable
      → lacks_url hit.citation.url ≡ false
      → check_item h (next_item h budget rank hit done) ≡ ok tt
  unfolding check_item item_of
  check_item-next rank hit done e u = ground (
    arith,
    length-take (included_length h budget done.source_text_characters hit) hit.document_text,
    included_length-le done.source_text_characters hit,
  )

  record Sound (n : ℕ) (done : Assembly F) : Type 0 where
    ranked : Ranked n (ranks_in done.items) (ranks_out done.exclusions)
    checked : All (λ i. check_item h i ≡ ok tt) done.items

  Sound-admitted :
      (n : ℕ) (hit : SearchHit F) (done : Assembly F)
      → exclusion_reason budget done hit ≡ none
      → IsCited hit
      → Sound n done
      → Sound (n + 1) (admitted h budget (n + 1) hit done)
  unfolding item_of
  Sound-admitted n hit done e cited s =
      let item = next_item h budget (n + 1) hit done in
      let traceable = (exclusion_reason-none h budget (n + 1) hit done e).0 in
      record {
        ranked =
            rw (map-append (λ (i : EvidencePackItem F). i.retrieval_rank) done.items (item ∷ []))
              (Ranked-in n (ranks_in done.items) (ranks_out done.exclusions) s.ranked);
        checked =
            All-snoc (λ i. check_item h i ≡ ok tt) done.items item s.checked
              (check_item-next (n + 1) hit done traceable (cited traceable));
      }

  Sound-excluded :
      (n : ℕ) (hit : SearchHit F) (done : Assembly F) (reason : EvidenceExclusionReason)
      → Sound n done
      → Sound (n + 1) (excluded h budget (n + 1) hit done reason)
  unfolding exclusion_of
  Sound-excluded n hit done reason s = record {
    ranked =
        rw
          (map-append (λ (e : EvidencePackExclusion F). e.retrieval_rank) done.exclusions
            (exclusion_of h (n + 1) hit reason ∷ []))
          (Ranked-out n (ranks_in done.items) (ranks_out done.exclusions) s.ranked);
    checked = s.checked;
  }

  assemble-Sound :
      (n : ℕ) (hits : List (SearchHit F)) (done : Assembly F)
      → All IsCited hits
      → Sound n done
      → Sound (n + length hits) (assemble h budget (n + 1) hits done)
  unfolding assemble
  assemble-Sound n [] done c s = subst (λ k. Sound k done) (omega arith) s
  assemble-Sound n (hit ∷ hits) done (c, cs) s =
      let next : Sound (n + 1) (assemble_hit h budget (n + 1) hit done) =
        elim (assemble_hit-cases h budget (n + 1) hit done) [
          | inl (e, admits) ↦ rw admits (Sound-admitted n hit done e c s)
          | inr (reason, excludes) ↦ rw excludes (Sound-excluded n hit done reason s)
        ] in
      subst
        (λ k. Sound k (assemble h budget (n + 1 + 1) hits (assemble_hit h budget (n + 1) hit done)))
        (omega arith) (assemble-Sound (n + 1) hits (assemble_hit h budget (n + 1) hit done) cs next)

module _ {F Q : Type 0} (h : Hashes F Q) where
  abbrev ids_of : List (EvidencePackItem F) → List Text
  ids_of = map (λ i. i.evidence_id)

  contains-Below : (m : ℕ) (l : List ℕ) → Below m l → contains m l ≡ false
  contains-Below m [] b = refl
  contains-Below m (x ∷ l) (lt, b) = ground (arith, contains-Below m l b)

  -- The ids that come are none of `ids`.
  abbrev Fresh : List Text → List (EvidencePackItem F) → Type 0
  Fresh ids = All (λ i. contains i.evidence_id ids ≡ false)

  Fresh-cons :
      (id : Text) (ids : List Text) (items : List (EvidencePackItem F))
      → contains id (ids_of items) ≡ false
      → Fresh ids items
      → Fresh (id ∷ ids) items
  Fresh-cons id ids [] c f = tt
  Fresh-cons id ids (i ∷ items) c (fi, f) = (ground arith, Fresh-cons id ids items (ground arith) f)

  check_items-ok :
      (ids : List Text) (ranks : List ℕ) (lo : ℕ) (items : List (EvidencePackItem F))
      → Below lo ranks
      → Increasing lo (ranks_in items)
      → Fresh ids items
      → unique (ids_of items) ≡ true
      → All (λ i. check_item h i ≡ ok tt) items
      → check_items h ids ranks items ≡ ok tt
  unfolding check_items
  check_items-ok ids ranks lo [] b inc f u c = refl
  check_items-ok ids ranks lo (i ∷ items) b (le, inc) (fi, f) u (ci, c) =
      let (absent, distinct) = unique-cons i.evidence_id (ids_of items) u in
      let below : Below (i.retrieval_rank + 1) (i.retrieval_rank ∷ ranks) =
        (omega arith, Below-mono lo (i.retrieval_rank + 1) ranks (omega arith) b) in
      let rest =
        check_items-ok (i.evidence_id ∷ ids) (i.retrieval_rank ∷ ranks) (i.retrieval_rank + 1) items
          below inc (Fresh-cons i.evidence_id ids items absent f) distinct c in
      rw (fi, contains-Below i.retrieval_rank ranks (Below-mono lo i.retrieval_rank ranks le b), ci)
        rest

  Fresh-nil : (items : List (EvidencePackItem F)) → Fresh [] items
  Fresh-nil [] = tt
  Fresh-nil (i ∷ items) = (refl, Fresh-nil items)

  module _ (budget : EvidencePackBudget) (retrieval : EvidencePackRetrieval Q)
      (done : Assembly F) where
    abbrev pack : EvidencePack F Q
    pack = pack_of h budget retrieval done

    check_ranks-ok :
        retrieval.returned_hits ≤ retrieval.candidates_considered
        → Sound h budget retrieval.returned_hits done
        → check_ranks h pack ≡ ok tt
    unfolding check_ranks item_ranks exclusion_ranks pack_of
    check_ranks-ok enough s = ground (
      arith,
      s.ranked.cover,
      s.ranked.size,
      sorted_of_Increasing 0 (ranks_in done.items) s.ranked.ins_increase,
      sorted_of_Increasing 0 (ranks_out done.exclusions) s.ranked.outs_increase,
    )

    check_within_budget-ok : Within budget done → check_within_budget h pack ≡ ok tt
    unfolding check_within_budget pack_of
    check_within_budget-ok w = ground (arith, w.each)

    pack_of-valid :
        retrieval.returned_hits ≤ retrieval.candidates_considered
        → Within budget done
        → Sound h budget retrieval.returned_hits done
        → unique (ids_of done.items) ≡ true
        → validate_evidence_pack_identity h pack ≡ ok tt
    unfolding validate_evidence_pack_identity pack_of check_metadata
    pack_of-valid enough w s u =
        rw
          (
            check_ranks-ok enough s,
            check_within_budget-ok w,
            check_items-ok [] [] 0 done.items tt s.ranked.ins_increase (Fresh-nil done.items) u
                s.checked,
          )
          (ground (arith, w.counted))

  -- A pack built from no more hits than the candidates that were considered, whose traceable
  -- citations carry an address, passes the pack's own identity validation, if no two items of
  -- the pack have one evidence id.
  pub build_evidence_pack-valid :
      (result : SearchResult F) (query : Q) (budget : EvidencePackBudget)
      → length result.hits ≤ result.candidates_considered
      → All IsCited result.hits
      → unique (ids_of (build_evidence_pack h result query budget).items) ≡ true
      → validate_evidence_pack_identity h (build_evidence_pack h result query budget) ≡ ok tt
  unfolding build_evidence_pack
  build_evidence_pack-valid result query budget enough cited distinct =
      let start : Assembly F = record { items = []; exclusions = []; source_text_characters = 0 } in
      let s : Sound h budget (0 + length result.hits) (assemble h budget 1 result.hits start) =
        assemble-Sound h budget 0 result.hits start cited
          (record { ranked = start-Ranked; checked = tt }) in
      pack_of-valid budget (retrieval_of h result query) (assemble h budget 1 result.hits start)
        (unfold retrieval_of in enough)
        (assemble-Within h budget 1 result.hits start
          (record { few = omega arith; total = omega arith; counted = refl; each = refl }))
        (unfold retrieval_of in
          subst (λ k. Sound h budget k (assemble h budget 1 result.hits start)) (omega arith) s)
        (unfold pack_of in distinct)
