-- ===== src/EvidencePack/Validate.antt =====
-- validate_evidence_pack_identity of evidence_packs.py.
use atlas_pulse.Prelude.{
  range_from, ℕ, Bool, true, ◌||◌, not, Option, none, some, List, [], ◌∷◌, ◌++◌, map, length,
  sum_by, any, contains, sorted, Result, ok, ◌>>◌, raise_if, ltb, leb, ◌==◌, nat_eq, text_eq,
  bool_eq, Text,
}
use atlas_pulse.EvidencePack.Types.{
  CitationStatus, EvidencePackItem, EvidencePack, Hashes, citation_status_eq, pack_status_eq,
}
use atlas_pulse.EvidencePack.{
  PackError, metadata_mismatch, status_mismatch, count_mismatch, order_not_preserved,
  retrieval_count_mismatch, ranks_not_covering, candidates_too_few, over_budget, not_unique,
  not_traceable, text_mismatch, document_too_short, truncation_mismatch, evidence_id_mismatch,
  pack_id_mismatch, schema_version_constant, rule_version_constant, identity_algorithm_constant,
  trust_boundary_constant, caveat_constant, status_of, evidence_id, pack_identity,
}

-- `not item.citation.url`
unfoldable pub lacks_url : Option Text → Bool
lacks_url none = true
lacks_url (some url) = length url == 0

module _ {F Q : Type 0} (h : Hashes F Q) where
  unfoldable pub check_metadata : EvidencePack F Q → Bool
  check_metadata pack =
      not (pack.schema_version == schema_version_constant)
      || not (pack.rule_version == rule_version_constant)
      || not (pack.identity_algorithm == identity_algorithm_constant)
      || not (pack.trust_boundary == trust_boundary_constant)
      || not (pack.caveat == caveat_constant)

  -- The checks of one item, on its own.
  unfoldable pub check_item : EvidencePackItem F → Result PackError (Unit {0})
  check_item item = do
    raise_if (not (item.citation.status == CitationStatus.traceable) || lacks_url item.citation.url)
        not_traceable
    raise_if
        (not (item.text_characters == length item.text)
          || not (item.text_sha256 == h.document_hash item.text))
        text_mismatch
    raise_if (ltb item.document_characters item.text_characters) document_too_short
    raise_if (not (item.truncated == ltb item.text_characters item.document_characters))
        truncation_mismatch
    raise_if
        (not (
          item.evidence_id
          == evidence_id h (record {
            stream_id = item.stream_id;
            event_id = item.event_id;
            source = item.source;
            document_sha256 = item.document_sha256;
            text_sha256 = item.text_sha256;
            citation = item.citation;
          })))
        evidence_id_mismatch

  -- The loop over the items, with the ids and ranks seen so far.
  unfoldable pub check_items :
      List Text → List ℕ → List (EvidencePackItem F) → Result PackError (Unit {0})
  check_items ids ranks [] = ok tt
  check_items ids ranks (item ∷ items) = do
    raise_if (contains item.evidence_id ids || contains item.retrieval_rank ranks) not_unique
    check_item item
    check_items (item.evidence_id ∷ ids) (item.retrieval_rank ∷ ranks) items

  unfoldable pub item_ranks : EvidencePack F Q → List ℕ
  item_ranks pack = map (λ i. i.retrieval_rank) pack.items

  unfoldable pub exclusion_ranks : EvidencePack F Q → List ℕ
  exclusion_ranks pack = map (λ e. e.retrieval_rank) pack.exclusions

  -- The checks of the ranks and of the counts.
  unfoldable pub check_ranks : EvidencePack F Q → Result PackError (Unit {0})
  check_ranks pack = do
    let items = item_ranks pack
    let exclusions = exclusion_ranks pack
    raise_if (not (items == sorted leb items) || not (exclusions == sorted leb exclusions))
        order_not_preserved
    raise_if (not (pack.retrieval.returned_hits == length (items ++ exclusions)))
        retrieval_count_mismatch
    raise_if (not (sorted leb (items ++ exclusions) == range_from 1 pack.retrieval.returned_hits))
        ranks_not_covering
    raise_if (ltb pack.retrieval.candidates_considered pack.retrieval.returned_hits)
        candidates_too_few

  unfoldable pub check_within_budget : EvidencePack F Q → Result PackError (Unit {0})
  check_within_budget pack =
      raise_if
        (ltb pack.budget.max_items (length pack.items)
          || ltb pack.budget.max_total_characters pack.source_text_characters
          || any (λ i. ltb pack.budget.max_characters_per_item i.text_characters) pack.items)
        over_budget

  unfoldable pub validate_evidence_pack_identity : EvidencePack F Q → Result PackError (Unit {0})
  validate_evidence_pack_identity pack = do
    raise_if (check_metadata pack) metadata_mismatch
    raise_if (not (pack.status == status_of pack.items)) status_mismatch
    raise_if (not (pack.source_text_characters == sum_by (λ i. i.text_characters) pack.items))
        count_mismatch
    check_ranks pack
    check_within_budget pack
    check_items [] [] pack.items
    raise_if
        (not (
          pack.pack_id
          == pack_identity h (record {
            status = pack.status;
            source_text_characters = pack.source_text_characters;
            budget = pack.budget;
            retrieval = pack.retrieval;
            items = pack.items;
            exclusions = pack.exclusions;
          })))
        pack_id_mismatch
