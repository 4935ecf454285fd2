-- ===== src/Tests/EvidencePack.antt =====
-- Runs of build_evidence_pack.
use atlas_pulse.Prelude.{
  ℕ, ◌≡◌, false, some, none, [], ◌∷◌, Text, codes, ok, refl, arith, map, ℕ_discrete, Text-discrete,
  Bool-discrete,
}
use atlas_pulse.EvidencePack.Types.{
  CitationStatus, CitationValidation, RankingMode, SearchHit, SearchResult, EvidencePackBudget,
  Hashes, CitationStatus-discrete, EvidencePackStatus-discrete,
}
use atlas_pulse.EvidencePack.{
  exclusion_reason, evidence_id, pack_identity, exclusion_of, included_length, item_of,
  assemble_hit, assemble, status_of, pack_of, retrieval_of, build_evidence_pack,
}
use atlas_pulse.EvidencePack.Validate.{validate_evidence_pack_identity, lacks_url}
use atlas_pulse.EvidencePack.Valid.{build_evidence_pack-valid}
use atlas_pulse.Tests.Polling.{at}

unfoldable pub pack_program : Unit {0}
unfolding exclusion_reason evidence_id pack_identity exclusion_of included_length item_of
    assemble_hit assemble status_of pack_of retrieval_of build_evidence_pack lacks_url
    CitationStatus-discrete EvidencePackStatus-discrete ℕ_discrete Text-discrete Bool-discrete
pack_program = tt

-- Floats by numbers, queries by texts, and hashes that keep the texts apart.
abbrev pub hashes : Hashes ℕ Text
hashes = record {
  document_hash = λ text. text;
  evidence_sha256 = λ p. p.event_id;
  pack_sha256 = λ p. codes "0";
}

abbrev cited : CitationValidation
cited = record {
  status = CitationStatus.traceable;
  url = some (codes "https://example.org/a");
  source_field = some (codes "url");
  reasons = [];
}

abbrev uncited : CitationValidation
uncited = record { status = CitationStatus.missing; url = none; source_field = none; reasons = [] }

abbrev hit : Text → CitationValidation → Text → SearchHit ℕ
hit id citation text = record {
  message = record {
    stream_id = codes "0-1";
    event = record {
      event_id = id;
      event_type = codes "quake";
      source = codes "usgs";
      occurred_at = at 5;
      ingested_at = at 6;
      schema_version = codes "1";
    };
  };
  document_text = text;
  distance_km = none;
  ranking = record {
    lexical_rank = some 1;
    lexical_score = some 3;
    dense_rank = none;
    dense_similarity = none;
    rrf_score = 1;
    exact_phrase_match = false;
    token_coverage = 1;
    rerank_score = 1;
  };
  citation = citation;
}

abbrev pub result : SearchResult ℕ
result = record {
  hits =
      hit (codes "a") cited (codes "a long text")
      ∷ hit (codes "b") uncited (codes "b")
      ∷ hit (codes "c") cited (codes "another text")
      ∷ hit (codes "d") cited (codes "left out")
      ∷ [];
  candidates_considered = 9;
  embedding_model = codes "bge";
  ranking_mode = RankingMode.hybrid;
  ranking_rule = codes "rule";
  caveat = codes "caveat";
}

abbrev pub budget : EvidencePackBudget
budget = record { max_items = 2; max_characters_per_item = 6; max_total_characters = 10 }

ranks_of_items :
    map (λ i. i.retrieval_rank) (build_evidence_pack hashes result [] budget).items ≡ 1 ∷ 3 ∷ []
unfolding pack_program
ranks_of_items = refl

texts_of_items :
    map (λ i. i.text) (build_evidence_pack hashes result [] budget).items
    ≡ codes "a long" ∷ codes "anot" ∷ []
unfolding pack_program
texts_of_items = refl

build_evidence_pack-valid_example :
    validate_evidence_pack_identity hashes (build_evidence_pack hashes result [] budget) ≡ ok tt
unfolding pack_program
build_evidence_pack-valid_example =
    build_evidence_pack-valid hashes result [] budget (omega arith)
      (λ e. refl, (λ e. cc, (λ e. refl, (λ e. refl, tt)))) refl
