-- ===== src/EvidencePack/Types.antt =====
-- The data of evidence_packs.py, with what it reads of retrieval/base.py. `F` is the type of
-- floating-point numbers and `Q` that of search queries: packs carry their values along unread.
use atlas_pulse.Prelude.{ℕ, Bool, Option, List, Text, Eq}
use atlas_pulse.Polling.Types.{Datetime}

pub data CitationStatus : Type 0 where
  traceable missing rejected : CitationStatus

unfoldable pub CitationStatus-discrete : Discrete CitationStatus
CitationStatus-discrete = hlevel

instance abbrev pub citation_status_eq : Eq CitationStatus
citation_status_eq = record { discrete = CitationStatus-discrete }

pub record CitationValidation : Type 0 where
  pub status : CitationStatus
  pub url : Option Text
  pub source_field : Option Text
  pub reasons : List Text

pub data RankingMode : Type 0 where
  lexical dense rrf hybrid : RankingMode

-- What the code reads of an `Event` of agent_rag_core.
pub record Event : Type 0 where
  pub event_id : Text
  pub event_type : Text
  pub source : Text
  pub occurred_at : Datetime
  pub ingested_at : Datetime
  pub schema_version : Text

pub record StreamMessage : Type 0 where
  pub stream_id : Text
  pub event : Event

pub record RankingExplanation (F : Type 0) : Type 0 where
  pub lexical_rank : Option ℕ
  pub lexical_score : Option F
  pub dense_rank : Option ℕ
  pub dense_similarity : Option F
  pub rrf_score : F
  pub exact_phrase_match : Bool
  pub token_coverage : F
  pub rerank_score : F

pub record SearchHit (F : Type 0) : Type 0 where
  pub message : StreamMessage
  pub document_text : Text
  pub distance_km : Option F
  pub ranking : RankingExplanation F
  pub citation : CitationValidation

pub record SearchResult (F : Type 0) : Type 0 where
  pub hits : List (SearchHit F)
  pub candidates_considered : ℕ
  pub embedding_model : Text
  pub ranking_mode : RankingMode
  pub ranking_rule : Text
  pub caveat : Text

pub data EvidencePackStatus : Type 0 where
  traceable_evidence_available no_traceable_evidence : EvidencePackStatus

unfoldable pub EvidencePackStatus-discrete : Discrete EvidencePackStatus
EvidencePackStatus-discrete = hlevel

instance abbrev pub pack_status_eq : Eq EvidencePackStatus
pack_status_eq = record { discrete = EvidencePackStatus-discrete }

pub data EvidenceExclusionReason : Type 0 where
  citation_missing citation_rejected citation_contract_invalid : EvidenceExclusionReason
  empty_source_text item_limit source_text_character_limit : EvidenceExclusionReason

pub record EvidencePackBudget : Type 0 where
  pub max_items : ℕ
  pub max_characters_per_item : ℕ
  pub max_total_characters : ℕ

pub record EvidencePackRetrieval (Q : Type 0) : Type 0 where
  pub query : Q
  pub candidates_considered : ℕ
  pub returned_hits : ℕ
  pub embedding_model : Text
  pub ranking_mode : RankingMode
  pub ranking_rule : Text
  pub caveat : Text

pub record EvidencePackItem (F : Type 0) : Type 0 where
  pub evidence_id : Text
  pub retrieval_rank : ℕ
  pub stream_id : Text
  pub event_id : Text
  pub event_type : Text
  pub source : Text
  pub occurred_at : Datetime
  pub ingested_at : Datetime
  pub event_schema_version : Text
  pub text : Text
  pub document_sha256 : Text
  pub text_sha256 : Text
  pub document_characters : ℕ
  pub text_characters : ℕ
  pub truncated : Bool
  pub distance_km : Option F
  pub ranking : RankingExplanation F
  pub citation : CitationValidation

pub record EvidencePackExclusion (F : Type 0) : Type 0 where
  pub retrieval_rank : ℕ
  pub stream_id : Text
  pub event_id : Text
  pub event_type : Text
  pub source : Text
  pub occurred_at : Datetime
  pub ingested_at : Datetime
  pub event_schema_version : Text
  pub document_sha256 : Text
  pub distance_km : Option F
  pub ranking : RankingExplanation F
  pub citation : CitationValidation
  pub reason : EvidenceExclusionReason

pub record EvidencePack (F Q : Type 0) : Type 0 where
  pub pack_id : Text
  pub schema_version : Text
  pub rule_version : Text
  pub identity_algorithm : Text
  pub status : EvidencePackStatus
  pub budget : EvidencePackBudget
  pub retrieval : EvidencePackRetrieval Q
  pub items : List (EvidencePackItem F)
  pub exclusions : List (EvidencePackExclusion F)
  pub source_text_characters : ℕ
  pub trust_boundary : Text
  pub caveat : Text

-- The payloads of the two content identities, less their constants.
pub record EvidencePayload : Type 0 where
  pub stream_id : Text
  pub event_id : Text
  pub source : Text
  pub document_sha256 : Text
  pub text_sha256 : Text
  pub citation : CitationValidation

pub record PackPayload (F Q : Type 0) : Type 0 where
  pub status : EvidencePackStatus
  pub source_text_characters : ℕ
  pub budget : EvidencePackBudget
  pub retrieval : EvidencePackRetrieval Q
  pub items : List (EvidencePackItem F)
  pub exclusions : List (EvidencePackExclusion F)

-- SHA-256 over a text, and over the canonical JSON of each payload.
pub record Hashes (F Q : Type 0) : Type 0 where
  pub document_hash : Text → Text
  pub evidence_sha256 : EvidencePayload → Text
  pub pack_sha256 : PackPayload F Q → Text
