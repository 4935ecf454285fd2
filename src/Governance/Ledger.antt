-- ===== src/Governance/Ledger.antt =====
-- The ledger entries of agent_governance.py: signing, verification, the chain, and the ledger that is
-- kept in memory.
pub mod Signed
use atlas_pulse.Prelude.{
  ℕ, suc, Bool, true, false, ◌&&◌, ◌||◌, not, Option, none, some, List, [], ◌∷◌, ◌++◌, length, map,
  all, any, keep, contains, Result, ok, raise, ◌>>=◌, ◌>>◌, raise_if, ltb, leb, ◌==◌, text_eq,
  nat_eq, bool_eq, if◌then◌else◌, Text, codes, matches_id, ◌+◌, last?,
}
use atlas_pulse.Polling.Types.{Datetime}
use atlas_pulse.Polling.Validate.{is_some}
use atlas_pulse.Prelude.{option_text_eq}
use atlas_pulse.Governance.Types.{
  AgentApprovalGrant, AgentApprovalRevocation, AgentPreflightRecord, AgentGovernanceEvent, granted,
  revoked, recorded, Crypto, AgentLedgerEventType, AgentRunLedgerSignature, EntryPayload,
  AgentRunLedgerEntry, AgentRunLedgerVerification, event_type_eq,
}
use atlas_pulse.Governance.{
  Governed, GovernanceError, prefixed_hash, validate_event, ledger_prefix, key_prefix,
  manifest_prefix, proposal_prefix, sequence_without_link, metadata_mismatch, not_base64,
  key_length, key_id_mismatch, signature_length, bad_signature, entry_identity_mismatch,
  field_constraint,
}

pub record Metadata : Type 0 where
  pub event_type : AgentLedgerEventType
  pub occurred_at : ℕ
  pub artifact_id : Text
  pub manifest_id : Text
  pub proposal_id : Text

-- `_event_metadata`
unfoldable pub event_metadata : AgentGovernanceEvent → Metadata
event_metadata (granted g) = record {
  event_type = AgentLedgerEventType.approval_granted;
  occurred_at = g.payload.issued_at;
  artifact_id = g.approval_id;
  manifest_id = g.payload.source_manifest_id;
  proposal_id = g.payload.proposal_id;
}
event_metadata (revoked r) = record {
  event_type = AgentLedgerEventType.approval_revoked;
  occurred_at = r.payload.revoked_at;
  artifact_id = r.revocation_id;
  manifest_id = r.payload.source_manifest_id;
  proposal_id = r.payload.proposal_id;
}
event_metadata (recorded p) = record {
  event_type = AgentLedgerEventType.preflight_recorded;
  occurred_at = p.payload.recorded_at;
  artifact_id = p.record_id;
  manifest_id = p.payload.manifest_id;
  proposal_id = p.payload.proposal_id;
}

-- `_entry_payload`
unfoldable pub entry_payload : ℕ → Option Text → AgentGovernanceEvent → EntryPayload
entry_payload sequence previous event =
    let m = event_metadata event in
    record {
      sequence = sequence;
      previous_entry_id = previous;
      event_type = m.event_type;
      occurred_at = m.occurred_at;
      artifact_id = m.artifact_id;
      manifest_id = m.manifest_id;
      proposal_id = m.proposal_id;
      event = event;
    }

-- `_event_metadata(entry.event) != (entry.event_type, …)`, negated
unfoldable pub has_own_metadata : EntryPayload → Bool
has_own_metadata p =
    let m = event_metadata p.event in
    m.event_type == p.event_type
    && m.occurred_at == p.occurred_at
    && m.artifact_id == p.artifact_id
    && m.manifest_id == p.manifest_id
    && m.proposal_id == p.proposal_id

-- The checks that only sequence 1 has no previous entry, and that a previous identity is one.
unfoldable pub check_link : ℕ → Option Text → Governed (Unit {0})
check_link sequence previous = do
  raise_if (not ((sequence == 1) == not (is_some previous))) sequence_without_link
  elim previous [ none ↦ ok tt | some id ↦ do prefixed_hash id ledger_prefix; ok tt ]

module _ {K : Type 0} (c : Crypto K) where
  -- `_decode_base64`
  unfoldable pub decode_base64 : Text → Governed Text
  decode_base64 value = elim (c.b64decode value) [
    | none ↦ raise not_base64
    | some decoded ↦ do raise_if (not (c.b64encode decoded == value)) not_base64; ok decoded
  ]

  unfoldable pub key_id_for_public_key : Text → Governed Text
  key_id_for_public_key public_key = do
    raise_if (not (length public_key == 32)) key_length
    ok (key_prefix ++ c.key_sha256 public_key)

  -- Ed25519LedgerSigner.sign, on the payload as canonical JSON
  unfoldable pub sign : K → EntryPayload → Governed AgentRunLedgerSignature
  sign key payload = do
    key_id ← key_id_for_public_key (c.public_bytes key)
    ok (record {
      key_id = key_id;
      public_key = c.b64encode (c.public_bytes key);
      value = c.b64encode (c.sign key (c.entry_bytes payload));
    })

  -- The signature checks of `_verify_entry`.
  unfoldable pub verify_signature : EntryPayload → AgentRunLedgerSignature → Governed (Unit {0})
  verify_signature payload s = do
    public_key ← decode_base64 s.public_key
    key_id ← key_id_for_public_key public_key
    raise_if (not (s.key_id == key_id)) key_id_mismatch
    signature ← decode_base64 s.value
    raise_if (not (length signature == 64)) signature_length
    raise_if (not (c.verify public_key signature (c.entry_bytes payload))) bad_signature

  -- `_verify_entry`. The canonical JSON of an event reads back as the event.
  unfoldable pub verify_entry : AgentRunLedgerEntry → Governed (Unit {0})
  verify_entry e = do
    prefixed_hash e.entry_id ledger_prefix
    check_link e.payload.sequence e.payload.previous_entry_id
    validate_event c e.payload.event
    raise_if (not (has_own_metadata e.payload)) metadata_mismatch
    let payload = entry_payload e.payload.sequence e.payload.previous_entry_id e.payload.event
    verify_signature payload e.signature
    raise_if (not (e.entry_id == ledger_prefix ++ c.entry_sha256 payload e.signature))
        entry_identity_mismatch

  -- AgentRunLedgerEntry: the patterns of its fields, then `_verify_entry`
  unfoldable pub validate_entry : AgentRunLedgerEntry → Governed AgentRunLedgerEntry
  validate_entry e = do
    raise_if (ltb e.payload.sequence 1) field_constraint
    prefixed_hash e.payload.manifest_id manifest_prefix
    prefixed_hash e.payload.proposal_id proposal_prefix
    prefixed_hash e.signature.key_id key_prefix
    verify_entry e
    ok e

  unfoldable pub build_signed_ledger_entry :
      AgentGovernanceEvent → ℕ → Option Text → K → Governed AgentRunLedgerEntry
  build_signed_ledger_entry event sequence previous key = do
    check_link sequence previous
    let payload = entry_payload sequence previous event
    signature ← sign key payload
    validate_entry (record {
      entry_id = ledger_prefix ++ c.entry_sha256 payload signature;
      payload = payload;
      signature = signature;
    })
