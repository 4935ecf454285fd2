-- ===== src/Governance/Ledger/Signed.antt =====
-- Signing a valid event always gives an entry that verifies.
use atlas_pulse.Prelude.{
  ℕ, ◌≤◌, true, Option, some, ◌++◌, length, all, ok, text_eq, nat_eq, Text, arith, refl, ◌≡◌,
  ==_refl, is_hex, matches_id-append, bool_eq,
}
use atlas_pulse.Prelude.{option_text_eq}
use atlas_pulse.Governance.Types.{
  Crypto, AgentGovernanceEvent, granted, revoked, recorded, AgentRunLedgerEntry, EntryPayload,
  AgentRunLedgerSignature, event_type_eq,
}
use atlas_pulse.Governance.{
  ledger_prefix, key_prefix, manifest_prefix, proposal_prefix, prefixed_hash, validate_event,
  validate_grant, validate_revocation, validate_record,
}
use atlas_pulse.Governance.Ledger.{
  verify_entry, validate_entry, entry_payload, event_metadata, has_own_metadata, sign, check_link,
  verify_signature, decode_base64, key_id_for_public_key, build_signed_ledger_entry,
}

-- The text of 64 hexadecimal digits that `hexdigest` returns.
abbrev pub IsDigest : Text → Type 0
IsDigest s = (length s ≡ 64) × (all is_hex s ≡ true)

-- What the program relies on: SHA-256 as 64 digits, base64 that decodes what it encodes, raw Ed25519
-- keys of 32 and signatures of 64 bytes, and a signature that verifies under its own key.
pub record Laws {K : Type 0} (c : Crypto K) : Type 0 where
  pub entry_digest :
      (p : EntryPayload) (s : AgentRunLedgerSignature) → IsDigest (c.entry_sha256 p s)
  pub key_digest : (k : Text) → IsDigest (c.key_sha256 k)
  pub decodes : (b : Text) → c.b64decode (c.b64encode b) ≡ some b
  pub key_bytes : (k : K) → length (c.public_bytes k) ≡ 32
  pub signature_bytes : (k : K) (m : Text) → length (c.sign k m) ≡ 64
  pub verifies : (k : K) (m : Text) → c.verify (c.public_bytes k) (c.sign k m) m ≡ true

prefixed_hash-digest : (p s : Text) → IsDigest s → prefixed_hash (p ++ s) p ≡ ok (p ++ s)
unfolding prefixed_hash
prefixed_hash-digest p s h = ground (arith, matches_id-append p 64 s)

has_own_metadata-entry_payload :
    (n : ℕ) (previous : Option Text) (event : AgentGovernanceEvent)
    → has_own_metadata (entry_payload n previous event) ≡ true
unfolding has_own_metadata entry_payload
has_own_metadata-entry_payload n previous event =
    let m = event_metadata event in
    ground (
      arith,
      ==_refl m.event_type,
      ==_refl m.occurred_at,
      ==_refl m.artifact_id,
      ==_refl m.manifest_id,
      ==_refl m.proposal_id,
    )

-- A validated event has the manifest and the proposal of its metadata.
event_metadata-prefixed :
    {K : Type 0} (c : Crypto K) (event : AgentGovernanceEvent)
    → validate_event c event ≡ ok tt
    → (prefixed_hash (event_metadata event).manifest_id manifest_prefix
        ≡ ok (event_metadata event).manifest_id)
      × (prefixed_hash (event_metadata event).proposal_id proposal_prefix
          ≡ ok (event_metadata event).proposal_id)
unfolding event_metadata validate_event prefixed_hash validate_grant validate_revocation
    validate_record
event_metadata-prefixed c (granted g) h = ground arith
event_metadata-prefixed c (revoked r) h = ground arith
event_metadata-prefixed c (recorded p) h = ground arith

module _ {K : Type 0} (c : Crypto K) (laws : Laws c) where
  decode_base64-encode : (b : Text) → decode_base64 c (c.b64encode b) ≡ ok b
  unfolding decode_base64
  decode_base64-encode b = ground (arith, laws.decodes b, ==_refl (c.b64encode b))

  key_id_lem :
      (key : K)
      → key_id_for_public_key c (c.public_bytes key)
        ≡ ok (key_prefix ++ c.key_sha256 (c.public_bytes key))
  unfolding key_id_for_public_key
  key_id_lem key = ground (arith, laws.key_bytes key)

  abbrev signature_of : K → EntryPayload → AgentRunLedgerSignature
  signature_of key payload = record {
    key_id = key_prefix ++ c.key_sha256 (c.public_bytes key);
    public_key = c.b64encode (c.public_bytes key);
    value = c.b64encode (c.sign key (c.entry_bytes payload));
  }

  sign_lem : (key : K) (payload : EntryPayload) → sign c key payload ≡ ok (signature_of key payload)
  unfolding sign
  sign_lem key payload = ground (arith, key_id_lem key)

  -- What a key signs verifies.
  pub verify_signature-sign :
      (key : K) (payload : EntryPayload)
      → verify_signature c payload (signature_of key payload) ≡ ok tt
  unfolding verify_signature
  verify_signature-sign key payload = ground (
    arith,
    decode_base64-encode (c.public_bytes key),
    decode_base64-encode (c.sign key (c.entry_bytes payload)),
    key_id_lem key,
    ==_refl (key_prefix ++ c.key_sha256 (c.public_bytes key)),
    laws.signature_bytes key (c.entry_bytes payload),
    laws.verifies key (c.entry_bytes payload),
  )

  abbrev entry_of : AgentGovernanceEvent → ℕ → Option Text → K → AgentRunLedgerEntry
  entry_of event n previous key =
      let payload = entry_payload n previous event in
      record {
        entry_id = ledger_prefix ++ c.entry_sha256 payload (signature_of key payload);
        payload = payload;
        signature = signature_of key payload;
      }

  verify_entry-signed :
      (event : AgentGovernanceEvent) (n : ℕ) (previous : Option Text) (key : K)
      → validate_event c event ≡ ok tt
      → check_link n previous ≡ ok tt
      → verify_entry c (entry_of event n previous key) ≡ ok tt
  unfolding verify_entry entry_payload
  verify_entry-signed event n previous key valid linked =
      let payload = entry_payload n previous event in
      let s = signature_of key payload in
      ground (
        arith,
        prefixed_hash-digest ledger_prefix (c.entry_sha256 payload s) (laws.entry_digest payload s),
        has_own_metadata-entry_payload n previous event,
        verify_signature-sign key payload,
        ==_refl (ledger_prefix ++ c.entry_sha256 payload s),
      )

  validate_entry-signed :
      (event : AgentGovernanceEvent) (n : ℕ) (previous : Option Text) (key : K)
      → validate_event c event ≡ ok tt
      → 1 ≤ n
      → check_link n previous ≡ ok tt
      → validate_entry c (entry_of event n previous key) ≡ ok (entry_of event n previous key)
  unfolding validate_entry entry_payload
  validate_entry-signed event n previous key valid positive linked =
      let public_key = c.public_bytes key in
      ground (
        arith,
        event_metadata-prefixed c event valid,
        prefixed_hash-digest key_prefix (c.key_sha256 public_key) (laws.key_digest public_key),
        verify_entry-signed event n previous key valid linked,
      )

  -- A validated event that is signed at a place of the ledger gives an entry for that place.
  pub build_signed_ledger_entry-returns :
      (event : AgentGovernanceEvent) (n : ℕ) (previous : Option Text) (key : K)
      → validate_event c event ≡ ok tt
      → 1 ≤ n
      → check_link n previous ≡ ok tt
      → (e : AgentRunLedgerEntry) × (build_signed_ledger_entry c event n previous key ≡ ok e)
        × (e.payload ≡ entry_payload n previous event)
        × (e.signature.key_id ≡ key_prefix ++ c.key_sha256 (c.public_bytes key))
  unfolding build_signed_ledger_entry
  build_signed_ledger_entry-returns event n previous key valid positive linked = (
    entry_of event n previous key,
    ground (
      arith,
      sign_lem key (entry_payload n previous event),
      validate_entry-signed event n previous key valid positive linked,
    ),
    refl,
    refl,
  )
