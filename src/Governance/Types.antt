-- ===== src/Governance/Types.antt =====
-- The artifacts and ledger entries of agent_governance.py. A time that has passed `_utc` is its
-- instant in UTC. The fields of an artifact but its identity are its payload, the record that its
-- identity is a hash of. Fields whose type is one literal are left out.
use atlas_pulse.Prelude.{ℕ, Bool, Option, List, Text, Eq}

pub data GovernanceActorRole : Type 0 where
  human_release_approver human_release_revoker preflight_recorder : GovernanceActorRole

pub data AgentLedgerEventType : Type 0 where
  approval_granted approval_revoked preflight_recorded : AgentLedgerEventType

pub data PolicyVersion : Type 0 where
  authorization_v2 authorization_v3 : PolicyVersion

pub record GovernanceActor : Type 0 where
  pub actor_id : Text
  pub role : GovernanceActorRole

pub record ApprovalPayload : Type 0 where
  pub proposal_id : Text
  pub source_manifest_id : Text
  pub policy_version : PolicyVersion
  pub approver : GovernanceActor
  pub issued_at : ℕ
  pub expires_at : ℕ
  pub reason : Text

pub record AgentApprovalGrant : Type 0 where
  pub approval_id : Text
  pub payload : ApprovalPayload

pub record RevocationPayload : Type 0 where
  pub approval_id : Text
  pub proposal_id : Text
  pub source_manifest_id : Text
  pub revoked_by : GovernanceActor
  pub revoked_at : ℕ
  pub reason : Text

pub record AgentApprovalRevocation : Type 0 where
  pub revocation_id : Text
  pub payload : RevocationPayload

pub record PreflightPayload : Type 0 where
  pub manifest_id : Text
  pub proposal_id : Text
  pub blocking_reasons : List Text
  pub recorded_by : GovernanceActor
  pub recorded_at : ℕ

pub record AgentPreflightRecord : Type 0 where
  pub record_id : Text
  pub payload : PreflightPayload

pub data AgentGovernanceEvent : Type 0 where
  granted : AgentApprovalGrant → AgentGovernanceEvent
  revoked : AgentApprovalRevocation → AgentGovernanceEvent
  recorded : AgentPreflightRecord → AgentGovernanceEvent

pub record AgentRunLedgerSignature : Type 0 where
  pub key_id : Text
  pub public_key : Text
  pub value : Text

-- What an entry signs: all of it but its identity and its signature.
pub record EntryPayload : Type 0 where
  pub sequence : ℕ
  pub previous_entry_id : Option Text
  pub event_type : AgentLedgerEventType
  pub occurred_at : ℕ
  pub artifact_id : Text
  pub manifest_id : Text
  pub proposal_id : Text
  pub event : AgentGovernanceEvent

pub record AgentRunLedgerEntry : Type 0 where
  pub entry_id : Text
  pub payload : EntryPayload
  pub signature : AgentRunLedgerSignature

pub record AgentRunLedgerVerification (E : Type 0) : Type 0 where
  pub valid : Bool
  pub entry_count : ℕ
  pub head_entry_id : Option Text
  pub errors : List E

unfoldable pub ActorRole-discrete : Discrete GovernanceActorRole
ActorRole-discrete = hlevel

unfoldable pub EventType-discrete : Discrete AgentLedgerEventType
EventType-discrete = hlevel

instance abbrev pub actor_role_eq : Eq GovernanceActorRole
actor_role_eq = record { discrete = ActorRole-discrete }

instance abbrev pub event_type_eq : Eq AgentLedgerEventType
event_type_eq = record { discrete = EventType-discrete }

-- SHA-256 over canonical JSON, canonical JSON as bytes, base64 and Ed25519, which the program takes
-- from the standard library and the cryptography package. `K` is the type of private keys, and bytes
-- are texts of numbers.
pub record Crypto (K : Type 0) : Type 0 where
  pub approval_sha256 : ApprovalPayload → Text
  pub revocation_sha256 : RevocationPayload → Text
  pub preflight_sha256 : PreflightPayload → Text
  pub entry_bytes : EntryPayload → Text
  pub entry_sha256 : EntryPayload → AgentRunLedgerSignature → Text
  pub key_sha256 : Text → Text
  pub b64encode : Text → Text
  pub b64decode : Text → Option Text
  pub public_bytes : K → Text
  pub sign : K → Text → Text
  pub verify : Text → Text → Text → Bool
