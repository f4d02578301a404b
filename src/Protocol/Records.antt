-- ===== src/Protocol/Records.antt =====
-- protocol/src/schemas.ts: the structures that a Mission is made of. Two structures are compared
-- part by part, which is `isDeepStrictEqual`.
use agent_relay.Prelude.{
  ℕ, String, Option, List, Equatable, eq_of_discrete, String-discrete, ℕ_discrete,
}

-- `artifactRefSchema`
pub record ArtifactRef : Type 0 where
  pub artifact_id : String
  pub type : String
  pub version : ℕ
  pub sha256 : String
  pub media_type : String
  pub byte_size : ℕ

-- `contractRevisionSchema`
pub record ContractRevision : Type 0 where
  pub revision_id : String
  pub mission_id : String
  pub previous_version : ℕ
  pub version : ℕ
  pub artifact : ArtifactRef
  pub proposed_by_agent_id : String
  pub acknowledged_by_agent_ids : List String
  pub idempotency_key : String
  pub created_at : String

-- `messageTypeSchema`
pub data MessageType : Type 0 where
  question answer proposal decision progress blocker : MessageType

-- `messageSchema`
pub record Message : Type 0 where
  pub message_id : String
  pub mission_id : String
  pub sequence_no : ℕ
  pub author_agent_id : String
  pub type : MessageType
  pub body : String
  pub artifacts : List ArtifactRef
  pub contract_version : ℕ
  pub idempotency_key : String
  pub causal_parent_message_id : Option String
  pub created_at : String

pub data Outcome : Type 0 where
  passed failed : Outcome

-- `verificationEvidenceSchema`
pub record VerificationEvidence : Type 0 where
  pub verification_id : String
  pub command_id : String
  pub outcome : Outcome
  pub exit_code : ℕ
  pub duration_ms : ℕ
  pub summary : String
  pub output_sha256 : String
  pub artifacts : List ArtifactRef
  pub recorded_at : String

-- `turnDispositionSchema`
pub data TurnDisposition : Type 0 where
  reply : MessageType → String → Option (List ArtifactRef) → TurnDisposition
  propose_contract : ArtifactRef → TurnDisposition
  ready : List VerificationEvidence → TurnDisposition
  blocked : String → Option String → TurnDisposition
  failed : String → TurnDisposition

-- `participantSchema`
pub record Participant : Type 0 where
  pub agent_id : String
  pub role : String
  pub workspace_alias : String
  pub repository_url : String
  pub expected_base_commit : String
  pub initial_assignment : String
  pub requested_local_policy_profile : String

-- `missionManifestSchema`
pub record MissionManifest : Type 0 where
  pub mission_id : String
  pub objective : String
  pub public_acceptance_criteria : List String
  pub participants : List Participant
  pub shared_contract : ArtifactRef
  pub max_turns : ℕ
  pub max_wall_time_seconds : ℕ
  pub token_budget : ℕ
  pub expires_at : String
  pub allowed_artifact_types : List String
  pub created_at : String

-- `missionContextSchema`
pub record MissionContext : Type 0 where
  pub manifest : MissionManifest
  pub created_by_principal_id : String
  pub created_by_kind : String

unfoldable pub ArtifactRef-discrete : Discrete ArtifactRef
ArtifactRef-discrete = hlevel (String-discrete, ℕ_discrete)

unfoldable pub MessageType-discrete : Discrete MessageType
MessageType-discrete = hlevel

unfoldable pub Outcome-discrete : Discrete Outcome
Outcome-discrete = hlevel

unfoldable pub ContractRevision-discrete : Discrete ContractRevision
ContractRevision-discrete = hlevel (String-discrete, ℕ_discrete, ArtifactRef-discrete)

unfoldable pub Message-discrete : Discrete Message
Message-discrete = hlevel (String-discrete, ℕ_discrete, ArtifactRef-discrete, MessageType-discrete)

unfoldable pub VerificationEvidence-discrete : Discrete VerificationEvidence
VerificationEvidence-discrete =
    hlevel (String-discrete, ℕ_discrete, ArtifactRef-discrete, Outcome-discrete)

unfoldable pub TurnDisposition-discrete : Discrete TurnDisposition
TurnDisposition-discrete = hlevel (
  String-discrete, ℕ_discrete, ArtifactRef-discrete, MessageType-discrete,
  VerificationEvidence-discrete,
)

instance abbrev pub artifact_eq : Equatable ArtifactRef
artifact_eq = eq_of_discrete ArtifactRef-discrete

instance abbrev pub message_type_eq : Equatable MessageType
message_type_eq = eq_of_discrete MessageType-discrete
