-- ===== src/Node/Capsule/Types.antt =====
-- The structures of a host session: protocol/src/adapter.ts, node/src/codex-capsule-types.ts and the
-- stored turn of node/src/codex-capsule-state.ts.
use agent_relay.Prelude.{
  ℕ, String, Option, List, Equatable, eq_of_discrete, String-discrete, ℕ_discrete,
}
use agent_relay.Protocol.Records.{
  ArtifactRef, ArtifactRef-discrete, MessageType, MessageType-discrete, TurnDisposition,
  TurnDisposition-discrete,
}

-- `sessionInputSchema`
pub record SessionInput : Type 0 where
  pub mission_id : String
  pub participant_id : String
  pub workspace_alias : String

-- `hostSessionRefSchema`
pub record SessionRef : Type 0 where
  pub scope : SessionInput
  pub session_id : String

-- `hostMissionTextInputSchema`
pub record MissionText : Type 0 where
  pub text : String
  pub author_principal_id : String

-- `hostPeerMessageInputSchema`
pub record PeerMessage : Type 0 where
  pub message_id : String
  pub author_agent_id : String
  pub kind : MessageType
  pub body : String

pub data ActorKind : Type 0 where
  owner agent : ActorKind

-- `actorRefSchema`
pub record ActorRef : Type 0 where
  pub principal_id : String
  pub kind : ActorKind

-- `hostArtifactPayloadSchema`; the value of a JSON payload is that of its text.
pub data ArtifactPayload : Type 0 where
  text json : String → ArtifactPayload

-- `hostInputArtifactSchema`
pub record InputArtifact : Type 0 where
  pub artifact : ArtifactRef
  pub source : ActorRef
  pub payload : ArtifactPayload

-- `startTurnInputSchema`
pub record TurnInput : Type 0 where
  pub session : SessionRef
  pub mission_id : String
  pub delivery_id : String
  pub execution_attempt : ℕ
  pub contract_version : ℕ
  pub mission_sequence : ℕ
  pub objective : MissionText
  pub assignment : MissionText
  pub acceptance_criteria : List MissionText
  pub peer_messages : List PeerMessage
  pub artifacts : List InputArtifact

-- `hostTurnRefSchema`
pub record TurnRef : Type 0 where
  pub turn_id : String
  pub session_id : String
  pub mission_id : String
  pub delivery_id : String
  pub execution_attempt : ℕ
  pub contract_version : ℕ

pub data FailureClass : Type 0 where
  transient permanent policy_denied : FailureClass

-- `hostFailureSchema`
pub record Failure : Type 0 where
  pub failure_class : FailureClass
  pub message : String

pub data UsageReason : Type 0 where
  unsupported not_reported : UsageReason

-- `hostUsageSchema`: the tokens in and out, or why they are not known.
pub data Usage : Type 0 where
  reported : ℕ → ℕ → Usage
  unavailable : UsageReason → Usage

-- `CodexNormalizedTerminal`
pub data Outcome : Type 0 where
  completed : TurnDisposition → Outcome
  failed : Failure → Outcome
  cancelled : Outcome

-- The kinds of `hostEventSchema` that a stored turn holds.
pub data EventKind : Type 0 where
  accepted : EventKind
  usage : Usage → EventKind
  terminal : Outcome → EventKind

pub record HostEvent : Type 0 where
  pub kind : EventKind
  pub turn : TurnRef
  pub sequence : ℕ

-- `CodexCapsuleTurnIntent`; the output schema is the one constant of the program.
pub record Intent : Type 0 where
  pub client_user_message_id : String
  pub text : String
  pub text_sha256 : String
  pub output_schema_sha256 : String

pub data Phase : Type 0 where
  prepared start_maybe_sent accepted cancelling terminal : Phase

pub data Cancellation : Type 0 where
  none requested interrupt_maybe_sent : Cancellation

-- `storedCodexTurnSchema`
pub record Turn : Type 0 where
  pub input : TurnInput
  pub input_sha256 : String
  pub host_turn_id : String
  pub phase : Phase
  pub codex_turn_id : Option String
  pub provider_intent : Intent
  pub cancellation : Cancellation
  pub events : List HostEvent
  pub created_at : String

unfoldable pub SessionRef-discrete : Discrete SessionRef
SessionRef-discrete = hlevel String-discrete

unfoldable pub TurnInput-discrete : Discrete TurnInput
TurnInput-discrete =
    hlevel
      (String-discrete, ℕ_discrete, SessionRef-discrete, MessageType-discrete, ArtifactRef-discrete)

unfoldable pub TurnRef-discrete : Discrete TurnRef
TurnRef-discrete = hlevel (String-discrete, ℕ_discrete)

unfoldable pub EventKind-discrete : Discrete EventKind
EventKind-discrete = hlevel (String-discrete, ℕ_discrete, TurnDisposition-discrete)

unfoldable pub HostEvent-discrete : Discrete HostEvent
HostEvent-discrete = hlevel (String-discrete, ℕ_discrete, EventKind-discrete, TurnRef-discrete)

unfoldable pub Intent-discrete : Discrete Intent
Intent-discrete = hlevel String-discrete

instance abbrev pub intent_eq : Equatable Intent
intent_eq = eq_of_discrete Intent-discrete

instance abbrev pub session_ref_eq : Equatable SessionRef
session_ref_eq = eq_of_discrete SessionRef-discrete

instance abbrev pub turn_input_eq : Equatable TurnInput
turn_input_eq = eq_of_discrete TurnInput-discrete

instance abbrev pub turn_ref_eq : Equatable TurnRef
turn_ref_eq = eq_of_discrete TurnRef-discrete

instance abbrev pub event_kind_eq : Equatable EventKind
event_kind_eq = eq_of_discrete EventKind-discrete

instance abbrev pub host_event_eq : Equatable HostEvent
host_event_eq = eq_of_discrete HostEvent-discrete
