-- ===== src/Protocol/Coordinator/Events.antt =====
-- protocol/src/mission-coordinator.ts: the events of a Mission and the checks of their payloads.
use agent_relay.Prelude.{
  ℕ, String, Bool, true, false, not, ◌&&◌, Option, none, some, List, [], ◌∷◌, Equatable, ◌==◌,
  nat_eq, string_eq, includes, length, if◌then◌else◌, eq_of_discrete, String-discrete, ℕ_discrete,
  suc,
}
use agent_relay.Protocol.Records.{
  ArtifactRef, ContractRevision, Message, VerificationEvidence, TurnDisposition,
  ArtifactRef-discrete, ContractRevision-discrete, Message-discrete, VerificationEvidence-discrete,
  TurnDisposition-discrete,
}

-- `participantsAcceptedEventSchema`, without the envelope that every event has
pub record ParticipantsAccepted : Type 0 where
  pub participant_agent_ids : List String
  pub contract : ArtifactRef

pub record TurnCompleted : Type 0 where
  pub participant_agent_id : String
  pub delivery_id : String
  pub contract_version : ℕ
  pub disposition : TurnDisposition
  pub message : Option Message
  pub revision : Option ContractRevision

pub record ContractAcknowledged : Type 0 where
  pub participant_agent_id : String
  pub delivery_id : String
  pub revision_id : String
  pub contract_version : ℕ
  pub artifact : ArtifactRef

pub record VerificationRecorded : Type 0 where
  pub participant_agent_id : String
  pub delivery_id : String
  pub contract_version : ℕ
  pub verification_round : ℕ
  pub evidence : VerificationEvidence

pub data TerminalStatus : Type 0 where
  expired failed : TerminalStatus

pub data TerminalReason : Type 0 where
  deadline_exceeded delivery_dead_lettered : TerminalReason

pub record MissionTerminal : Type 0 where
  pub terminal_status : TerminalStatus
  pub reason : TerminalReason
  pub triggering_delivery_id : Option String

-- The union that `type` discriminates.
pub data Payload : Type 0 where
  participants_accepted : ParticipantsAccepted → Payload
  turn_completed : TurnCompleted → Payload
  contract_acknowledged : ContractAcknowledged → Payload
  verification_recorded : VerificationRecorded → Payload
  mission_terminal : MissionTerminal → Payload

-- `missionEventEnvelopeSchema`, and the payload
pub record Event : Type 0 where
  pub event_id : String
  pub idempotency_key : String
  pub mission_id : String
  pub sequence_no : ℕ
  pub created_at : String
  pub payload : Payload

unfoldable pub Event-discrete : Discrete Event
Event-discrete = hlevel (
  String-discrete, ℕ_discrete, ArtifactRef-discrete, ContractRevision-discrete, Message-discrete,
  VerificationEvidence-discrete, TurnDisposition-discrete,
)

instance abbrev pub event_eq : Equatable Event
event_eq = eq_of_discrete Event-discrete

-- `new Set(values).size`
unfoldable pub set_size : List String → ℕ
set_size [] = 0
set_size (x ∷ xs) = let rest = set_size xs in if includes xs x then rest else suc rest

-- `new Set(values).size === values.length`
unfoldable pub has_unique_values : List String → Bool
has_unique_values values = set_size values == length values

abbrev pub is_some {ℓ} : {A : Type ℓ} → Option A → Bool
is_some none = false
is_some (some a) = true

-- `validateTurnResultCompanions`: whether it finds no issue.
unfoldable pub has_turn_companions :
    TurnDisposition → Option Message → Option ContractRevision → Bool
has_turn_companions (TurnDisposition.reply t m a) message revision =
    is_some message && not (is_some revision)
has_turn_companions (TurnDisposition.propose_contract a) message revision =
    not (is_some message) && is_some revision
has_turn_companions (TurnDisposition.ready e) message revision =
    not (is_some message) && not (is_some revision)
has_turn_companions (TurnDisposition.blocked r i) message revision = false
has_turn_companions (TurnDisposition.failed c) message revision = false

-- `expiresMission || failsMission`
abbrev pub cause_matches : TerminalStatus → TerminalReason → Bool → Bool
cause_matches expired deadline_exceeded triggered = not triggered
cause_matches failed delivery_dead_lettered triggered = triggered
cause_matches _ _ triggered = false

unfoldable pub has_terminal_cause : MissionTerminal → Bool
has_terminal_cause event =
    cause_matches event.terminal_status event.reason (is_some event.triggering_delivery_id)

-- `validateCoordinatorEventPayload`: whether it finds no issue.
unfoldable pub is_valid_payload : Payload → Bool
is_valid_payload (participants_accepted event) = has_unique_values event.participant_agent_ids
is_valid_payload (turn_completed event) =
    has_turn_companions event.disposition event.message event.revision
is_valid_payload (contract_acknowledged event) = true
is_valid_payload (verification_recorded event) = true
is_valid_payload (mission_terminal event) = has_terminal_cause event
