-- ===== src/Relay/Missions/Targets.antt =====
-- relay/src/services/mission-ledger.ts: the deliveries that an event gives rise to, and whether it
-- settles its own.
use agent_relay.Prelude.{
  ℕ, String, Bool, true, false, not, ◌&&◌, Option, none, some, List, [], ◌∷◌, map, ◌==◌, nat_eq,
  string_eq, any, every, if◌then◌else◌, Result, ok, err,
}
use agent_relay.Protocol.Schemas.{
  active, verifying, failed, mission_status_eq, DeliveryKind, turn, verification,
  contract_acknowledgement,
}
use agent_relay.Protocol.Records.{TurnDisposition, Participant}
use agent_relay.Protocol.Coordinator.Events.{Event, Payload, VerificationRecorded}
use agent_relay.Protocol.Coordinator.State.{State, VerificationRecord, commands_of}
use agent_relay.Protocol.Coordinator.Verify.{is_failed}
use agent_relay.Relay.Errors.{Error, relay_error, internal}

-- What `deriveDeliveryTargets` gives.
pub record Target : Type 0 where
  pub agent_id : String
  pub kind : DeliveryKind
  pub contract_version : ℕ
  pub verification_round : Option ℕ

abbrev pub proposes : TurnDisposition → Bool
proposes (TurnDisposition.propose_contract artifact) = true
proposes disposition = false

-- `event.type === "turn_completed" && event.disposition.kind === "propose_contract"`
abbrev pub proposes_contract : Payload → Bool
proposes_contract (Payload.turn_completed t) = proposes t.disposition
proposes_contract payload = false

abbrev pub acknowledgement_of : ℕ → Participant → Target
acknowledgement_of version p = record {
  agent_id = p.agent_id;
  kind = contract_acknowledgement;
  contract_version = version;
  verification_round = none;
}

abbrev pub verification_of : State → Participant → Target
verification_of next p = record {
  agent_id = p.agent_id;
  kind = verification;
  contract_version = next.contract_version;
  verification_round = some next.verification_round;
}

abbrev pub turn_of : State → String → Target
turn_of next agent_id = record {
  agent_id = agent_id;
  kind = turn;
  contract_version = next.contract_version;
  verification_round = none;
}

-- `deriveDeliveryTargets`, behind a contract proposal
unfoldable pub acknowledgement_targets : State → Result Error (List Target)
acknowledgement_targets next = elim next.pending_revision [
  | none ↦ if next.status == failed then ok [] else err (relay_error internal)
  | some revision ↦
      ok (map (acknowledgement_of revision.version) next.mission_context.manifest.participants)
]

-- `deriveDeliveryTargets`, behind any other event
unfoldable pub work_targets : State → State → List Target
work_targets previous next =
    if not (previous.status == verifying) && next.status == verifying
    then map (verification_of next) next.mission_context.manifest.participants
    else (if next.status == active then to_mover next.current_participant_agent_id else [])
  where
    to_mover : Option String → List Target
    to_mover none = []
    to_mover (some agent_id) = turn_of next agent_id ∷ []

-- `deriveDeliveryTargets`
unfoldable pub derive_targets : State → State → Event → Result Error (List Target)
derive_targets previous next event =
    if proposes_contract event.payload
    then acknowledgement_targets next
    else ok (work_targets previous next)

abbrev required_of : Option (List String) → List String
required_of none = []
required_of (some commands) = commands

-- A record that an event of the same participant, contract and round passed a command.
abbrev pub passes_for : VerificationRecorded → String → VerificationRecord → Bool
passes_for v command_id r =
    r.participant_agent_id == v.participant_agent_id
    && r.contract_version == v.contract_version
    && r.verification_round == v.verification_round
    && r.evidence.command_id == command_id
    && not (is_failed r.evidence.outcome)

-- `shouldSettleSourceDelivery`, for recorded evidence
unfoldable pub settles_verification : State → VerificationRecorded → Bool
settles_verification next v =
    if next.status == verifying
    then (if is_failed v.evidence.outcome
        then false
        else every (λ id. any (passes_for v id) next.verification_records)
            (required_of (commands_of next.required_verification_commands v.participant_agent_id)))
    else true

-- `shouldSettleSourceDelivery`
unfoldable pub should_settle_source : State → Event → Bool
should_settle_source next event = by_payload event.payload
  where
    by_payload : Payload → Bool
    by_payload (Payload.participants_accepted p) = false
    by_payload (Payload.verification_recorded v) = settles_verification next v
    by_payload payload = true
