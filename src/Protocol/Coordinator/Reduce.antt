-- ===== src/Protocol/Coordinator/Reduce.antt =====
-- protocol/src/mission-coordinator.ts: one event against the state, and the replay of a log.
use agent_relay.Prelude.{
  ◌+◌, String, Bool, true, false, not, ◌&&◌, ◌||◌, Option, none, some, List, [], ◌∷◌, ◌++◌, map,
  ◌==◌, nat_eq, string_eq, some_in, every, any, keep, if◌then◌else◌, Result, ok, err, throw_if,
  ◌>>=◌, ◌>>◌,
}
use agent_relay.Protocol.Schemas.{Texts, MissionStatus, completed, expired, mission_status_eq}
use agent_relay.Protocol.Records.{Message, TurnDisposition, VerificationEvidence, artifact_eq}
use agent_relay.Protocol.Coordinator.Events.{
  Event, Payload, event_eq, has_unique_values, is_valid_payload,
}
use agent_relay.Protocol.Coordinator.State.{
  State, Config, Error, Reason, invalid_event, schema_error, create_mission_coordinator_state,
}
use agent_relay.Protocol.Coordinator.Apply.{
  Shapes, apply_mission_terminal, apply_participants_accepted,
}
use agent_relay.Protocol.Coordinator.Turns.{
  is_valid_revision, apply_turn_completed, apply_contract_acknowledged,
}
use agent_relay.Protocol.Coordinator.Verify.{is_failed, apply_verification_recorded}

-- `verificationEvidenceSchema`: the exit code agrees with the outcome.
unfoldable pub is_valid_evidence : VerificationEvidence → Bool
is_valid_evidence e = if is_failed e.outcome then not (e.exit_code == 0) else e.exit_code == 0

-- `messageSchema`: no artifact stands twice.
unfoldable pub is_valid_message : Message → Bool
is_valid_message m = has_unique_values (map (λ a. a.artifact_id) m.artifacts)

abbrev all_evidence_valid : TurnDisposition → Bool
all_evidence_valid (TurnDisposition.ready evidence) = every is_valid_evidence evidence
all_evidence_valid _ = true

abbrev holds_of {ℓ} : {A : Type ℓ} → (A → Bool) → Option A → Bool
holds_of test none = true
holds_of test (some a) = test a

-- The checks of the schemas inside a payload: of a turn's evidence, message and revision, and of
-- recorded evidence.
unfoldable pub are_valid_parts : Shapes → Payload → Bool
are_valid_parts shapes (Payload.turn_completed event) =
    all_evidence_valid event.disposition
    && holds_of is_valid_message event.message
    && holds_of (is_valid_revision shapes) event.revision
are_valid_parts shapes (Payload.verification_recorded event) = is_valid_evidence event.evidence
are_valid_parts shapes _ = true

-- `missionCoordinatorEventSchema.parse`
unfoldable pub parse_event : Shapes → Event → Result Error Event
parse_event shapes event = do
  throw_if
      (not (shapes.has_event_shape event)
        || not (are_valid_parts shapes event.payload)
        || not (is_valid_payload event.payload))
      schema_error
  ok event

-- The identity by which a replay is recognised.
unfoldable pub same_identity : Event → Event → Bool
same_identity event applied =
    applied.event_id == event.event_id || applied.idempotency_key == event.idempotency_key

-- `findReplay`
abbrev pub single_match : List Event → Result Error (Option Event)
single_match [] = ok none
single_match (m ∷ []) = ok (some m)
single_match (m ∷ n ∷ rest) = err (invalid_event Reason.event_identity_conflict)

unfoldable pub find_replay : State → Event → Result Error (Option Event)
find_replay state event = single_match (keep (same_identity event) state.applied_events)

-- `isTerminal`
abbrev pub is_terminal : MissionStatus → Bool
is_terminal status =
    status == completed
    || status == MissionStatus.cancelled
    || status == expired
    || status == MissionStatus.failed

abbrev pub delivery_of_turn : Payload → Option String
delivery_of_turn (Payload.turn_completed t) = some t.delivery_id
delivery_of_turn _ = none

-- A turn of the same delivery has been applied before.
unfoldable pub has_delivery_conflict : State → Payload → Bool
has_delivery_conflict state payload = elim (delivery_of_turn payload) [
  | none ↦ false
  | some id ↦ any (λ applied. some_in (delivery_of_turn applied.payload) id) state.applied_events
]

-- The dispatch of `reduceMissionCoordinatorEvent`
unfoldable pub apply_payload : Shapes → State → Event → Payload → Result Error State
apply_payload shapes state event (Payload.participants_accepted p) =
    apply_participants_accepted state p
apply_payload shapes state event (Payload.turn_completed p) =
    apply_turn_completed state event.mission_id p
apply_payload shapes state event (Payload.contract_acknowledged p) =
    apply_contract_acknowledged shapes state p
apply_payload shapes state event (Payload.verification_recorded p) =
    apply_verification_recorded state event.event_id p
apply_payload shapes state event (Payload.mission_terminal p) = apply_mission_terminal state p

-- The end of `reduceMissionCoordinatorEvent`: the event goes into the log.
abbrev pub log_event : Event → State → State
log_event event reduced = record reduced {
  sequence_no = event.sequence_no;
  applied_events = reduced.applied_events ++ (event ∷ []);
}

-- `reduceMissionCoordinatorEvent`, for an event that is no replay
unfoldable pub apply_fresh : Shapes → State → Event → Result Error State
apply_fresh shapes state event = do
  throw_if (not (event.mission_id == state.mission_context.manifest.mission_id))
      (invalid_event Reason.mission_mismatch)
  throw_if (not (event.sequence_no == state.sequence_no + 1)) (invalid_event Reason.sequence)
  throw_if (is_terminal state.status) (invalid_event Reason.terminal)
  throw_if (has_delivery_conflict state event.payload) (invalid_event Reason.delivery_conflict)
  reduced ← apply_payload shapes state event event.payload
  ok (log_event event reduced)

-- `reduceMissionCoordinatorEvent`, when the look for a replay has been made
unfoldable pub apply_or_replay : Shapes → State → Event → Option Event → Result Error State
apply_or_replay shapes state event none = apply_fresh shapes state event
apply_or_replay shapes state event (some replay) =
    if replay == event then ok state else err (invalid_event Reason.event_identity_conflict)

-- `reduceMissionCoordinatorEvent`
unfoldable pub reduce_mission_coordinator_event : Shapes → State → Event → Result Error State
reduce_mission_coordinator_event shapes state input = do
  event ← parse_event shapes input
  replay ← find_replay state event
  apply_or_replay shapes state event replay

-- The loop of `replayMissionCoordinatorEvents`
unfoldable pub replay_from : Shapes → State → List Event → Result Error State
replay_from shapes state [] = ok state
replay_from shapes state (e ∷ es) = do
  next ← reduce_mission_coordinator_event shapes state e
  replay_from shapes next es

-- `replayMissionCoordinatorEvents`
unfoldable pub replay_mission_coordinator_events :
    Texts → Shapes → Config → List Event → Result Error State
replay_mission_coordinator_events texts shapes config events = do
  state ← create_mission_coordinator_state texts config
  replay_from shapes state events
