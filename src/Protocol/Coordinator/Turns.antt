-- ===== src/Protocol/Coordinator/Turns.antt =====
-- protocol/src/mission-coordinator.ts: completed turns and acknowledged revisions.
use agent_relay.Prelude.{
  ◌+◌, String, Bool, not, ◌&&◌, ◌||◌, none, some, [], ◌∷◌, ◌++◌, ◌==◌, nat_eq, string_eq, includes,
  some_in, leb, if◌then◌else◌, Result, ok, err, throw_if, ◌>>=◌, ◌>>◌,
}
use agent_relay.Protocol.Schemas.{active, mission_status_eq}
use agent_relay.Protocol.Mission.{fail}
use agent_relay.Protocol.Records.{ContractRevision, TurnDisposition, artifact_eq}
use agent_relay.Protocol.Coordinator.Events.{
  TurnCompleted, ContractAcknowledged, event_eq, has_unique_values, is_some,
}
use agent_relay.Protocol.Coordinator.State.{
  State, Error, Reason, invalid_event, schema_error, participant_ids, same_string_set,
}
use agent_relay.Protocol.Coordinator.Apply.{
  Shapes, move, other_participant, apply_reply, apply_contract_proposal, apply_ready,
}

-- `applyTurnCompleted`: the choice by disposition
unfoldable pub apply_disposition :
    State → String → TurnCompleted → TurnDisposition → Result Error State
apply_disposition state mission_id event (TurnDisposition.reply type body artifacts) =
    apply_reply state mission_id event type body artifacts
apply_disposition state mission_id event (TurnDisposition.propose_contract artifact) =
    apply_contract_proposal state mission_id event artifact
apply_disposition state mission_id event (TurnDisposition.ready evidence) =
    apply_ready state event evidence
apply_disposition state mission_id event (TurnDisposition.blocked reason input) =
    err (invalid_event Reason.unsupported_disposition)
apply_disposition state mission_id event (TurnDisposition.failed class) =
    err (invalid_event Reason.unsupported_disposition)

-- `applyTurnCompleted`: the failure of a Mission whose turns are used up
unfoldable pub close_used_up : State → Result Error State
close_used_up reduced =
    if reduced.status == active && leb reduced.mission_context.manifest.max_turns reduced.turn_count
    then (do
      status ← move reduced.status fail
      ok (record reduced {
        status = status;
        pending_revision = none;
        current_participant_agent_id = none;
        ready_agent_ids = [];
        verification_records = [];
      }))
    else ok reduced

-- `applyTurnCompleted`
unfoldable pub apply_turn_completed : State → String → TurnCompleted → Result Error State
apply_turn_completed state mission_id event = do
  throw_if
      (not (state.status == active)
        || is_some state.pending_revision
        || not (is_some state.current_participant_agent_id))
      (invalid_event Reason.turn_not_scheduled)
  throw_if (not (some_in state.current_participant_agent_id event.participant_agent_id))
      (invalid_event Reason.turn_participant)
  throw_if (not (event.contract_version == state.contract_version))
      (invalid_event Reason.contract_version)
  throw_if (leb state.mission_context.manifest.max_turns state.turn_count)
      (invalid_event Reason.turn_limit)
  reduced ←
      apply_disposition (record state { turn_count = state.turn_count + 1 }) mission_id event
        event.disposition
  close_used_up reduced

-- `contractRevisionSchema`
unfoldable pub is_valid_revision : Shapes → ContractRevision → Bool
is_valid_revision shapes revision =
    shapes.has_revision_shape revision
    && revision.version == revision.previous_version + 1
    && revision.artifact.version == revision.version
    && has_unique_values revision.acknowledged_by_agent_ids

-- `applyContractAcknowledged`, behind the checks of the event
unfoldable pub accept_acknowledged : State → ContractRevision → Result Error State
accept_acknowledged state acknowledged =
    if same_string_set acknowledged.acknowledged_by_agent_ids (participant_ids state)
    then (do
      other ← other_participant state acknowledged.proposed_by_agent_id
      ok (record state {
        contract_version = acknowledged.version;
        active_contract = acknowledged.artifact;
        pending_revision = none;
        accepted_revisions = state.accepted_revisions ++ (acknowledged ∷ []);
        current_participant_agent_id = some other;
        ready_agent_ids = [];
        verification_records = [];
      }))
    else ok (record state { pending_revision = some acknowledged })

unfoldable pub acknowledge_pending :
    Shapes → State → ContractAcknowledged → ContractRevision → Result Error State
acknowledge_pending shapes state event pending = do
  throw_if (not (state.status == active) || is_some state.current_participant_agent_id)
      (invalid_event Reason.no_pending_revision)
  throw_if (not (includes (participant_ids state) event.participant_agent_id))
      (invalid_event Reason.acknowledgement_participant)
  throw_if
      (not (event.revision_id == pending.revision_id)
        || not (event.contract_version == pending.version)
        || not (event.artifact == pending.artifact))
      (invalid_event Reason.acknowledgement_revision)
  throw_if (includes pending.acknowledged_by_agent_ids event.participant_agent_id)
      (invalid_event Reason.duplicate_acknowledgement)
  let acknowledged = record pending {
    acknowledged_by_agent_ids =
        pending.acknowledged_by_agent_ids ++ (event.participant_agent_id ∷ []);
  }
  throw_if (not (is_valid_revision shapes acknowledged)) schema_error
  accept_acknowledged state acknowledged

-- `applyContractAcknowledged`
unfoldable pub apply_contract_acknowledged :
    Shapes → State → ContractAcknowledged → Result Error State
apply_contract_acknowledged shapes state event = elim state.pending_revision [
  | none ↦ err (invalid_event Reason.no_pending_revision)
  | some pending ↦ acknowledge_pending shapes state event pending
]
