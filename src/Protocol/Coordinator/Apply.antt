-- ===== src/Protocol/Coordinator/Apply.antt =====
-- protocol/src/mission-coordinator.ts: the `apply…` functions, one for each type of event.
use agent_relay.Prelude.{
  ◌+◌, String, Bool, true, false, not, ◌&&◌, ◌||◌, Option, none, some, List, [], ◌∷◌, ◌++◌, ◌==◌,
  nat_eq, string_eq, includes, option_beq, length, last?, any, find, if◌then◌else◌, Result, ok, err,
  throw_if, ◌>>=◌, ◌>>◌,
}
use agent_relay.Protocol.Schemas.{
  MissionStatus, awaiting_acceptance, active, verifying, mission_status_eq,
}
use agent_relay.Protocol.Mission
use agent_relay.Protocol.Mission.{
  transition_mission_status, participants_ready, verification_passed, verification_failed, expire,
  fail,
}
use agent_relay.Protocol.Records.{
  ArtifactRef, ContractRevision, Message, MessageType, VerificationEvidence, artifact_eq,
  message_type_eq,
}
use agent_relay.Protocol.Coordinator.Events.{
  Event, ParticipantsAccepted, TurnCompleted, MissionTerminal, TerminalStatus,
}
use agent_relay.Protocol.Coordinator.State.{
  State, Error, Reason, invalid_event, participant_ids, same_string_set,
}

-- The schemas' checks of single fields (formats, lengths and ranges), which `zod` makes.
pub record Shapes : Type 0 where
  pub has_event_shape : Event → Bool
  pub has_revision_shape : ContractRevision → Bool

-- `transitionMissionStatus`, whose error the coordinator lets through
abbrev pub to_coordinator : Result Mission.Error MissionStatus → Result Error MissionStatus
to_coordinator (ok status) = ok status
to_coordinator (err e) = err (Error.invalid_transition e)

unfoldable pub move : MissionStatus → Mission.Event → Result Error MissionStatus
move status event = to_coordinator (transition_mission_status status event)

-- `assertAllowedArtifacts`
unfoldable pub assert_allowed_artifacts : State → List ArtifactRef → Result Error (Unit {0})
assert_allowed_artifacts state artifacts =
    throw_if
      (any (λ a. not (includes state.mission_context.manifest.allowed_artifact_types a.type))
        artifacts)
      (invalid_event Reason.artifact_type)

-- `otherParticipant`, over the participants
unfoldable pub other_of : List String → String → Result Error String
other_of ids id = elim (find (λ c. not (c == id)) ids) [
  | none ↦ err (invalid_event Reason.participant)
  | some other ↦ if other == "" then err (invalid_event Reason.participant) else ok other
]

abbrev pub other_participant : State → String → Result Error String
other_participant state id = other_of (participant_ids state) id

-- `applyMissionTerminal`
abbrev terminal_event : TerminalStatus → Mission.Event
terminal_event TerminalStatus.expired = expire
terminal_event TerminalStatus.failed = fail

unfoldable pub apply_mission_terminal : State → MissionTerminal → Result Error State
apply_mission_terminal state event = do
  throw_if (not (state.status == active) && not (state.status == verifying))
      (invalid_event Reason.terminal_state)
  status ← move state.status (terminal_event event.terminal_status)
  ok (record state {
    status = status;
    pending_revision = none;
    current_participant_agent_id = none;
    ready_agent_ids = [];
    verification_records = [];
  })

-- `participantIds[0]!`
abbrev pub head? {ℓ} : {A : Type ℓ} → List A → Option A
head? [] = none
head? (x ∷ xs) = some x

-- `applyParticipantsAccepted`
unfoldable pub apply_participants_accepted : State → ParticipantsAccepted → Result Error State
apply_participants_accepted state event = do
  throw_if (not (state.status == awaiting_acceptance) || not (length state.applied_events == 0))
      (invalid_event Reason.acceptance_state)
  throw_if (not (same_string_set event.participant_agent_ids (participant_ids state)))
      (invalid_event Reason.acceptance_participants)
  throw_if (not (event.contract == state.mission_context.manifest.shared_contract))
      (invalid_event Reason.acceptance_contract)
  status ← move state.status Mission.participants_accepted
  ok (record state {
    status = status;
    current_participant_agent_id = head? (participant_ids state);
  })

abbrev pub artifacts_or_empty : Option (List ArtifactRef) → List ArtifactRef
artifacts_or_empty none = []
artifacts_or_empty (some artifacts) = artifacts

abbrev same_artifacts : List ArtifactRef → List ArtifactRef → Bool
same_artifacts [] [] = true
same_artifacts [] (b ∷ bs) = false
same_artifacts (a ∷ as') [] = false
same_artifacts (a ∷ as') (b ∷ bs) = a == b && same_artifacts as' bs

abbrev message_id_of : Option Message → Option String
message_id_of none = none
message_id_of (some m) = some m.message_id

-- The comparison of a reply with its message.
unfoldable pub message_differs :
    State → String → TurnCompleted → Message → MessageType → String → List ArtifactRef → Bool
message_differs state mission_id event message type body artifacts =
    not (message.mission_id == mission_id)
    || not (message.author_agent_id == event.participant_agent_id)
    || not (message.contract_version == state.contract_version)
    || not (message.type == type)
    || not (message.body == body)
    || not (same_artifacts message.artifacts artifacts)
    || not (message.sequence_no == length state.messages + 1)
    || not (option_beq message.causal_parent_message_id (message_id_of (last? state.messages)))

-- `applyReply`, behind the check that there is a message
unfoldable pub apply_reply_message :
    State
    → String
    → TurnCompleted
    → Message
    → MessageType
    → String
    → List ArtifactRef
    → Result Error State
apply_reply_message state mission_id event message type body artifacts = do
  throw_if (message_differs state mission_id event message type body artifacts)
      (invalid_event Reason.reply_message_mismatch)
  throw_if
      (any (λ m. m.message_id == message.message_id || m.idempotency_key == message.idempotency_key)
        state.messages)
      (invalid_event Reason.message_identity_conflict)
  assert_allowed_artifacts state message.artifacts
  other ← other_participant state event.participant_agent_id
  ok (record state {
    current_participant_agent_id = some other;
    ready_agent_ids = [];
    verification_records = [];
    messages = state.messages ++ (message ∷ []);
  })

unfoldable pub apply_reply :
    State
    → String
    → TurnCompleted
    → MessageType
    → String
    → Option (List ArtifactRef)
    → Result Error State
apply_reply state mission_id event type body artifacts = elim event.message [
  | none ↦ err (invalid_event Reason.reply_message_missing)
  | some message ↦
      apply_reply_message state mission_id event message type body (artifacts_or_empty artifacts)
]

-- The comparison of a proposal with its revision.
unfoldable pub revision_differs :
    State → String → TurnCompleted → ContractRevision → ArtifactRef → Bool
revision_differs state mission_id event revision artifact =
    not (revision.mission_id == mission_id)
    || not (revision.proposed_by_agent_id == event.participant_agent_id)
    || not (revision.previous_version == state.contract_version)
    || not (revision.version == state.contract_version + 1)
    || not (length revision.acknowledged_by_agent_ids == 0)
    || not (revision.artifact == artifact)

-- `applyContractProposal`, behind the check that there is a revision
unfoldable pub apply_proposed_revision :
    State → String → TurnCompleted → ContractRevision → ArtifactRef → Result Error State
apply_proposed_revision state mission_id event revision artifact = do
  throw_if (revision_differs state mission_id event revision artifact)
      (invalid_event Reason.revision_mismatch)
  throw_if
      (not (revision.artifact.artifact_id == state.active_contract.artifact_id)
        || not (revision.artifact.type == state.active_contract.type))
      (invalid_event Reason.revision_contract_identity)
  throw_if
      (any
        (λ r.
          r.revision_id == revision.revision_id || r.idempotency_key == revision.idempotency_key)
        state.accepted_revisions)
      (invalid_event Reason.revision_identity_conflict)
  assert_allowed_artifacts state (revision.artifact ∷ [])
  ok (record state {
    pending_revision = some revision;
    current_participant_agent_id = none;
    ready_agent_ids = [];
    verification_records = [];
  })

unfoldable pub apply_contract_proposal :
    State → String → TurnCompleted → ArtifactRef → Result Error State
apply_contract_proposal state mission_id event artifact = elim event.revision [
  | none ↦ err (invalid_event Reason.revision_missing)
  | some revision ↦ apply_proposed_revision state mission_id event revision artifact
]

-- The artifacts of all evidence: `evidence.flatMap((e) => e.artifacts)`
abbrev pub evidence_artifacts : List VerificationEvidence → List ArtifactRef
evidence_artifacts [] = []
evidence_artifacts (e ∷ es) = e.artifacts ++ evidence_artifacts es

-- `applyReady`
unfoldable pub apply_ready : State → TurnCompleted → List VerificationEvidence → Result Error State
apply_ready state event evidence = do
  assert_allowed_artifacts state (evidence_artifacts evidence)
  let ready = state.ready_agent_ids ++ (event.participant_agent_id ∷ [])
  if same_string_set ready (participant_ids state)
      then (do
        status ← move state.status participants_ready
        ok (record state {
          status = status;
          verification_round = state.verification_round + 1;
          current_participant_agent_id = none;
          ready_agent_ids = ready;
          verification_records = [];
        }))
      else (do
        other ← other_participant state event.participant_agent_id
        ok (record state { current_participant_agent_id = some other; ready_agent_ids = ready }))
