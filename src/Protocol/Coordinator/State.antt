-- ===== src/Protocol/Coordinator/State.antt =====
-- protocol/src/mission-coordinator.ts: the coordinator's state, its creation and its validation.
use agent_relay.Prelude.{
  ℕ, suc, ◌+◌, String, Bool, true, not, ◌&&◌, Option, none, some, List, [], ◌∷◌, ◌++◌, map, ◌==◌,
  nat_eq, string_eq, includes, length, every, if◌then◌else◌, Result, ok, err, throw_if, ◌>>=◌, ◌>>◌,
}
use agent_relay.Protocol.Schemas.{Texts, date_not_after, MissionStatus, awaiting_acceptance}
use agent_relay.Protocol.Mission
use agent_relay.Protocol.Records.{
  ArtifactRef, ContractRevision, Message, MissionContext, MissionManifest, Participant,
  VerificationEvidence,
}
use agent_relay.Protocol.Coordinator.Events.{Event, has_unique_values}

-- `missionVerificationRecordSchema`
pub record VerificationRecord : Type 0 where
  pub event_id : String
  pub participant_agent_id : String
  pub contract_version : ℕ
  pub verification_round : ℕ
  pub evidence : VerificationEvidence

-- `Record<string, string[]>`, by its entries
abbrev pub Commands : Type 0
Commands = List (String × List String)

-- `rawMissionCoordinatorStateSchema`
pub record State : Type 0 where
  pub mission_context : MissionContext
  pub required_verification_commands : Commands
  pub status : MissionStatus
  pub sequence_no : ℕ
  pub turn_count : ℕ
  pub contract_version : ℕ
  pub verification_round : ℕ
  pub active_contract : ArtifactRef
  pub pending_revision : Option ContractRevision
  pub accepted_revisions : List ContractRevision
  pub current_participant_agent_id : Option String
  pub ready_agent_ids : List String
  pub verification_records : List VerificationRecord
  pub messages : List Message
  pub applied_events : List Event

-- The reasons of `InvalidMissionCoordinatorEventError`
pub data Reason : Type 0 where
  event_identity_conflict mission_mismatch sequence terminal delivery_conflict : Reason
  terminal_state acceptance_state acceptance_participants acceptance_contract : Reason
  turn_not_scheduled turn_participant contract_version turn_limit unsupported_disposition : Reason
  reply_message_missing reply_message_mismatch message_identity_conflict : Reason
  revision_missing revision_mismatch revision_contract_identity revision_identity_conflict : Reason
  ready_disposition no_pending_revision acknowledgement_participant : Reason
  acknowledgement_revision duplicate_acknowledgement not_verifying verification_round : Reason
  verification_command verification_conflict artifact_type participant : Reason

-- What the coordinator throws: its own error, that of the status machine, a `ZodError` and the
-- `TypeError` of a read through `undefined`.
pub data Error : Type 0 where
  invalid_event : Reason → Error
  invalid_transition : Mission.Error → Error
  schema_error type_error : Error

-- `record[key]`
unfoldable pub commands_of : Commands → String → Option (List String)
commands_of [] key = none
commands_of ((k, v) ∷ rest) key = if k == key then some v else commands_of rest key

abbrev pub agent_of : Participant → String
agent_of p = p.agent_id

-- `missionParticipantIds`
abbrev pub participant_ids : State → List String
participant_ids state = map agent_of state.mission_context.manifest.participants

-- `sameStringSet`
unfoldable pub same_string_set : List String → List String → Bool
same_string_set left right =
    length left == length right && has_unique_values left && every (includes right) left

abbrev pub key_of : String × List String → String
key_of e = e.0

abbrev pub commands_are_unique : String × List String → Bool
commands_are_unique e = has_unique_values e.1

-- `missionCoordinatorConfigSchema`
pub record Config : Type 0 where
  pub mission_context : MissionContext
  pub required_verification_commands : Commands

-- The checks of `missionManifestSchema` that look at several fields, and the two lengths that the
-- coordinator relies on: whether they find no issue.
unfoldable pub is_valid_manifest : Texts → MissionManifest → Bool
is_valid_manifest texts manifest =
    length manifest.participants == 2
    && manifest.shared_contract.version == 1
    && has_unique_values (map agent_of manifest.participants)
    && has_unique_values manifest.public_acceptance_criteria
    && has_unique_values manifest.allowed_artifact_types
    && includes manifest.allowed_artifact_types manifest.shared_contract.type
    && not (date_not_after texts manifest.expires_at manifest.created_at)

-- The checks of `missionCoordinatorConfigSchema`: whether they find no issue.
unfoldable pub is_valid_config : Texts → Config → Bool
is_valid_config texts config =
    is_valid_manifest texts config.mission_context.manifest
    && same_string_set (map agent_of config.mission_context.manifest.participants)
        (map key_of config.required_verification_commands)
    && every commands_are_unique config.required_verification_commands

-- `Object.fromEntries(participants.map(…))`: every participant's commands, in manifest order.
unfoldable pub commands_by_participant : Commands → List String → Result Error Commands
commands_by_participant commands [] = ok []
commands_by_participant commands (p ∷ ps) = elim (commands_of commands p) [
  | none ↦ err type_error
  | some list ↦ do rest ← commands_by_participant commands ps; ok ((p, list) ∷ rest)
]

-- `createMissionCoordinatorState`
unfoldable pub create_mission_coordinator_state : Texts → Config → Result Error State
create_mission_coordinator_state texts config = do
  throw_if (not (is_valid_config texts config)) schema_error
  let manifest = config.mission_context.manifest
  commands ←
      commands_by_participant config.required_verification_commands
        (map agent_of manifest.participants)
  ok (record {
    mission_context = config.mission_context;
    required_verification_commands = commands;
    status = awaiting_acceptance;
    sequence_no = 0;
    turn_count = 0;
    contract_version = manifest.shared_contract.version;
    verification_round = 0;
    active_contract = manifest.shared_contract;
    pending_revision = none;
    accepted_revisions = [];
    current_participant_agent_id = none;
    ready_agent_ids = [];
    verification_records = [];
    messages = [];
    applied_events = [];
  })

-- The loop over `applied_events` of `validateMissionCoordinatorState`, from an index on.
unfoldable pub are_contiguous : String → ℕ → List Event → Bool
are_contiguous mission_id index [] = true
are_contiguous mission_id index (e ∷ es) =
    (e.mission_id == mission_id && e.sequence_no == index + 1)
    && are_contiguous mission_id (suc index) es

abbrev pub option_list {ℓ} : {A : Type ℓ} → Option A → List A
option_list none = []
option_list (some a) = a ∷ []

abbrev pub is_member_or_null : List String → Option String → Bool
is_member_or_null ids none = true
is_member_or_null ids (some id) = includes ids id

-- `validateMissionCoordinatorState`: whether it finds no issue. The bounds of the state's schema on
-- single fields and on the lengths of its lists are not part of it.
unfoldable pub is_valid_state : State → Bool
is_valid_state state =
    let manifest = state.mission_context.manifest in
    let ids = participant_ids state in
    same_string_set ids (map key_of state.required_verification_commands)
    && (state.active_contract.version == state.contract_version
        && includes manifest.allowed_artifact_types state.active_contract.type)
    && is_member_or_null ids state.current_participant_agent_id
    && (has_unique_values state.ready_agent_ids && every (includes ids) state.ready_agent_ids)
    && length state.applied_events == state.sequence_no
    && are_contiguous manifest.mission_id 0 state.applied_events
    && every (λ m. m.mission_id == manifest.mission_id) state.messages
    && every (λ r. r.mission_id == manifest.mission_id)
        (state.accepted_revisions ++ option_list state.pending_revision)
