-- ===== src/Protocol/Coordinator/Verify.antt =====
-- protocol/src/mission-coordinator.ts: recorded verification evidence.
use agent_relay.Prelude.{
  ℕ, ◌+◌, String, Bool, true, false, not, ◌&&◌, ◌||◌, none, some, List, [], ◌∷◌, ◌++◌, ◌==◌, nat_eq,
  string_eq, includes, length, every, any, keep, leb, if◌then◌else◌, Result, ok, err, throw_if,
  ◌>>=◌, ◌>>◌,
}
use agent_relay.Protocol.Schemas.{verifying, mission_status_eq}
use agent_relay.Protocol.Mission.{verification_passed, verification_failed, fail}
use agent_relay.Protocol.Records.{Outcome, passed, failed, artifact_eq}
use agent_relay.Protocol.Coordinator.Events.{
  Event, Payload, VerificationRecorded, event_eq, is_some,
}
use agent_relay.Protocol.Coordinator.State.{
  State, VerificationRecord, Commands, Error, Reason, invalid_event, type_error, commands_of,
  participant_ids,
}
use agent_relay.Protocol.Coordinator.Apply.{move, assert_allowed_artifacts}

abbrev pub is_failed : Outcome → Bool
is_failed failed = true
is_failed passed = false

-- `records.some((record) => record.evidence.command_id === commandId)`
abbrev pub records_command : List VerificationRecord → String → Bool
records_command records command = any (λ r. r.evidence.command_id == command) records

-- `allParticipantCommandsRecorded`
unfoldable pub all_participant_commands_recorded : List String → List VerificationRecord → Bool
all_participant_commands_recorded required records = every (records_command records) required

-- The test of `allRequiredCommandsPassed` on one record.
abbrev pub shows_pass : ℕ → ℕ → String → String → VerificationRecord → Bool
shows_pass version round participant command r =
    r.participant_agent_id == participant
    && r.contract_version == version
    && r.verification_round == round
    && r.evidence.command_id == command
    && not (is_failed r.evidence.outcome)

-- `allRequiredCommandsPassed`, over the participants
unfoldable pub all_passed_of :
    Commands → ℕ → ℕ → List VerificationRecord → List String → Result Error Bool
all_passed_of plan version round records [] = ok true
all_passed_of plan version round records (p ∷ ps) =
    let rest = all_passed_of plan version round records ps in
    elim (commands_of plan p) [
      | none ↦ err type_error
      | some commands ↦
          if every (λ command. any (shows_pass version round p command) records) commands
          then rest
          else ok false
    ]

abbrev pub all_required_commands_passed : State → List VerificationRecord → Result Error Bool
all_required_commands_passed state records =
    all_passed_of state.required_verification_commands state.contract_version
      state.verification_round records (participant_ids state)

-- An applied event that records the evidence of that id.
abbrev pub records_evidence : String → Event → Bool
records_evidence id applied = elim applied.payload [
  | Payload.verification_recorded v ↦ v.evidence.verification_id == id
  | _ ↦ false
]

-- `applyVerificationRecorded`, once every command of the participant has been recorded and passed
unfoldable pub finish_verification : State → List VerificationRecord → Result Error State
finish_verification state records = do
  all_passed ← all_required_commands_passed state records
  if all_passed
      then (do
        status ← move state.status verification_passed
        ok (record state { status = status; verification_records = records }))
      else ok (record state { verification_records = records })

-- `applyVerificationRecorded`, after a failed command. `remainingTurns` may be negative, so the turns
-- used are added on the other side.
unfoldable pub retry_or_fail : State → String → Result Error State
retry_or_fail state id = do
  let can_retry =
      leb (state.turn_count + length (participant_ids state))
        state.mission_context.manifest.max_turns
  status ← move state.status (if can_retry then verification_failed else fail)
  ok (record state {
    status = status;
    current_participant_agent_id = if can_retry then some id else none;
    ready_agent_ids = [];
    verification_records = [];
  })

-- `applyVerificationRecorded`, with the new record in the list
unfoldable pub judge_records :
    State → String → List String → List VerificationRecord → Result Error State
judge_records state id required records =
    let own = keep (λ r. r.participant_agent_id == id) records in
    if not (all_participant_commands_recorded required own)
    then ok (record state { verification_records = records })
    else if any (λ r. is_failed r.evidence.outcome) own
    then retry_or_fail state id
    else finish_verification state records

-- `applyVerificationRecorded`, behind the checks of the phase
unfoldable pub record_verification :
    State → String → VerificationRecorded → List String → Result Error State
record_verification state event_id event required = do
  throw_if (not (includes required event.evidence.command_id))
      (invalid_event Reason.verification_command)
  throw_if
      (any (records_evidence event.evidence.verification_id) state.applied_events
        || any
            (λ r.
              r.participant_agent_id == event.participant_agent_id
              && r.evidence.command_id == event.evidence.command_id)
            state.verification_records)
      (invalid_event Reason.verification_conflict)
  assert_allowed_artifacts state event.evidence.artifacts
  let entry : VerificationRecord = record {
    event_id = event_id;
    participant_agent_id = event.participant_agent_id;
    contract_version = event.contract_version;
    verification_round = event.verification_round;
    evidence = event.evidence;
  }
  judge_records state event.participant_agent_id required
      (state.verification_records ++ (entry ∷ []))

-- `applyVerificationRecorded`
unfoldable pub apply_verification_recorded :
    State → String → VerificationRecorded → Result Error State
apply_verification_recorded state event_id event = do
  throw_if
      (not (state.status == verifying)
        || is_some state.pending_revision
        || is_some state.current_participant_agent_id)
      (invalid_event Reason.not_verifying)
  throw_if (not (event.contract_version == state.contract_version))
      (invalid_event Reason.contract_version)
  throw_if (not (event.verification_round == state.verification_round))
      (invalid_event Reason.verification_round)
  elim (commands_of state.required_verification_commands event.participant_agent_id) [
    | none ↦ err (invalid_event Reason.verification_command)
    | some required ↦ record_verification state event_id event required
  ]
