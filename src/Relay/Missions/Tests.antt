-- ===== src/Relay/Missions/Tests.antt =====
-- Missions at concrete inputs: the end of one, a result, and a completion.
use agent_relay.Prelude.{
  List, true, false, leb, arith, ◌≡◌, refl, none, some, [], ◌∷◌, Result, ok, err, String-discrete,
  ℕ_discrete,
}
use agent_relay.Prelude.Decimal.{to_decimal, of_decimal}
use agent_relay.Protocol.Schemas.{turn, verification, active, executing}
use agent_relay.Protocol.Records.{ArtifactRef-discrete}
use agent_relay.Protocol.Mission.{transition_mission_status}
use agent_relay.Protocol.Coordinator.Events.{
  Event, Payload, has_turn_companions, Event-discrete, is_valid_payload, has_unique_values,
  set_size,
}
use agent_relay.Protocol.Coordinator.State.{
  State, commands_of, same_string_set, is_valid_manifest, is_valid_config, commands_by_participant,
  create_mission_coordinator_state,
}
use agent_relay.Protocol.Coordinator.Apply.{
  move, apply_participants_accepted, apply_ready, other_of, assert_allowed_artifacts,
}
use agent_relay.Protocol.Coordinator.Reduce.{
  is_valid_evidence, are_valid_parts, parse_event, same_identity, find_replay,
  has_delivery_conflict, apply_payload, apply_fresh, apply_or_replay,
  reduce_mission_coordinator_event, replay_from, replay_mission_coordinator_events,
}
use agent_relay.Protocol.Coordinator.Tests.{
  texts, shapes, contract, config, accepted, event, evidence, ready_turn,
}
use agent_relay.Protocol.Coordinator.Turns.{apply_disposition, close_used_up, apply_turn_completed}
use agent_relay.Protocol.Coordinator.Pair.{IsPair}
use agent_relay.Relay.Ledger.Guards.{
  assert_mission_trust, assert_trust, distinct, some_blocked, count,
}
use agent_relay.Relay.Missions.Targets.{Target, derive_targets, work_targets, should_settle_source}
use agent_relay.Relay.Missions.Derived.{derive_targets-total}
use agent_relay.Relay.Missions.Work.{Work}
use agent_relay.Relay.Missions.Sources.{
  Source, source_of, assert_source, check_source, is_assigned, is_available,
}
use agent_relay.Relay.Missions.Append.{
  AppendInput, settle_rows, settle_source, node_of, last_delivery, insert_target, insert_targets,
  current_state, write_result, append_from, append_result,
}
use agent_relay.Protocol.Records.{TurnDisposition}
use agent_relay.Relay.Ledger.Rules.{Context, assert_runnable, assert_lease_authority}
use agent_relay.Relay.Missions.Completion.{
  CompleteInput, CompletionResult, verification_result, build_completion_events, parse_completion,
  verification_events, verification_payloads, evidence_for,
}
use agent_relay.Relay.Missions.Complete.{
  complete_delivery, publish, acknowledge_source, acknowledge_rows, is_published, cancel_siblings,
  is_superseded,
}
use agent_relay.Relay.Missions.Evidence.{records, AreExact, build_completion_events-exact}
use agent_relay.Relay.Missions.Completed.{IsCompleted, complete_delivery-completes}
use agent_relay.Relay.Missions.Appended.{IsAppended, append_result-projected}
use agent_relay.Relay.Errors.{Error}
use agent_relay.Relay.Ledger.Row.{
  Row, is_valid_row, has_valid_kind, has_valid_attempts, has_valid_lease, has_valid_end,
}
use agent_relay.Relay.Missions.Store.{
  Store, State-discrete, MissionContext-discrete, MissionStatus-discrete,
}
use agent_relay.Relay.Missions.Reconcile.{ReconciliationResult, unchanged, reconcile}
use agent_relay.Relay.Missions.Ends.{IsProjected, AreValid}

abbrev begun : State
begun = record {
  mission_context = config.mission_context;
  required_verification_commands = config.required_verification_commands;
  status = active;
  sequence_no = 1;
  turn_count = 0;
  contract_version = 1;
  verification_round = 0;
  active_contract = contract;
  pending_revision = none;
  accepted_revisions = [];
  current_participant_agent_id = some "a";
  ready_agent_ids = [];
  verification_records = [];
  messages = [];
  applied_events = accepted ∷ [];
}

-- The first turn, which is being executed.
abbrev first_turn : Row
first_turn = record {
  id = "d1";
  node_id = "n";
  mission_id = "m";
  mission_event_id = "e1";
  kind = turn;
  cursor = 1;
  status = executing;
  attempt_count = 1;
  max_attempts = 5;
  last_fencing_token = "1";
  active_lease_id = some "l";
  lease_expires_at = some 200;
  contract_version = 1;
  verification_round = none;
  idempotency_key = "k";
  causal_parent_delivery_id = none;
  settled_by_event_id = none;
  settled_at = none;
  available_at = 20;
  acknowledged_at = none;
  cancelled_at = none;
  cancellation_reason = none;
  dead_lettered_at = none;
  created_at = 20;
  updated_at = 30;
}

abbrev store : Store
store = record {
  mission = record {
    id = "m";
    config = config;
    state = begun;
    status = active;
    last_event_sequence = 1;
    contract_version = 1;
    expires_at = 100;
  };
  events = accepted ∷ [];
  deliveries = first_turn ∷ [];
  receipts = [];
}

store-IsProjected : IsProjected texts shapes store
unfolding replay_mission_coordinator_events create_mission_coordinator_state is_valid_config
    is_valid_manifest commands_by_participant commands_of same_string_set has_unique_values set_size
    replay_from reduce_mission_coordinator_event parse_event are_valid_parts is_valid_payload
    find_replay same_identity apply_or_replay apply_fresh has_delivery_conflict apply_payload
    apply_participants_accepted move transition_mission_status of_decimal String-discrete ℕ_discrete
    ArtifactRef-discrete
store-IsProjected = (refl, refl, refl)

store-AreValid : AreValid store
unfolding is_valid_row has_valid_kind has_valid_attempts has_valid_lease has_valid_end to_decimal
store-AreValid = refl

abbrev outcome_or :
    Result Error (Store × ReconciliationResult)
    → Store × ReconciliationResult
    → Store × ReconciliationResult
outcome_or (ok outcome) other = outcome
outcome_or (err fault) other = other

-- The reconciliation after the deadline.
abbrev outcome : Store × ReconciliationResult
outcome = outcome_or (reconcile texts shapes to_decimal store "e2" 150) (store, unchanged store)

-- The participant with the first turn is ready, and the other has the next.
abbrev ready_event : Event
ready_event = event "e2" 2 (Payload.turn_completed (ready_turn "a" "d1"))

abbrev second : State
second = record begun {
  current_participant_agent_id = some "b";
  ready_agent_ids = "a" ∷ [];
  turn_count = 1;
  sequence_no = 2;
  applied_events = accepted ∷ ready_event ∷ [];
}

a_and_b-IsPair : IsPair "a" "b"
a_and_b-IsPair = record {
  distinct = refl;
  distinct_back = refl;
  named_first = refl;
  named_second = refl;
}

second_ok : reduce_mission_coordinator_event shapes begun ready_event ≡ ok second
unfolding reduce_mission_coordinator_event parse_event are_valid_parts is_valid_payload
    has_turn_companions has_unique_values set_size find_replay same_identity apply_or_replay
    apply_fresh has_delivery_conflict apply_payload apply_turn_completed apply_disposition
    apply_ready assert_allowed_artifacts other_of close_used_up move transition_mission_status
    same_string_set String-discrete ℕ_discrete ArtifactRef-discrete
second_ok = refl

derive_targets-total_example :
    (targets : List Target) × (derive_targets begun second ready_event ≡ ok targets)
    × Work "a" "b" begun second ready_event.payload targets
derive_targets-total_example =
    derive_targets-total texts shapes config (accepted ∷ []) ready_event "a" "b" {previous = begun}
      {next = second} refl a_and_b-IsPair (omega arith) (store-IsProjected.0) refl second_ok

-- The result of the first turn, which arrives before the deadline.
abbrev input : AppendInput
input = record {
  actor_agent_id = "a";
  idempotency_key = "r1";
  payload = ready_event.payload;
  authorization = record {
    status = executing;
    node_id = some "n";
    lease_id = some "l";
    fencing_token = some "1";
  };
  recorded_at = 40;
  inserted_at = 39;
  created_by_agent_id = "a";
  blocks = [];
  assignments =
      record { agent_id = "a"; node_id = "n"; status = "accepted" }
      ∷ record { agent_id = "b"; node_id = "n2"; status = "accepted" }
      ∷ [];
  event_id = "e2";
  delivery_ids = λ index. "d2";
  next_cursor = 7;
}

abbrev appended_or : Result Error Store → Store → Store
appended_or (ok left) other = left
appended_or (err fault) other = other

abbrev appended : Store
appended = appended_or (append_result texts shapes to_decimal store input) store

appended_ok : append_result texts shapes to_decimal store input ≡ ok appended
unfolding append_result append_from assert_mission_trust assert_trust distinct some_blocked count
    current_state write_result assert_source check_source is_assigned is_available settle_source
    settle_rows should_settle_source derive_targets work_targets node_of last_delivery insert_target
    insert_targets is_valid_row has_valid_kind has_valid_attempts has_valid_lease has_valid_end
    replay_mission_coordinator_events create_mission_coordinator_state is_valid_config
    is_valid_manifest commands_by_participant commands_of same_string_set replay_from
    apply_participants_accepted reduce_mission_coordinator_event parse_event are_valid_parts
    is_valid_payload has_turn_companions has_unique_values set_size find_replay same_identity
    apply_or_replay apply_fresh has_delivery_conflict apply_payload apply_turn_completed
    apply_disposition apply_ready assert_allowed_artifacts other_of close_used_up move
    transition_mission_status to_decimal of_decimal State-discrete MissionContext-discrete
    MissionStatus-discrete Event-discrete String-discrete ℕ_discrete ArtifactRef-discrete
appended_ok = refl

append_result-projected_example :
    (leb store.mission.expires_at input.recorded_at ≡ false)
    × (assert_mission_trust input.created_by_agent_id
          store.mission.config.mission_context.manifest.participants input.blocks
        ≡ ok tt)
    × ((source : Source) × (source_of input.payload ≡ some source)
        × IsAppended texts shapes to_decimal store input source appended)
append_result-projected_example =
    append_result-projected texts shapes to_decimal store input store-AreValid appended_ok

-- The context of the first turn, and its completion.
abbrev locked : Context
locked = record {
  delivery = first_turn;
  mission_status = active;
  mission_expires_at = 100;
  participant_status = "accepted";
  workspace_status = "active";
}

abbrev completion : CompleteInput
completion = record {
  agent_id = "a";
  node_id = "n";
  authority = record { lease_id = "l"; fencing_token = "1" };
  result = CompletionResult.turn_result (TurnDisposition.ready []);
  created_by_agent_id = "a";
  blocks = [];
  assignments = input.assignments;
  message_id = "m1";
  message_key = "message:1";
  revision_id = "r1";
  revision_key = "revision:1";
  event_keys = λ index. "e2";
  event_ids = λ index. "e2";
  delivery_ids = λ event index. "d2";
  next_cursors = λ index. 7;
  inserted_at = 39;
}

abbrev completed : Store
completed =
    appended_or
      (complete_delivery texts shapes to_decimal (λ payload. true) store locked completion 40) store

completed_ok :
    complete_delivery texts shapes to_decimal (λ payload. true) store locked completion 40
    ≡ ok completed
unfolding complete_delivery assert_runnable assert_lease_authority build_completion_events
    parse_completion publish acknowledge_source acknowledge_rows is_published cancel_siblings
    is_superseded append_result append_from assert_mission_trust assert_trust distinct some_blocked
    count current_state write_result assert_source check_source is_assigned is_available
    settle_source settle_rows should_settle_source derive_targets work_targets node_of last_delivery
    insert_target insert_targets is_valid_row has_valid_kind has_valid_attempts has_valid_lease
    has_valid_end replay_mission_coordinator_events create_mission_coordinator_state is_valid_config
    is_valid_manifest commands_by_participant commands_of same_string_set replay_from
    apply_participants_accepted reduce_mission_coordinator_event parse_event are_valid_parts
    is_valid_payload has_turn_companions has_unique_values set_size find_replay same_identity
    apply_or_replay apply_fresh has_delivery_conflict apply_payload apply_turn_completed
    apply_disposition apply_ready assert_allowed_artifacts other_of close_used_up move
    transition_mission_status to_decimal of_decimal State-discrete MissionContext-discrete
    MissionStatus-discrete Event-discrete String-discrete ℕ_discrete ArtifactRef-discrete
completed_ok = refl

complete_delivery-completes_example :
    (assert_lease_authority first_turn completion.authority 40 ≡ ok tt)
    × ((payloads : List Payload) × (build_completion_events shapes
            (λ payload. true)
            to_decimal
            begun
            first_turn
            completion
            40
          ≡ ok payloads)
        × IsCompleted texts shapes to_decimal store first_turn payloads completed)
complete_delivery-completes_example =
    complete_delivery-completes texts shapes to_decimal (λ payload. true) store locked completion 40
      store-IsProjected store-AreValid completed_ok

-- A verification with the evidence of the one command that is required.
abbrev checks : Row
checks = record first_turn { kind = verification; verification_round = some 1 }

abbrev verified : CompleteInput
verified = record completion { result = verification_result (evidence "v1" ∷ []) }

abbrev recorded : List Payload
recorded = records checks verified 1 (evidence "v1") ∷ []

recorded_ok :
    build_completion_events shapes (λ payload. true) to_decimal begun checks verified 40
    ≡ ok recorded
unfolding build_completion_events verification_events verification_payloads parse_completion
    evidence_for commands_of set_size are_valid_parts is_valid_payload is_valid_evidence
recorded_ok = refl

build_completion_events-exact_example :
    AreExact shapes
      (λ payload. true)
      to_decimal
      checks
      verified
      (evidence "v1" ∷ [])
      recorded
      (some 1)
      (commands_of begun.required_verification_commands "a")
build_completion_events-exact_example =
    build_completion_events-exact shapes (λ payload. true) to_decimal begun checks verified 40
      (evidence "v1" ∷ []) refl recorded_ok
