-- ===== src/Protocol/Coordinator/Tests.antt =====
-- A Mission from its creation to its completion.
use agent_relay.Prelude.{
  ℕ, ◌≤◌, String, true, ◌≡◌, refl, none, some, List, [], ◌∷◌, arith, Result, ok, err,
  String-discrete, ℕ_discrete, any, includes, string_eq,
}
use agent_relay.Prelude.Decimal.{of_decimal}
use agent_relay.Protocol.Schemas.{Texts, completed}
use agent_relay.Protocol.Mission.{transition_mission_status}
use agent_relay.Protocol.Records.{
  ArtifactRef, Participant, MissionManifest, VerificationEvidence, TurnDisposition, passed,
  ArtifactRef-discrete,
}
use agent_relay.Protocol.Coordinator.Events.{
  Event, Payload, TurnCompleted, VerificationRecorded, set_size, has_unique_values,
  has_turn_companions, is_valid_payload,
}
use agent_relay.Protocol.Coordinator.State.{
  State, Config, Error, commands_of, same_string_set, is_valid_manifest, is_valid_config,
  commands_by_participant, create_mission_coordinator_state, participant_ids, is_valid_state,
}
use agent_relay.Protocol.Coordinator.Apply.{
  Shapes, move, assert_allowed_artifacts, other_of, apply_participants_accepted, apply_ready,
}
use agent_relay.Protocol.Coordinator.Turns.{apply_disposition, close_used_up, apply_turn_completed}
use agent_relay.Protocol.Coordinator.Verify.{
  shows_pass, all_participant_commands_recorded, all_passed_of, finish_verification, judge_records,
  record_verification, apply_verification_recorded,
}
use agent_relay.Protocol.Coordinator.Reduce.{
  is_valid_evidence, are_valid_parts, parse_event, same_identity, find_replay,
  has_delivery_conflict, apply_payload, apply_fresh, apply_or_replay, is_terminal,
  reduce_mission_coordinator_event, replay_from, replay_mission_coordinator_events,
}
use agent_relay.Protocol.Coordinator.Pair.{IsPair}
use agent_relay.Protocol.Coordinator.Phase.{Phase}
use agent_relay.Protocol.Coordinator.Log.{reduce-idempotent}
use agent_relay.Protocol.Coordinator.Replay.{replay-applied_events, reduce-terminal}
use agent_relay.Protocol.Coordinator.Missions.{replay-Phase}
use agent_relay.Protocol.Coordinator.Completion.{replay-completed}
use agent_relay.Protocol.Coordinator.Validity.{replay-is_valid_state}

abbrev pub texts : Texts
texts = record {
  is_uuid = λ s. true;
  is_iso_timestamp = λ s. true;
  date_parse = λ s. some (of_decimal s);
}

abbrev pub shapes : Shapes
shapes = record { has_event_shape = λ e. true; has_revision_shape = λ r. true }

abbrev pub contract : ArtifactRef
contract = record {
  artifact_id = "c";
  type = "openapi";
  version = 1;
  sha256 = "";
  media_type = "text";
  byte_size = 1;
}

abbrev pub member : String → Participant
member id = record {
  agent_id = id;
  role = "";
  workspace_alias = "";
  repository_url = "";
  expected_base_commit = "";
  initial_assignment = "";
  requested_local_policy_profile = "";
}

abbrev pub manifest : MissionManifest
manifest = record {
  mission_id = "m";
  objective = "";
  public_acceptance_criteria = "works" ∷ [];
  participants = member "a" ∷ member "b" ∷ [];
  shared_contract = contract;
  max_turns = 4;
  max_wall_time_seconds = 1;
  token_budget = 1;
  expires_at = "100";
  allowed_artifact_types = "openapi" ∷ [];
  created_at = "10";
}

abbrev pub config : Config
config = record {
  mission_context = record {
    manifest = manifest;
    created_by_principal_id = "o";
    created_by_kind = "owner";
  };
  required_verification_commands = ("a", "test" ∷ []) ∷ ("b", "test" ∷ []) ∷ [];
}

abbrev pub event : String → ℕ → Payload → Event
event id n p = record {
  event_id = id;
  idempotency_key = id;
  mission_id = "m";
  sequence_no = n;
  created_at = "20";
  payload = p;
}

abbrev pub accepted : Event
accepted = event "e1" 1 (
    Payload.participants_accepted
      (record { participant_agent_ids = "b" ∷ "a" ∷ []; contract = contract }))

abbrev pub ready_turn : String → String → TurnCompleted
ready_turn id delivery = record {
  participant_agent_id = id;
  delivery_id = delivery;
  contract_version = 1;
  disposition = TurnDisposition.ready [];
  message = none;
  revision = none;
}

abbrev pub evidence : String → VerificationEvidence
evidence id = record {
  verification_id = id;
  command_id = "test";
  outcome = passed;
  exit_code = 0;
  duration_ms = 1;
  summary = "";
  output_sha256 = "";
  artifacts = [];
  recorded_at = "30";
}

abbrev verified : String → String → VerificationRecorded
verified id v = record {
  participant_agent_id = id;
  delivery_id = "d";
  contract_version = 1;
  verification_round = 1;
  evidence = evidence v;
}

abbrev last_event : Event
last_event = event "e5" 5 (Payload.verification_recorded (verified "b" "v2"))

abbrev early : List Event
early =
    accepted
    ∷ event "e2" 2 (Payload.turn_completed (ready_turn "a" "d1"))
    ∷ event "e3" 3 (Payload.turn_completed (ready_turn "b" "d2"))
    ∷ event "e4" 4 (Payload.verification_recorded (verified "a" "v1"))
    ∷ []

abbrev events : List Event
events =
    accepted
    ∷ event "e2" 2 (Payload.turn_completed (ready_turn "a" "d1"))
    ∷ event "e3" 3 (Payload.turn_completed (ready_turn "b" "d2"))
    ∷ event "e4" 4 (Payload.verification_recorded (verified "a" "v1"))
    ∷ last_event
    ∷ []

abbrev result_or : Result Error State → State → State
result_or (ok s) other = s
result_or (err e) other = other

abbrev blank : State
blank = record {
  mission_context = config.mission_context;
  required_verification_commands = [];
  status = completed;
  sequence_no = 0;
  turn_count = 0;
  contract_version = 0;
  verification_round = 0;
  active_contract = contract;
  pending_revision = none;
  accepted_revisions = [];
  current_participant_agent_id = none;
  ready_agent_ids = [];
  verification_records = [];
  messages = [];
  applied_events = [];
}

abbrev before_last : State
before_last = result_or (replay_mission_coordinator_events texts shapes config early) blank

abbrev final : State
final = result_or (replay_mission_coordinator_events texts shapes config events) blank

-- The whole coordinator, opened.
run_all : List Event → Result Error State
unfolding replay_mission_coordinator_events replay_from reduce_mission_coordinator_event parse_event
    are_valid_parts is_valid_evidence is_valid_payload has_unique_values set_size
    has_turn_companions find_replay same_identity apply_or_replay apply_fresh has_delivery_conflict
    apply_payload apply_participants_accepted same_string_set ArtifactRef-discrete String-discrete
    ℕ_discrete move transition_mission_status apply_turn_completed apply_disposition apply_ready
    assert_allowed_artifacts other_of close_used_up apply_verification_recorded record_verification
    judge_records all_participant_commands_recorded finish_verification all_passed_of commands_of
    create_mission_coordinator_state is_valid_config is_valid_manifest commands_by_participant
    of_decimal
run_all es = replay_mission_coordinator_events texts shapes config es

events_ok : replay_mission_coordinator_events texts shapes config events ≡ ok final
unfolding run_all
events_ok = refl

final_completed : final.status ≡ completed
unfolding run_all
final_completed = refl

final_terminal : is_terminal final.status ≡ true
unfolding run_all
final_terminal = refl

last_event_ok : reduce_mission_coordinator_event shapes before_last last_event ≡ ok final
unfolding run_all
last_event_ok = refl

two_participants : IsPair "a" "b"
two_participants = record {
  distinct = refl;
  distinct_back = refl;
  named_first = refl;
  named_second = refl;
}

reduce-idempotent_example : reduce_mission_coordinator_event shapes final last_event ≡ ok final
reduce-idempotent_example = reduce-idempotent shapes before_last final last_event last_event_ok

replay-applied_events_example :
    replay_mission_coordinator_events texts shapes config final.applied_events ≡ ok final
replay-applied_events_example =
    replay-applied_events texts shapes config events {s = final} events_ok

reduce-terminal_example : final ≡ final
reduce-terminal_example =
    reduce-terminal shapes final final last_event final_terminal reduce-idempotent_example

replay-Phase_example : Phase "a" "b" 4 final × (final.turn_count ≤ 4)
replay-Phase_example =
    replay-Phase texts shapes config events "a" "b" {s = final} refl two_participants (omega arith)
      events_ok

plan_of_b : commands_of final.required_verification_commands "b" ≡ some ("test" ∷ [])
unfolding run_all
plan_of_b = refl

b_takes_part : includes (participant_ids final) "b" ≡ true
unfolding run_all
b_takes_part = refl

replay-completed_example :
    any
      (shows_pass final.contract_version final.verification_round "b" "test")
      final.verification_records
    ≡ true
replay-completed_example =
    replay-completed texts shapes config events {s = final} events_ok final_completed "b" "test"
      ("test" ∷ []) b_takes_part plan_of_b refl

replay-is_valid_state_example : is_valid_state final ≡ true
replay-is_valid_state_example =
    replay-is_valid_state texts shapes config events "a" "b" {s = final} refl two_participants
      (omega arith) events_ok
