-- ===== src/Node/Capsule/Tests.antt =====
-- Tests of a Capsule's calls (node/src/codex-capsule-store.ts), and the theorems at concrete values.
use agent_relay.Prelude.{
  String-discrete, ℕ_discrete, true, ◌≡◌, ◌≤◌, ◌↔◌, refl, none, some, List, [], ◌∷◌, ok, ◌>>=◌, map,
  length,
}
use agent_relay.Prelude.Decimal.{to_decimal}
use agent_relay.Node.Capsule.Types.{
  Intent, Intent-discrete, HostEvent, SessionRef-discrete, TurnInput-discrete, TurnRef-discrete,
  SessionInput, TurnInput, TurnRef, FailureClass, UsageReason, Usage, Outcome, EventKind, Phase,
  Cancellation, Turn,
}
use agent_relay.Node.Capsule.Stream.{
  create_stream, run_stream, accept_host_event, matches_expected, next_usage, text_bytes,
  artifacts_in, add_artifacts,
}
use agent_relay.Node.Capsule.State.{
  Host, SessionPhase, State, execution_key, lookup, insert, host_turn, assert_same_input,
  require_turn_by_input, require_turn_by_ref, require_ready_session, is_valid_phase,
  is_valid_session, active_turns, are_valid_turns, is_valid_state, is_consistent_state,
  replays_events, have_valid_events,
}
use agent_relay.Node.Capsule.Transitions.{
  claim_session_start, accept_session, new_turn, prepare_turn, claim_start, claim_turn_start,
  bind_turn, accept_turn, append_terminal, cancel_turn, request_cancellation, claim_stop,
  claim_interrupt,
}
use agent_relay.Node.Capsule.Closing.{parse_terminal, close_turn, record_terminal}
use agent_relay.Node.Capsule.Calls.{Call}
use agent_relay.Node.Capsule.Store.{reply_with, transition, mutate, perform, run}
use agent_relay.Node.Capsule.Once.{sends_start, sends_interrupt}
use agent_relay.Node.Capsule.Runs.{count, run-sends_once, run-terminal}
use agent_relay.Node.Capsule.Validity.{check_limits, mutate-transition}
use agent_relay.Node.Capsule.Ends.{record_terminal-again}

abbrev intent_of : TurnInput → Intent
intent_of input = record {
  client_user_message_id = input.delivery_id;
  text = input.objective.text;
  text_sha256 = "text";
  output_schema_sha256 = "schema";
}

abbrev host : Host
host = record {
  digest = λ input. input.delivery_id;
  digest_session = λ scope. scope.mission_id;
  build_intent = λ input. some (intent_of input);
  byte_length = λ text. 1;
  is_disposition = λ disposition. true;
  is_failure = λ failure. true;
}

abbrev scope : SessionInput
scope = record { mission_id = "m"; participant_id = "p"; workspace_alias = "w" }

abbrev input : TurnInput
input = record {
  session = record { scope = scope; session_id = "s" };
  mission_id = "m";
  delivery_id = "d";
  execution_attempt = 1;
  contract_version = 0;
  mission_sequence = 2;
  objective = record { text = "build"; author_principal_id = "o" };
  assignment = record { text = "client"; author_principal_id = "o" };
  acceptance_criteria = [];
  peer_messages = [];
  artifacts = [];
}

abbrev ref : TurnRef
ref = record {
  turn_id = "capsule-turn-1";
  session_id = "s";
  mission_id = "m";
  delivery_id = "d";
  execution_attempt = 1;
  contract_version = 0;
}

abbrev fresh : State
fresh = record {
  session = record {
    input = scope;
    input_sha256 = "m";
    host_session_id = "s";
    phase = SessionPhase.prepared;
    codex_thread_id = none;
  };
  turns = [];
}

abbrev unknown : Usage
unknown = Usage.unavailable UsageReason.not_reported

-- A start and an interrupt that are each claimed twice, and an end.
abbrev calls : List Call
calls =
    Call.claim_session_start
    ∷ Call.accept_session "thread"
    ∷ Call.prepare_turn input "now" "1"
    ∷ Call.claim_turn_start input
    ∷ Call.claim_turn_start input
    ∷ Call.accept_turn input "codex"
    ∷ Call.request_cancellation ref
    ∷ Call.claim_interrupt ref
    ∷ Call.claim_interrupt ref
    ∷ Call.record_terminal ref unknown Outcome.cancelled
    ∷ []

calls_send_once :
    (count (sends_start "d:1") calls (run host fresh calls).1 ≡ 1)
    × (count (sends_interrupt "d:1") calls (run host fresh calls).1 ≡ 1)
    × (map (λ entry. length entry.1.events) (run host fresh calls).0.turns ≡ 3 ∷ [])
unfolding run perform mutate transition reply_with claim_session_start accept_session prepare_turn
    new_turn claim_turn_start claim_start accept_turn bind_turn request_cancellation cancel_turn
    claim_interrupt claim_stop record_terminal close_turn parse_terminal append_terminal
    require_turn_by_input require_turn_by_ref require_ready_session assert_same_input host_turn
    lookup insert execution_key is_valid_state is_consistent_state have_valid_events replays_events
    create_stream run_stream accept_host_event matches_expected next_usage text_bytes artifacts_in
    add_artifacts is_valid_session is_valid_phase active_turns are_valid_turns to_decimal
    SessionRef-discrete TurnInput-discrete Intent-discrete TurnRef-discrete String-discrete
    ℕ_discrete
calls_send_once = (refl, refl, refl)

fresh_valid : is_valid_state host fresh ≡ true
unfolding is_valid_state is_consistent_state have_valid_events is_valid_session active_turns
    are_valid_turns
fresh_valid = refl

run-sends_once_example :
    (count (sends_start "d:1") calls (run host fresh calls).1 ≤ 1)
    × (count (sends_interrupt "d:1") calls (run host fresh calls).1 ≤ 1)
run-sends_once_example = run-sends_once host fresh calls "d:1" fresh_valid

mutate-transition_example :
    mutate host fresh Call.claim_session_start
    ≡ (transition host fresh Call.claim_session_start >>= check_limits host)
mutate-transition_example = mutate-transition host fresh Call.claim_session_start fresh_valid

-- A turn that the provider has accepted, and the same turn at its end.
abbrev accepted_turn : Turn
accepted_turn = record {
  input = input;
  input_sha256 = "d";
  host_turn_id = "capsule-turn-1";
  phase = Phase.accepted;
  codex_turn_id = some "codex";
  provider_intent = intent_of input;
  cancellation = Cancellation.none;
  events = record { kind = EventKind.accepted; turn = ref; sequence = 1 } ∷ [];
  created_at = "now";
}

abbrev lost : Outcome
lost = Outcome.failed (record { failure_class = FailureClass.transient; message = "lost" })

abbrev ended_turn : Turn
ended_turn = record accepted_turn {
  phase = Phase.terminal;
  events =
      record { kind = EventKind.accepted; turn = ref; sequence = 1 }
      ∷ record { kind = EventKind.usage unknown; turn = ref; sequence = 2 }
      ∷ record { kind = EventKind.terminal lost; turn = ref; sequence = 3 }
      ∷ [];
}

abbrev with_turn : Turn → State
with_turn t = record {
  session = record {
    input = scope;
    input_sha256 = "m";
    host_session_id = "s";
    phase = SessionPhase.ready;
    codex_thread_id = some "thread";
  };
  turns = ("d:1", t) ∷ [];
}

ended_stored : lookup "d:1" (with_turn ended_turn).turns ≡ some ended_turn
unfolding lookup
ended_stored = refl

run-terminal_example :
    lookup "d:1" (run host (with_turn ended_turn) calls).0.turns ≡ some ended_turn
run-terminal_example =
    run-terminal host (with_turn ended_turn) calls "d:1" ended_turn ended_stored refl

recorded :
    record_terminal host (with_turn accepted_turn) ref unknown lost
    ≡ ok (with_turn ended_turn, ended_turn.events)
unfolding record_terminal close_turn parse_terminal append_terminal require_turn_by_ref host_turn
    lookup insert execution_key to_decimal TurnRef-discrete String-discrete ℕ_discrete
recorded = refl

abbrev end : State × List HostEvent
end = (with_turn ended_turn, ended_turn.events)

record_terminal-again_example :
    (record_terminal host (with_turn ended_turn) ref unknown lost ≡ ok end)
    ↔ ((unknown ≡ unknown) × (lost ≡ lost) × (end ≡ end))
record_terminal-again_example =
    record_terminal-again host (with_turn accepted_turn) ref unknown lost recorded unknown lost end
