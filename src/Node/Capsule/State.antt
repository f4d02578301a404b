-- ===== src/Node/Capsule/State.antt =====
-- node/src/codex-capsule-state.ts and node/src/codex-capsule-records.ts: the state of a Capsule, the
-- lookup of a stored turn, and what a stored turn has to satisfy.
use Prim.Native.String.{◌++◌}
use agent_relay.Prelude.{
  ℕ, String, Bool, true, false, not, ◌&&◌, ◌||◌, Option, none, some, List, [], ◌∷◌, ◌+◌, ◌==◌,
  string_eq, nat_eq, bool_eq, some_in, leb, if◌then◌else◌, last?, length, Result, ok, err, ◌>>◌,
  throw_if,
}
use agent_relay.Prelude.Decimal.{to_decimal}
use agent_relay.Protocol.Records.{TurnDisposition}
use agent_relay.Node.Capsule.Stream.{create_stream, run_stream, is_ended}
use agent_relay.Node.Capsule.Types.{
  SessionInput, SessionRef, TurnInput, TurnRef, Failure, Outcome, EventKind, HostEvent, Intent,
  Phase, Cancellation, Turn, session_ref_eq, intent_eq, turn_input_eq, turn_ref_eq,
}

-- What the Capsule calls to hash, to build a prompt (none where its text exceeds the provider's byte
-- limit, which throws), to measure a text (`Buffer.byteLength`), and to check a result's fields.
pub record Host : Type 0 where
  pub digest : TurnInput → String
  pub digest_session : SessionInput → String
  pub build_intent : TurnInput → Option Intent
  pub byte_length : String → ℕ
  pub is_disposition : TurnDisposition → Bool
  pub is_failure : Failure → Bool

-- The codes of `CapsuleOperationError`, and any other error, which the checks of a state throw.
pub data Error : Type 0 where
  scope_mismatch not_found correlation_conflict schema_error : Error

pub data SessionPhase : Type 0 where
  prepared start_maybe_sent ready : SessionPhase

-- `storedSessionSchema`
pub record Session : Type 0 where
  pub input : SessionInput
  pub input_sha256 : String
  pub host_session_id : String
  pub phase : SessionPhase
  pub codex_thread_id : Option String

-- `codexCapsuleStateSchema`; the turns by their execution keys.
pub record State : Type 0 where
  pub session : Session
  pub turns : List (String × Turn)

-- `executionKey`
unfoldable pub execution_key : String → ℕ → String
execution_key delivery_id attempt = delivery_id ++ (":" ++ to_decimal attempt)

-- `state.turns[key]`
unfoldable pub lookup : String → List (String × Turn) → Option Turn
lookup key [] = none
lookup key (entry ∷ rest) = if entry.0 == key then some entry.1 else lookup key rest

-- `state.turns[key] = turn`
unfoldable pub insert : String → Turn → List (String × Turn) → List (String × Turn)
insert key turn [] = (key, turn) ∷ []
insert key turn (entry ∷ rest) =
    let tail = insert key turn rest in if entry.0 == key then (key, turn) ∷ rest else entry ∷ tail

abbrev pub put : State → String → Turn → State
put s key turn = record s { turns = insert key turn s.turns }

-- `hostSessionFromState`
abbrev pub host_session : State → SessionRef
host_session s = record { scope = s.session.input; session_id = s.session.host_session_id }

-- `hostTurnFromStored`
unfoldable pub host_turn : Turn → TurnRef
host_turn t = record {
  turn_id = t.host_turn_id;
  session_id = t.input.session.session_id;
  mission_id = t.input.mission_id;
  delivery_id = t.input.delivery_id;
  execution_attempt = t.input.execution_attempt;
  contract_version = t.input.contract_version;
}

abbrev pub is_terminal : Phase → Bool
is_terminal Phase.terminal = true
is_terminal phase = false

abbrev pub key_of_input : TurnInput → String
key_of_input input = execution_key input.delivery_id input.execution_attempt

abbrev pub key_of_ref : TurnRef → String
key_of_ref ref = execution_key ref.delivery_id ref.execution_attempt

-- `assertSameInput`
unfoldable pub assert_same_input : Host → Turn → TurnInput → Result Error (Unit {0})
assert_same_input host t input =
    throw_if (not (t.input == input) || not (t.input_sha256 == host.digest input))
      correlation_conflict

-- `requireTurnByInput`
unfoldable pub require_turn_by_input : Host → State → TurnInput → Result Error Turn
require_turn_by_input host s input = elim (lookup (key_of_input input) s.turns) [
  | none ↦ err not_found
  | some t ↦ assert_same_input host t input >> ok t
]

-- `requireTurnByRef`
unfoldable pub require_turn_by_ref : State → TurnRef → Result Error Turn
require_turn_by_ref s ref = elim (lookup (key_of_ref ref) s.turns) [
  | none ↦ err not_found
  | some t ↦ throw_if (not (host_turn t == ref)) not_found >> ok t
]

-- `requireReadySession`
unfoldable pub require_ready_session : State → Result Error SessionRef
require_ready_session s = elim s.session.phase [
  | SessionPhase.ready ↦ ok (host_session s)
  | _ ↦ err scope_mismatch
]

abbrev pub is_bound : Option String → Bool
is_bound none = false
is_bound (some id) = true

abbrev pub is_uncancelled : Cancellation → Bool
is_uncancelled Cancellation.none = true
is_uncancelled _ = false

abbrev pub is_cancelled_event : Option HostEvent → Bool
is_cancelled_event none = false
is_cancelled_event (some event) = elim event.kind [
  | EventKind.terminal outcome ↦ elim outcome [ Outcome.cancelled ↦ true | _ ↦ false ]
  | _ ↦ false
]

-- `validateTurnPhase`: whether it throws no error.
unfoldable pub is_valid_phase : Turn → Bool
is_valid_phase t = elim t.phase [
  | Phase.prepared ↦ not (is_bound t.codex_turn_id) && is_uncancelled t.cancellation
  | Phase.start_maybe_sent ↦ not (is_bound t.codex_turn_id) && is_uncancelled t.cancellation
  | Phase.accepted ↦ is_bound t.codex_turn_id && is_uncancelled t.cancellation
  | Phase.cancelling ↦ not (is_uncancelled t.cancellation)
  | Phase.terminal ↦
      not (is_cancelled_event (last? t.events)) || not (is_uncancelled t.cancellation)
]

abbrev pub is_ready : SessionPhase → Bool
is_ready SessionPhase.ready = true
is_ready phase = false

-- `validateSession`: whether it throws no error.
unfoldable pub is_valid_session : Host → Session → Bool
is_valid_session host session =
    session.input_sha256 == host.digest_session session.input
    && is_ready session.phase == is_bound session.codex_thread_id

-- `activeTurns`
unfoldable pub active_turns : List (String × Turn) → ℕ
active_turns [] = 0
active_turns (entry ∷ rest) = (if is_terminal entry.1.phase then 0 else 1) + active_turns rest

-- `validateTurn` on every turn, its events apart: its key, digest, session, intent and phase. The
-- intent's hashes, which are compared with the expected ones, are not computed again.
unfoldable pub are_valid_turns : Host → SessionRef → List (String × Turn) → Bool
are_valid_turns host session [] = true
are_valid_turns host session (entry ∷ rest) =
    entry.0 == key_of_input entry.1.input
    && entry.1.input_sha256 == host.digest entry.1.input
    && entry.1.input.session == session
    && some_in (host.build_intent entry.1.input) entry.1.provider_intent
    && is_valid_phase entry.1
    && are_valid_turns host session rest

-- `validateTurnEvents`: whether it throws no error.
unfoldable pub replays_events : Host → Turn → Bool
replays_events host t = elim (run_stream host.byte_length (create_stream (host_turn t)) t.events) [
  | err reason ↦ false
  | ok stream ↦ is_terminal t.phase == is_ended stream.phase
]

-- The events of a turn: at least one, as `storedCodexTurnSchema` asks, and a valid stream.
abbrev pub has_valid_events : Host → Turn → Bool
has_valid_events host t = leb 1 (length t.events) && replays_events host t

unfoldable pub have_valid_events : Host → List (String × Turn) → Bool
have_valid_events host [] = true
have_valid_events host (entry ∷ rest) = has_valid_events host entry.1 && have_valid_events host rest

-- The limit of `codexCapsuleStateSchema`
abbrev pub turn_limit : ℕ
turn_limit = 200

-- `validateCodexCapsuleState`, the limit and the events apart.
unfoldable pub is_consistent_state : Host → State → Bool
is_consistent_state host s =
    is_valid_session host s.session
    && are_valid_turns host (host_session s) s.turns
    && leb (active_turns s.turns) 1
    && (is_ready s.session.phase || length s.turns == 0)

-- `validateCodexCapsuleState` on a state of its own Capsule and session scope: whether it throws no
-- error. It looks at a turn's events after the rest of the turn, which only chooses the error.
unfoldable pub is_valid_state : Host → State → Bool
is_valid_state host s =
    leb (length s.turns) turn_limit && is_consistent_state host s && have_valid_events host s.turns
