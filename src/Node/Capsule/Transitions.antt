-- ===== src/Node/Capsule/Transitions.antt =====
-- node/src/codex-capsule-transitions.ts: the operations on a Capsule's state. Each gives the new
-- state and its result; on an error the state stays as it was.
use Prim.Native.String.{◌++◌ as text_append}
use agent_relay.Prelude.{
  String, Bool, true, false, not, Option, none, some, List, [], ◌∷◌, ◌+◌, ◌++◌, ◌==◌, string_eq,
  length, any, Result, ok, err, ◌>>=◌, ◌>>◌, throw_if,
}
use agent_relay.Node.Capsule.Types.{
  SessionRef, TurnInput, TurnRef, UsageReason, Usage, Outcome, EventKind, Intent, Phase,
  Cancellation, Turn, session_ref_eq, event_kind_eq, host_event_eq,
}
use agent_relay.Node.Capsule.State.{
  Host, Error, scope_mismatch, correlation_conflict, schema_error, SessionPhase, State, lookup, put,
  host_session, host_turn, is_terminal, key_of_input, key_of_ref, assert_same_input,
  require_turn_by_input, require_turn_by_ref, require_ready_session,
}

-- `CodexSessionStartClaim`
pub data SessionStartClaim : Type 0 where
  send reconcile : SessionStartClaim
  ready : SessionRef → Option String → SessionStartClaim

-- `CodexTurnStartClaim`
pub data TurnStartClaim : Type 0 where
  send reconcile : Intent → TurnStartClaim
  accepted : TurnRef → Bool → TurnStartClaim

-- `CodexInterruptClaim`; a sent interrupt names the thread and the provider's turn.
pub data InterruptClaim : Type 0 where
  send : Option String → String → InterruptClaim
  awaiting_provider reconcile terminal : InterruptClaim

abbrev pub with_phase : State → SessionPhase → State
with_phase s phase = record s { session = record s.session { phase = phase } }

-- `claimSessionStart`
unfoldable pub claim_session_start : State → Result Error (State × SessionStartClaim)
claim_session_start s = elim s.session.phase [
  | SessionPhase.ready ↦ ok (s, SessionStartClaim.ready (host_session s) s.session.codex_thread_id)
  | SessionPhase.start_maybe_sent ↦ ok (s, SessionStartClaim.reconcile)
  | SessionPhase.prepared ↦ ok (with_phase s SessionPhase.start_maybe_sent, SessionStartClaim.send)
]

-- `state.session.codex_thread_id !== threadId`
abbrev pub differs : Option String → String → Bool
differs none id = true
differs (some current) id = not (current == id)

-- `acceptSession`
unfoldable pub accept_session : State → String → Result Error (State × SessionRef)
accept_session s thread_id = elim s.session.phase [
  | SessionPhase.ready ↦ do
    throw_if (differs s.session.codex_thread_id thread_id) correlation_conflict
    ok (s, host_session s)
  | SessionPhase.start_maybe_sent ↦ ok (
    record s {
      session = record s.session { phase = SessionPhase.ready; codex_thread_id = some thread_id };
    },
    host_session s,
  )
  | SessionPhase.prepared ↦ err correlation_conflict
]

abbrev has_turns : List (String × Turn) → Bool
has_turns [] = false
has_turns (entry ∷ rest) = true

-- `resetUnboundSessionAfterQuiescence`
unfoldable pub reset_unbound_session : State → Result Error (State × (Unit {0}))
reset_unbound_session s = elim s.session.phase [
  | SessionPhase.start_maybe_sent ↦ elim s.session.codex_thread_id [
    | some id ↦ err correlation_conflict
    | none ↦ do
      throw_if (has_turns s.turns) correlation_conflict
      ok (with_phase s SessionPhase.prepared, tt)
  ]
  | _ ↦ err correlation_conflict
]

-- The turn that `prepareTurn` stores; `uuid` is `randomUUID()`.
unfoldable pub new_turn : Host → TurnInput → Intent → String → String → Turn
new_turn host input intent timestamp uuid = record turn {
  events = record { kind = EventKind.accepted; turn = host_turn turn; sequence = 1 } ∷ [];
}
  where
    turn : Turn
    turn = record {
      input = input;
      input_sha256 = host.digest input;
      host_turn_id = text_append "capsule-turn-" uuid;
      phase = Phase.prepared;
      codex_turn_id = none;
      provider_intent = intent;
      cancellation = Cancellation.none;
      events = [];
      created_at = timestamp;
    }

-- `prepareTurn`
unfoldable pub prepare_turn :
    Host → State → TurnInput → String → String → Result Error (State × TurnRef)
prepare_turn host s input timestamp uuid = do
  session ← require_ready_session s
  throw_if (not (input.session == session)) scope_mismatch
  elim (lookup (key_of_input input) s.turns) [
    | some existing ↦ assert_same_input host existing input >> ok (s, host_turn existing)
    | none ↦ do
      throw_if (any (λ entry. not (is_terminal entry.1.phase)) s.turns) correlation_conflict
      elim (host.build_intent input) [
        | none ↦ err schema_error
        | some intent ↦ ok (
          put s (key_of_input input) (new_turn host input intent timestamp uuid),
          host_turn (new_turn host input intent timestamp uuid),
        )
      ]
  ]

-- What `claimTurnStart` does with the stored turn.
unfoldable pub claim_start : Turn → Turn × TurnStartClaim
claim_start t = elim t.phase [
  | Phase.prepared ↦
      (record t { phase = Phase.start_maybe_sent }, TurnStartClaim.send t.provider_intent)
  | Phase.start_maybe_sent ↦ (t, TurnStartClaim.reconcile t.provider_intent)
  | Phase.cancelling ↦ elim t.codex_turn_id [
    | none ↦ (t, TurnStartClaim.reconcile t.provider_intent)
    | some id ↦ (t, TurnStartClaim.accepted (host_turn t) false)
  ]
  | Phase.accepted ↦ (t, TurnStartClaim.accepted (host_turn t) false)
  | Phase.terminal ↦ (t, TurnStartClaim.accepted (host_turn t) true)
]

-- `claimTurnStart`
unfoldable pub claim_turn_start : Host → State → TurnInput → Result Error (State × TurnStartClaim)
claim_turn_start host s input = do
  t ← require_turn_by_input host s input
  ok (put s (key_of_input input) (claim_start t).0, (claim_start t).1)

-- What `acceptTurn` does with the stored turn.
unfoldable pub bind_turn : Turn → String → Result Error Turn
bind_turn t id = elim t.codex_turn_id [
  | some current ↦ throw_if (not (current == id)) correlation_conflict >> ok t
  | none ↦ elim t.phase [
    | Phase.start_maybe_sent ↦ ok (record t { codex_turn_id = some id; phase = Phase.accepted })
    | Phase.cancelling ↦ ok (record t { codex_turn_id = some id })
    | _ ↦ err correlation_conflict
  ]
]

-- `acceptTurn`
unfoldable pub accept_turn : Host → State → TurnInput → String → Result Error (State × TurnRef)
accept_turn host s input id = do
  t ← require_turn_by_input host s input
  bound ← bind_turn t id
  ok (put s (key_of_input input) bound, host_turn bound)

-- `appendTerminal`
unfoldable pub append_terminal : Turn → Usage → Outcome → Turn
append_terminal t used outcome = record t {
  phase = Phase.terminal;
  events =
      t.events
      ++ (record { kind = EventKind.usage used; turn = host_turn t; sequence = length t.events + 1 }
          ∷ record {
            kind = EventKind.terminal outcome;
            turn = host_turn t;
            sequence = length t.events + 2;
          }
          ∷ []);
}

-- What `requestCancellation` does with the stored turn.
unfoldable pub cancel_turn : Turn → Turn
cancel_turn t = elim t.phase [
  | Phase.terminal ↦ t
  | Phase.cancelling ↦ t
  | Phase.prepared ↦
      append_terminal (record t { cancellation = Cancellation.requested })
        (Usage.unavailable UsageReason.not_reported) Outcome.cancelled
  | _ ↦ record t { phase = Phase.cancelling; cancellation = Cancellation.requested }
]

-- `requestCancellation`
unfoldable pub request_cancellation : State → TurnRef → Result Error (State × (Unit {0}))
request_cancellation s ref = do
  t ← require_turn_by_ref s ref
  ok (put s (key_of_ref ref) (cancel_turn t), tt)

-- What `claimInterrupt` does with the stored turn, in a session with the given thread.
unfoldable pub claim_stop : Option String → Turn → Result Error (Turn × InterruptClaim)
claim_stop thread t = elim t.phase [
  | Phase.terminal ↦ ok (t, InterruptClaim.terminal)
  | Phase.cancelling ↦ elim t.codex_turn_id [
    | none ↦ ok (t, InterruptClaim.awaiting_provider)
    | some id ↦ elim t.cancellation [
      | Cancellation.interrupt_maybe_sent ↦ ok (t, InterruptClaim.reconcile)
      | _ ↦ ok (
        record t { cancellation = Cancellation.interrupt_maybe_sent },
        InterruptClaim.send thread id,
      )
    ]
  ]
  | _ ↦ err correlation_conflict
]

-- `claimInterrupt`
unfoldable pub claim_interrupt : State → TurnRef → Result Error (State × InterruptClaim)
claim_interrupt s ref = do
  t ← require_turn_by_ref s ref
  claim ← claim_stop s.session.codex_thread_id t
  ok (put s (key_of_ref ref) claim.0, claim.1)
