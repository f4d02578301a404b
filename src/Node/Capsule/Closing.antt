-- ===== src/Node/Capsule/Closing.antt =====
-- node/src/codex-capsule-transitions.ts: the operations that close a turn.
use agent_relay.Prelude.{
  String, Bool, true, false, not, ◌||◌, Option, none, some, List, [], ◌∷◌, ◌==◌, string_eq, last?,
  Result, ok, err, ◌>>=◌, ◌>>◌, throw_if,
}
use agent_relay.Node.Capsule.Types.{
  TurnInput, TurnRef, FailureClass, UsageReason, Usage, Outcome, EventKind, HostEvent, Phase,
  Cancellation, Turn, event_kind_eq, host_event_eq,
}
use agent_relay.Node.Capsule.State.{
  Host, Error, correlation_conflict, schema_error, State, put, host_turn, key_of_ref,
  assert_same_input, require_turn_by_ref,
}
use agent_relay.Node.Capsule.Transitions.{append_terminal}

abbrev pub transient_failure : String → Outcome
transient_failure message =
    Outcome.failed (record { failure_class = FailureClass.transient; message = message })

abbrev pub usage_unreported : Usage
usage_unreported = Usage.unavailable UsageReason.not_reported

abbrev pub interrupt_lost : Outcome
interrupt_lost =
    transient_failure "Codex cancellation outcome could not be recovered after provider shutdown"

abbrev pub start_lost : Outcome
start_lost = transient_failure "Codex start could not be recovered after provider shutdown"

-- What `recordUncertainInterruptAfterQuiescence` does with the stored turn.
unfoldable pub close_interrupted : Turn → Result Error Turn
close_interrupted t = elim t.phase [
  | Phase.terminal ↦ ok t
  | Phase.cancelling ↦ elim t.cancellation [
    | Cancellation.interrupt_maybe_sent ↦ elim t.codex_turn_id [
      | none ↦ err correlation_conflict
      | some id ↦ ok (
          append_terminal t usage_unreported (
            transient_failure
              "Codex cancellation outcome could not be recovered after provider shutdown"))
    ]
    | _ ↦ err correlation_conflict
  ]
  | _ ↦ err correlation_conflict
]

-- What `recordUnmatchedStartAfterQuiescence` does with the stored turn.
unfoldable pub close_unmatched : Turn → Result Error Turn
close_unmatched t = elim t.phase [
  | Phase.terminal ↦ ok t
  | Phase.start_maybe_sent ↦ close t
  | Phase.cancelling ↦ close t
  | _ ↦ err correlation_conflict
]
  where
    outcome_of : Cancellation → Outcome
    outcome_of Cancellation.none = start_lost
    outcome_of _ = Outcome.cancelled

    close : Turn → Result Error Turn
    close t = elim t.codex_turn_id [
      | some id ↦ err correlation_conflict
      | none ↦ ok (append_terminal t usage_unreported (outcome_of t.cancellation))
    ]

-- The two calls share their guards.
unfoldable pub close_after_quiescence :
    Host
    → (Turn → Result Error Turn)
    → State
    → TurnRef
    → TurnInput
    → Result Error (State × List HostEvent)
close_after_quiescence host close s ref input = do
  t ← require_turn_by_ref s ref
  assert_same_input host t input
  closed ← close t
  ok (put s (key_of_ref ref) closed, closed.events)

-- `recordUncertainInterruptAfterQuiescence`
unfoldable pub record_uncertain_interrupt :
    Host → State → TurnRef → TurnInput → Result Error (State × List HostEvent)
record_uncertain_interrupt host = close_after_quiescence host close_interrupted

-- `recordUnmatchedStartAfterQuiescence`
unfoldable pub record_unmatched_start :
    Host → State → TurnRef → TurnInput → Result Error (State × List HostEvent)
record_unmatched_start host = close_after_quiescence host close_unmatched

-- `parseTerminal`
unfoldable pub parse_terminal : Host → Outcome → Result Error Outcome
parse_terminal host (Outcome.completed disposition) =
    throw_if (not (host.is_disposition disposition)) schema_error
    >> ok (Outcome.completed disposition)
parse_terminal host (Outcome.failed failure) =
    throw_if (not (host.is_failure failure)) schema_error >> ok (Outcome.failed failure)
parse_terminal host Outcome.cancelled = ok Outcome.cancelled

-- `xs.at(-2)`
unfoldable pub second_last? {ℓ} : {A : Type ℓ} → List A → Option A
second_last? [] = none
second_last? (x ∷ []) = none
second_last? (x ∷ y ∷ []) = some x
second_last? (x ∷ y ∷ z ∷ rest) = second_last? (y ∷ z ∷ rest)

abbrev pub usage_differs : Option HostEvent → Usage → Bool
usage_differs none used = true
usage_differs (some event) used = not (event.kind == EventKind.usage used)

abbrev pub terminal_differs : Option HostEvent → TurnRef → Outcome → Bool
terminal_differs none ref outcome = true
terminal_differs (some event) ref outcome =
    not
      (event == record { kind = EventKind.terminal outcome; turn = ref; sequence = event.sequence })

-- `replayTerminalEvents`
unfoldable pub replay_terminal_events : Turn → Usage → Outcome → Result Error (List HostEvent)
replay_terminal_events t used outcome = do
  throw_if
      (usage_differs (second_last? t.events) used
        || terminal_differs (last? t.events) (host_turn t) outcome)
      correlation_conflict
  ok t.events

abbrev pub is_cancelled : Outcome → Bool
is_cancelled Outcome.cancelled = true
is_cancelled outcome = false

-- What `recordTerminal` does with the stored turn.
unfoldable pub close_turn : Turn → Usage → Outcome → Result Error Turn
close_turn t used outcome = elim t.phase [
  | Phase.terminal ↦ replay_terminal_events t used outcome >>= λ events. ok t
  | Phase.cancelling ↦ ok (append_terminal t used outcome)
  | Phase.accepted ↦ do
    throw_if (is_cancelled outcome) correlation_conflict
    ok (append_terminal t used outcome)
  | _ ↦ err correlation_conflict
]

-- `recordTerminal`
unfoldable pub record_terminal :
    Host → State → TurnRef → Usage → Outcome → Result Error (State × List HostEvent)
record_terminal host s ref used value = do
  outcome ← parse_terminal host value
  t ← require_turn_by_ref s ref
  closed ← close_turn t used outcome
  ok (put s (key_of_ref ref) closed, closed.events)
