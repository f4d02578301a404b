-- ===== src/Node/Capsule/Store.antt =====
-- node/src/codex-capsule-store.ts: the calls on the stored state, one after the other.
use agent_relay.Prelude.{
  not, Option, none, some, List, [], ◌∷◌, string_eq, Result, ok, err, ◌>>=◌, ◌>>◌, throw_if,
}
use agent_relay.Node.Capsule.Types.{event_kind_eq, host_event_eq}
use agent_relay.Node.Capsule.State.{Host, Error, schema_error, State, is_valid_state}
use agent_relay.Node.Capsule.Transitions.{
  claim_session_start, accept_session, reset_unbound_session, prepare_turn, claim_turn_start,
  accept_turn, request_cancellation, claim_interrupt,
}
use agent_relay.Node.Capsule.Closing.{
  record_uncertain_interrupt, record_unmatched_start, record_terminal,
}
use agent_relay.Node.Capsule.Calls.{Call, Reply}

unfoldable pub reply_with :
    {A : Type 0} → (A → Reply) → Result Error (State × A) → Result Error (State × Reply)
reply_with f (ok r) = ok (r.0, f r.1)
reply_with f (err e) = err e

unfoldable pub transition : Host → State → Call → Result Error (State × Reply)
transition host s Call.claim_session_start = reply_with Reply.session_claim (claim_session_start s)
transition host s (Call.accept_session id) = reply_with Reply.session (accept_session s id)
transition host s Call.reset_unbound_session = reply_with Reply.done (reset_unbound_session s)
transition host s (Call.prepare_turn input timestamp uuid) =
    reply_with Reply.turn (prepare_turn host s input timestamp uuid)
transition host s (Call.claim_turn_start input) =
    reply_with Reply.turn_claim (claim_turn_start host s input)
transition host s (Call.accept_turn input id) = reply_with Reply.turn (accept_turn host s input id)
transition host s (Call.request_cancellation ref) =
    reply_with Reply.done (request_cancellation s ref)
transition host s (Call.claim_interrupt ref) =
    reply_with Reply.interrupt_claim (claim_interrupt s ref)
transition host s (Call.record_uncertain_interrupt ref input) =
    reply_with Reply.events (record_uncertain_interrupt host s ref input)
transition host s (Call.record_unmatched_start ref input) =
    reply_with Reply.events (record_unmatched_start host s ref input)
transition host s (Call.record_terminal ref used outcome) =
    reply_with Reply.events (record_terminal host s ref used outcome)

-- `mutate`: the new state is checked before it is stored.
unfoldable pub mutate : Host → State → Call → Result Error (State × Reply)
mutate host s call = do
  r ← transition host s call
  throw_if (not (is_valid_state host r.0)) schema_error
  ok r

-- The state after a call, and its reply if there is one.
unfoldable pub perform : Host → State → Call → State × Option Reply
perform host s call = elim (mutate host s call) [ ok r ↦ (r.0, some r.1) | err e ↦ (s, none) ]

-- The calls in the order of the store's queue of writes.
unfoldable pub run : Host → State → List Call → State × List (Option Reply)
run host s [] = (s, [])
run host s (call ∷ calls) =
    let first = perform host s call in
    let rest = run host first.0 calls in (rest.0, first.1 ∷ rest.1)
