-- ===== src/Node/Capsule/Calls.antt =====
-- node/src/codex-capsule-store.ts: the calls of the store and their replies.
use agent_relay.Prelude.{String, List}
use agent_relay.Node.Capsule.Types.{SessionRef, TurnInput, TurnRef, Usage, Outcome, HostEvent}
use agent_relay.Node.Capsule.Transitions.{SessionStartClaim, TurnStartClaim, InterruptClaim}

-- The calls of the store, `prepareTurn` with its time and its fresh id.
pub data Call : Type 0 where
  claim_session_start : Call
  accept_session : String → Call
  reset_unbound_session : Call
  prepare_turn : TurnInput → String → String → Call
  claim_turn_start : TurnInput → Call
  accept_turn : TurnInput → String → Call
  request_cancellation : TurnRef → Call
  claim_interrupt : TurnRef → Call
  record_uncertain_interrupt : TurnRef → TurnInput → Call
  record_unmatched_start : TurnRef → TurnInput → Call
  record_terminal : TurnRef → Usage → Outcome → Call

pub data Reply : Type 0 where
  session_claim : SessionStartClaim → Reply
  session : SessionRef → Reply
  done : Unit {0} → Reply
  turn : TurnRef → Reply
  turn_claim : TurnStartClaim → Reply
  interrupt_claim : InterruptClaim → Reply
  events : List HostEvent → Reply
