-- ===== src/Protocol/Coordinator/Frame.antt =====
-- What no event changes but the log: the context and the plan of a Mission
-- (protocol/src/mission-coordinator.ts).
use agent_relay.Prelude.{String, ◌≡◌, arith, ok}
use agent_relay.Protocol.Records.{TurnDisposition}
use agent_relay.Protocol.Coordinator.Events.{
  Event, Payload, TurnCompleted, ContractAcknowledged, VerificationRecorded,
}
use agent_relay.Protocol.Coordinator.State.{State}
use agent_relay.Protocol.Coordinator.Apply.{
  Shapes, apply_mission_terminal, apply_participants_accepted, apply_reply, apply_reply_message,
  apply_contract_proposal, apply_proposed_revision, apply_ready,
}
use agent_relay.Protocol.Coordinator.Turns.{
  apply_disposition, close_used_up, apply_turn_completed, accept_acknowledged, acknowledge_pending,
  apply_contract_acknowledged,
}
use agent_relay.Protocol.Coordinator.Verify.{
  finish_verification, retry_or_fail, judge_records, record_verification,
  apply_verification_recorded,
}
use agent_relay.Protocol.Coordinator.Reduce.{apply_payload}

-- Two states of one Mission with the same log.
pub record SameLog (s t : State) : Type 0 where
  pub same_context : t.mission_context ≡ s.mission_context
  pub same_commands : t.required_verification_commands ≡ s.required_verification_commands
  pub same_sequence : t.sequence_no ≡ s.sequence_no
  pub same_events : t.applied_events ≡ s.applied_events

apply_disposition-SameLog :
    (s : State) (id : String) (e : TurnCompleted) (d : TurnDisposition) {t : State}
    → apply_disposition s id e d ≡ ok t
    → SameLog s t
unfolding apply_disposition apply_reply apply_reply_message apply_contract_proposal
    apply_proposed_revision apply_ready
apply_disposition-SameLog s id e (TurnDisposition.reply m b a) h = ground arith
apply_disposition-SameLog s id e (TurnDisposition.propose_contract a) h = ground arith
apply_disposition-SameLog s id e (TurnDisposition.ready a) h = ground arith
apply_disposition-SameLog s id e (TurnDisposition.blocked a b) h = ground arith
apply_disposition-SameLog s id e (TurnDisposition.failed c) h = ground arith

close_used_up-SameLog : (s : State) {t : State} → close_used_up s ≡ ok t → SameLog s t
unfolding close_used_up
close_used_up-SameLog s h = ground arith

apply_turn_completed-SameLog :
    (s : State) (id : String) (e : TurnCompleted) {t : State}
    → apply_turn_completed s id e ≡ ok t
    → SameLog s t
unfolding apply_turn_completed
apply_turn_completed-SameLog s id e h =
    grind (arith, apply_disposition-SameLog, close_used_up-SameLog)

apply_contract_acknowledged-SameLog :
    (shapes : Shapes) (s : State) (e : ContractAcknowledged) {t : State}
    → apply_contract_acknowledged shapes s e ≡ ok t
    → SameLog s t
unfolding apply_contract_acknowledged acknowledge_pending accept_acknowledged
apply_contract_acknowledged-SameLog shapes s e h = ground arith

apply_verification_recorded-SameLog :
    (s : State) (id : String) (e : VerificationRecorded) {t : State}
    → apply_verification_recorded s id e ≡ ok t
    → SameLog s t
unfolding apply_verification_recorded record_verification judge_records retry_or_fail
    finish_verification
apply_verification_recorded-SameLog s id e h = ground arith

-- An applied event leaves the log to the caller, and the context and the plan as they are.
pub apply_payload-SameLog :
    (shapes : Shapes) (s : State) (event : Event) (p : Payload) {t : State}
    → apply_payload shapes s event p ≡ ok t
    → SameLog s t
unfolding apply_payload apply_participants_accepted apply_mission_terminal
apply_payload-SameLog shapes s event (Payload.participants_accepted p) h = ground arith
apply_payload-SameLog shapes s event (Payload.turn_completed p) h =
    apply_turn_completed-SameLog s event.mission_id p h
apply_payload-SameLog shapes s event (Payload.contract_acknowledged p) h =
    apply_contract_acknowledged-SameLog shapes s p h
apply_payload-SameLog shapes s event (Payload.verification_recorded p) h =
    apply_verification_recorded-SameLog s event.event_id p h
apply_payload-SameLog shapes s event (Payload.mission_terminal p) h = ground arith
