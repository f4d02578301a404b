-- ===== src/Protocol/Mission.antt =====
-- protocol/src/state-machines.ts: the status machine of a Mission.
pub mod Diagram
mod Tests
use agent_relay.Prelude.{Option, none, some, Result, ok, err}
use agent_relay.Protocol.Schemas.{
  MissionStatus, awaiting_acceptance, active, verifying, blocked, completed, expired, failed,
}

-- `MissionTransitionEvent`
pub data Event : Type 0 where
  participants_accepted participants_ready blocking_required block_resolved : Event
  verification_passed verification_failed cancel expire fail : Event

-- `InvalidTransitionError` of the machine "mission"
pub data Error : Type 0 where
  invalid_transition : MissionStatus → Event → Error

-- `missionTransitions`
pub mission_transitions : MissionStatus → Event → Option MissionStatus
mission_transitions awaiting_acceptance participants_accepted = some active
mission_transitions awaiting_acceptance cancel = some MissionStatus.cancelled
mission_transitions awaiting_acceptance expire = some expired
mission_transitions awaiting_acceptance fail = some failed
mission_transitions active participants_ready = some verifying
mission_transitions active blocking_required = some blocked
mission_transitions active cancel = some MissionStatus.cancelled
mission_transitions active expire = some expired
mission_transitions active fail = some failed
mission_transitions verifying blocking_required = some blocked
mission_transitions verifying verification_passed = some completed
mission_transitions verifying verification_failed = some active
mission_transitions verifying cancel = some MissionStatus.cancelled
mission_transitions verifying expire = some expired
mission_transitions verifying fail = some failed
mission_transitions blocked block_resolved = some active
mission_transitions blocked cancel = some MissionStatus.cancelled
mission_transitions blocked expire = some expired
mission_transitions blocked fail = some failed
mission_transitions _ _ = none

-- `transitionMissionStatus`
unfoldable pub transition_mission_status : MissionStatus → Event → Result Error MissionStatus
unfolding mission_transitions
transition_mission_status current event = elim (mission_transitions current event) [
  | none ↦ err (invalid_transition current event)
  | some next ↦ ok next
]
