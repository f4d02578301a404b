-- ===== src/Protocol/Mission/Tests.antt =====
-- Missions' statuses at concrete inputs.
use agent_relay.Prelude.{◌≡◌, ◌↔◌, refl, List, [], ◌∷◌, ◌++◌, ok, arith}
use agent_relay.Protocol.Schemas.{active, verifying, completed, awaiting_acceptance}
use agent_relay.Protocol.Mission.{
  Event, participants_accepted, participants_ready, verification_passed, verification_failed,
  transition_mission_status,
}
use agent_relay.Protocol.Mission.Diagram.{Edge, transition-iff_Edge, run, run-completed}

transition-iff_Edge_example :
    (transition_mission_status active participants_ready ≡ ok verifying)
    ↔ Edge active participants_ready verifying
transition-iff_Edge_example = transition-iff_Edge active verifying participants_ready

abbrev life : List Event
life =
    participants_accepted ∷ participants_ready ∷ verification_failed ∷ participants_ready
    ∷ verification_passed ∷ []

life_completes : run awaiting_acceptance life ≡ ok completed
unfolding run transition_mission_status
life_completes = refl

run-completed_example :
    (before : List Event) × (run awaiting_acceptance before ≡ ok verifying)
    × (life ≡ before ++ (verification_passed ∷ []))
run-completed_example = run-completed awaiting_acceptance life (λ e. ground arith) life_completes
