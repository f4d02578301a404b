-- ===== src/Protocol/Coordinator/Phase.antt =====
-- Whose move it is in a Mission: the phases that the coordinator of
-- protocol/src/mission-coordinator.ts goes through, and the turns that are left.
use agent_relay.Prelude.{ℕ, ◌≤◌, ◌<◌, String, ◌≡◌, ◌⊎◌, none, some, List, [], ◌∷◌, map, string_eq}
use agent_relay.Protocol.Schemas.{
  MissionStatus, awaiting_acceptance, active, verifying, completed, expired, mission_status_eq,
}
use agent_relay.Protocol.Records.{ContractRevision, MissionContext}
use agent_relay.Protocol.Coordinator.State.{State, agent_of}
use agent_relay.Protocol.Coordinator.Pair.{Others}

-- The participants of a context.
abbrev pub ids_of : MissionContext → List String
ids_of context = map agent_of context.manifest.participants

-- The phases of a Mission of `a` and `b`, which has `turns` turns. A speaker `p` has the turn while
-- the other, `q`, may be ready; a revision of `p` waits for acknowledgements, after which `q` has
-- the turn; when both are ready, verification begins.
pub data Phase (a b : String) (turns : ℕ) (s : State) : Type 0 where
  waiting :
      s.status ≡ awaiting_acceptance
      → s.current_participant_agent_id ≡ none
      → s.pending_revision ≡ none
      → s.ready_agent_ids ≡ []
      → s.turn_count ≡ 0
      → Phase a b turns s
  speaking :
      (p q : String)
      → Others a b p q
      → s.status ≡ active
      → s.current_participant_agent_id ≡ some p
      → s.pending_revision ≡ none
      → (s.ready_agent_ids ≡ []) ⊎ (s.ready_agent_ids ≡ q ∷ [])
      → s.turn_count < turns
      → Phase a b turns s
  revising :
      (p q : String) (r : ContractRevision)
      → Others a b p q
      → s.status ≡ active
      → s.current_participant_agent_id ≡ none
      → s.pending_revision ≡ some r
      → r.proposed_by_agent_id ≡ p
      → s.ready_agent_ids ≡ []
      → s.turn_count < turns
      → Phase a b turns s
  checking :
      (p q : String)
      → Others a b p q
      → (s.status ≡ verifying) ⊎ (s.status ≡ completed)
      → s.current_participant_agent_id ≡ none
      → s.pending_revision ≡ none
      → s.ready_agent_ids ≡ q ∷ p ∷ []
      → s.turn_count ≤ turns
      → Phase a b turns s
  ended :
      (s.status ≡ expired) ⊎ (s.status ≡ MissionStatus.failed)
      → s.current_participant_agent_id ≡ none
      → s.pending_revision ≡ none
      → s.ready_agent_ids ≡ []
      → s.turn_count ≤ turns
      → Phase a b turns s
