-- ===== src/Relay/Missions/Ends.antt =====
-- relay/src/services/mission-reconciliation.ts: what the end of a Mission leaves.
use agent_relay.Prelude.{
  ℕ, ◌≡◌, refl, ap, ◌∙◌, String, Bool, true, false, not, ◌||◌, none, some, List, [], ◌∷◌, ◌++◌, ok,
  err, Result, ◌==◌, string_eq, nat_eq, every, >>=-eq-ok, ok-inj, ◌⊎◌,
}
use agent_relay.Protocol.Schemas.{
  Texts, MissionStatus, active, verifying, expired, failed, mission_status_eq, stored, leased,
  executing, delivery_status_eq,
}
use agent_relay.Protocol.Receipts.{is_some}
use agent_relay.Protocol.Coordinator.Events.{Event}
use agent_relay.Protocol.Coordinator.State.{State, Config, create_mission_coordinator_state}
use agent_relay.Protocol.Coordinator.Apply.{Shapes}
use agent_relay.Protocol.Coordinator.Reduce.{
  reduce_mission_coordinator_event, replay_from, replay_mission_coordinator_events,
}
use agent_relay.Protocol.Coordinator.Replay.{replay_from-append}
use agent_relay.Relay.Ledger.Row.{Row, is_valid_row}
use agent_relay.Relay.Missions.Store.{Store, state_eq}
use agent_relay.Relay.Missions.Reconcile.{
  TerminalCause, deadline, dead_letter, lifted, terminal_cause,
}

-- The status in which a cause ends a Mission.
abbrev pub status_of : TerminalCause → MissionStatus
status_of deadline = expired
status_of (dead_letter id) = failed

abbrev pub is_running : MissionStatus → Bool
is_running status = status == active || status == verifying

-- No work of the Mission is left to do.
abbrev pub is_at_rest : String → Row → Bool
is_at_rest mission_id r =
    not (r.mission_id == mission_id)
    || is_some r.settled_by_event_id
    || not (r.status == stored || r.status == leased || r.status == executing)

pub lifted-ok {ℓ κ} :
    {E : Type ℓ} {A : Type κ} (r : Result E A) {a : A} → lifted r ≡ ok a → r ≡ ok a
lifted-ok (err fault) h = cc
lifted-ok (ok b) {a} h = ap ok (ok-inj b a h)

-- The stored Mission is what its events reduce to.
abbrev pub IsProjected : Texts → Shapes → Store → Type 0
IsProjected texts shapes s =
    (replay_mission_coordinator_events texts shapes s.mission.config s.events ≡ ok s.mission.state)
    × (s.mission.last_event_sequence ≡ s.mission.state.sequence_no)
    × (s.mission.status ≡ s.mission.state.status)

-- Every delivery satisfies the checks of its table.
abbrev pub AreValid : Store → Type 0
AreValid s = every is_valid_row s.deliveries ≡ true

pub replay-extended :
    (texts : Texts) (shapes : Shapes) (config : Config) (events : List Event) (event : Event)
    (s t : State)
    → replay_mission_coordinator_events texts shapes config events ≡ ok s
    → reduce_mission_coordinator_event shapes s event ≡ ok t
    → replay_mission_coordinator_events texts shapes config (events ++ (event ∷ [])) ≡ ok t
unfolding replay_mission_coordinator_events replay_from
replay-extended texts shapes config events event s t h step =
    let (start, made, rest) = >>=-eq-ok (create_mission_coordinator_state texts config) _ h in
    rw made (replay_from-append shapes start s events (event ∷ []) rest ∙ rw step refl)

module _ (texts : Texts) (shapes : Shapes) (to_iso : ℕ → String) where
  -- What the end of a Mission leaves.
  abbrev pub HasEnded : Store → TerminalCause → Store → Type 0
  HasEnded s cause left =
      IsProjected texts shapes left
      × (left.mission.status ≡ status_of cause)
      × (every (is_at_rest s.mission.id) left.deliveries ≡ true)
      × (AreValid s → AreValid left)

  -- The outcome of a reconciliation.
  abbrev pub IsReconciled : Store → Store → ℕ → Type 0
  IsReconciled s left now =
      IsProjected texts shapes left
      × AreValid left
      × (((left ≡ s) × ((is_running s.mission.status ≡ false) ⊎ (terminal_cause s now ≡ none)))
          ⊎ ((cause : TerminalCause) × (is_running s.mission.status ≡ true)
              × (terminal_cause s now ≡ some cause)
              × (left.mission.status ≡ status_of cause)
              × (every (is_at_rest s.mission.id) left.deliveries ≡ true)))
