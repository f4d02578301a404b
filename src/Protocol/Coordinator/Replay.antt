-- ===== src/Protocol/Coordinator/Replay.antt =====
-- The state of a Mission as the fold of its own log (protocol/src/mission-coordinator.ts).
use mathlib.Core.Path.{subst}
use agent_relay.Prelude.{true, ◌≡◌, refl, ap, ◌∙◌, List, [], ◌∷◌, ◌++◌, arith, ok, >>=-eq-ok}
use agent_relay.Protocol.Schemas.{Texts}
use agent_relay.Protocol.Coordinator.Events.{Event}
use agent_relay.Protocol.Coordinator.State.{State, Config, create_mission_coordinator_state}
use agent_relay.Protocol.Coordinator.Apply.{Shapes}
use agent_relay.Protocol.Coordinator.Reduce.{
  is_terminal, reduce_mission_coordinator_event, replay_from, replay_mission_coordinator_events,
}
use agent_relay.Protocol.Coordinator.Frame.{apply_payload-SameLog}
use agent_relay.Protocol.Coordinator.Log.{Reduced, replayed, fresh, reduce-Reduced}

pub replay_from-append :
    (shapes : Shapes) (s t : State) (xs ys : List Event)
    → replay_from shapes s xs ≡ ok t
    → replay_from shapes s (xs ++ ys) ≡ replay_from shapes t ys
unfolding replay_from
replay_from-append shapes s t [] ys h = ground arith
replay_from-append shapes s t (x ∷ xs) ys h =
    let (u, p, q) = >>=-eq-ok (reduce_mission_coordinator_event shapes s x) _ h in
    rw p (replay_from-append shapes u t xs ys q)

-- The state that the log of a state leads to is that state.
abbrev IsFold : Shapes → State → State → Type 0
IsFold shapes start s = replay_from shapes start s.applied_events ≡ ok s

reduce-IsFold :
    (shapes : Shapes) (start s t : State) (e : Event)
    → IsFold shapes start s
    → reduce_mission_coordinator_event shapes s e ≡ ok t
    → IsFold shapes start t
unfolding replay_from
reduce-IsFold shapes start s t e f h = go (reduce-Reduced shapes s e h).1
  where
    go : Reduced shapes s e t → IsFold shapes start t
    go (replayed k same) = rw same f
    go (fresh r new seq mission live applied same) =
        ap (replay_from shapes start) (
          ap (λ (x : State). x.applied_events) same
          ∙ ap (λ l. l ++ (e ∷ []))
              (apply_payload-SameLog shapes s e e.payload applied).same_events)
        ∙ replay_from-append shapes start s s.applied_events (e ∷ []) f
        ∙ rw h refl

replay_from-IsFold :
    (shapes : Shapes) (start s t : State) (es : List Event)
    → IsFold shapes start s
    → replay_from shapes s es ≡ ok t
    → IsFold shapes start t
unfolding replay_from
replay_from-IsFold shapes start s t [] f h = subst (IsFold shapes start) (ground arith) f
replay_from-IsFold shapes start s t (e ∷ es) f h =
    let (u, p, q) = >>=-eq-ok (reduce_mission_coordinator_event shapes s e) _ h in
    replay_from-IsFold shapes start u t es (reduce-IsFold shapes start s u e f p) q

create-no_events :
    (texts : Texts) (config : Config) {s : State}
    → create_mission_coordinator_state texts config ≡ ok s
    → s.applied_events ≡ []
unfolding create_mission_coordinator_state
create-no_events texts config h = ground arith

-- The log is enough to rebuild the state: whatever events, repeated ones among them, have led a
-- Mission to a state, the replay of the events that the state has logged leads to the same state.
pub replay-applied_events :
    (texts : Texts) (shapes : Shapes) (config : Config) (es : List Event) {s : State}
    → replay_mission_coordinator_events texts shapes config es ≡ ok s
    → replay_mission_coordinator_events texts shapes config s.applied_events ≡ ok s
unfolding replay_mission_coordinator_events replay_from
replay-applied_events texts shapes config es {s} h =
    let (start, made, run) = >>=-eq-ok (create_mission_coordinator_state texts config) _ h in
    rw made (
      replay_from-IsFold shapes start start s es
        (ap (replay_from shapes start) (create-no_events texts config made)) run)

-- A Mission that is completed, cancelled, expired or failed stays as it is: an event is refused, or
-- is a replay of a logged one, which changes nothing.
pub reduce-terminal :
    (shapes : Shapes) (s t : State) (e : Event)
    → is_terminal s.status ≡ true
    → reduce_mission_coordinator_event shapes s e ≡ ok t
    → t ≡ s
reduce-terminal shapes s t e end h = go (reduce-Reduced shapes s e h).1
  where
    go : Reduced shapes s e t → t ≡ s
    go (replayed k same) = same
    go (fresh r new seq mission live applied same) = cc
