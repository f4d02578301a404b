-- ===== src/Protocol/Coordinator/Log.antt =====
-- The log of a Mission as the source of its state (protocol/src/mission-coordinator.ts).
use mathlib.Core.Path.{subst, ◌∙◌}
use agent_relay.Prelude.{
  ◌+◌, true, false, ◌≡◌, refl, ap, List, [], ◌∷◌, arith, beq_refl, beq→eq, keep, keep-append,
  string_eq, ok, ◌>>=◌, >>=-eq-ok,
}
use agent_relay.Protocol.Coordinator.Events.{Event, event_eq}
use agent_relay.Protocol.Coordinator.State.{State}
use agent_relay.Protocol.Coordinator.Apply.{Shapes}
use agent_relay.Protocol.Coordinator.Reduce.{
  parse_event, same_identity, single_match, find_replay, apply_payload, apply_fresh,
  apply_or_replay, log_event, is_terminal, reduce_mission_coordinator_event,
}
use agent_relay.Protocol.Coordinator.Frame.{apply_payload-SameLog}

-- What an accepted event has done: it was in the log already and the state stays, or its identity
-- is new, it is the next of its Mission, and it has been applied and logged.
pub data Reduced (shapes : Shapes) (s : State) (e : Event) (t : State) : Type 0 where
  replayed : keep (same_identity e) s.applied_events ≡ e ∷ [] → t ≡ s → Reduced shapes s e t
  fresh :
      (r : State)
      → keep (same_identity e) s.applied_events ≡ []
      → e.sequence_no ≡ s.sequence_no + 1
      → e.mission_id ≡ s.mission_context.manifest.mission_id
      → is_terminal s.status ≡ false
      → apply_payload shapes s e e.payload ≡ ok r
      → t ≡ log_event e r
      → Reduced shapes s e t

parse_event-ok : (shapes : Shapes) (e : Event) {f : Event} → parse_event shapes e ≡ ok f → f ≡ e
unfolding parse_event
parse_event-ok shapes e h = ground arith

apply_fresh-guards :
    (shapes : Shapes) (s : State) (e : Event) (t : State)
    → apply_fresh shapes s e ≡ ok t
    → (e.sequence_no ≡ s.sequence_no + 1)
      × (e.mission_id ≡ s.mission_context.manifest.mission_id)
      × (is_terminal s.status ≡ false)
unfolding apply_fresh
apply_fresh-guards shapes s e t h =
    ground (arith, beq→eq e.mission_id s.mission_context.manifest.mission_id)

apply_fresh-applied :
    (shapes : Shapes) (s : State) (e : Event) (t : State)
    → apply_fresh shapes s e ≡ ok t
    → (r : State) × (apply_payload shapes s e e.payload ≡ ok r) × (t ≡ log_event e r)
unfolding apply_fresh
apply_fresh-applied shapes s e t h = ground arith

apply_fresh-Reduced :
    (shapes : Shapes) (s : State) (e : Event) (t : State)
    → keep (same_identity e) s.applied_events ≡ []
    → apply_fresh shapes s e ≡ ok t
    → Reduced shapes s e t
apply_fresh-Reduced shapes s e t new h =
    let (next, mission, live) = apply_fresh-guards shapes s e t h in
    let (r, applied, logged) = apply_fresh-applied shapes s e t h in
    fresh r new next mission live applied logged

reduce-Reduced_of_match :
    (shapes : Shapes) (s : State) (e : Event) (t : State) (matches : List Event)
    → keep (same_identity e) s.applied_events ≡ matches
    → (single_match matches >>= apply_or_replay shapes s e) ≡ ok t
    → Reduced shapes s e t
unfolding apply_or_replay
reduce-Reduced_of_match shapes s e t [] k h = apply_fresh-Reduced shapes s e t k h
reduce-Reduced_of_match shapes s e t (m ∷ []) k h =
    replayed (ground (arith, beq→eq m e)) (ground arith)
reduce-Reduced_of_match shapes s e t (m ∷ n ∷ rest) k h = cc

pub reduce-Reduced :
    (shapes : Shapes) (s : State) (e : Event) {t : State}
    → reduce_mission_coordinator_event shapes s e ≡ ok t
    → (parse_event shapes e ≡ ok e) × Reduced shapes s e t
unfolding reduce_mission_coordinator_event find_replay
reduce-Reduced shapes s e {t} h =
    let (f, p, q) = >>=-eq-ok (parse_event shapes e) _ h in
    let same = parse_event-ok shapes e p in
    (
      p ∙ ap ok same,
      reduce-Reduced_of_match shapes s e t (keep (same_identity e) s.applied_events) refl (
          subst
            (λ x.
              (single_match (keep (same_identity x) s.applied_events)
                >>= apply_or_replay shapes s x)
              ≡ ok t)
            same q),
    )

same_identity_refl : (e : Event) → same_identity e e ≡ true
unfolding same_identity
same_identity_refl e = ground (arith, beq_refl e.event_id)

-- An event that stands once in the log is answered with the state as it is.
reduce-known :
    (shapes : Shapes) (s : State) (e : Event)
    → parse_event shapes e ≡ ok e
    → keep (same_identity e) s.applied_events ≡ e ∷ []
    → reduce_mission_coordinator_event shapes s e ≡ ok s
unfolding reduce_mission_coordinator_event find_replay apply_or_replay
reduce-known shapes s e p k = rw p (rw k (rw (beq_refl e)))

-- Applying an event twice is applying it once: when the coordinator has accepted an event, the same
-- event is accepted again and changes nothing.
pub reduce-idempotent :
    (shapes : Shapes) (s t : State) (e : Event)
    → reduce_mission_coordinator_event shapes s e ≡ ok t
    → reduce_mission_coordinator_event shapes t e ≡ ok t
reduce-idempotent shapes s t e h = let (p, r) = reduce-Reduced shapes s e h in go p r
  where
    go :
        parse_event shapes e ≡ ok e
        → Reduced shapes s e t
        → reduce_mission_coordinator_event shapes t e ≡ ok t
    go p (replayed k same) = rw same (reduce-known shapes s e p k)
    go p (fresh r new seq mission live applied same) = reduce-known shapes t e p (
        rw same (
          rw (apply_payload-SameLog shapes s e e.payload applied).same_events (
            rw (keep-append (same_identity e) s.applied_events (e ∷ []))
              (rw new (rw (same_identity_refl e))))))
