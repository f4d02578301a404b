-- ===== src/Protocol/Mission/Diagram.antt =====
-- The diagram of a Mission's status, described by what the phases mean
-- (protocol/src/state-machines.ts).
use mathlib.Core.Path.{subst}
use agent_relay.Prelude.{
  ◌≡◌, ◌≢◌, ◌↔◌, refl, List, [], ◌∷◌, ◌++◌, ap, Result, ok, ◌>>=◌, >>=-eq-ok, arith,
}
use agent_relay.Protocol.Schemas.{
  MissionStatus, awaiting_acceptance, active, verifying, blocked, completed, expired, failed,
}
use agent_relay.Protocol.Mission.{
  Event, Error, participants_accepted, participants_ready, blocking_required, block_resolved,
  verification_passed, verification_failed, cancel, expire, fail, transition_mission_status,
}

-- A Mission whose participants have begun and which is not blocked.
pub data IsWorking : MissionStatus → Type 0 where
  working_active : IsWorking active
  working_verifying : IsWorking verifying

pub data IsOpen : MissionStatus → Type 0 where
  open_awaiting : IsOpen awaiting_acceptance
  open_blocked : IsOpen blocked
  open_working : {s : MissionStatus} → IsWorking s → IsOpen s

-- The edges: an open Mission can be ended from outside at any time, a working one can be blocked,
-- and the others lead through acceptance, readiness and verification.
pub data Edge : MissionStatus → Event → MissionStatus → Type 0 where
  begin : Edge awaiting_acceptance participants_accepted active
  check : Edge active participants_ready verifying
  finish : Edge verifying verification_passed completed
  rework : Edge verifying verification_failed active
  resume : Edge blocked block_resolved active
  block : {s : MissionStatus} → IsWorking s → Edge s blocking_required blocked
  cancelling : {s : MissionStatus} → IsOpen s → Edge s cancel MissionStatus.cancelled
  expiring : {s : MissionStatus} → IsOpen s → Edge s expire expired
  failing : {s : MissionStatus} → IsOpen s → Edge s fail failed

ruleset edges = (
  begin, check, finish, rework, resume, block, cancelling, expiring, failing, working_active,
  working_verifying, open_awaiting, open_blocked, open_working,
)

transition-Edge :
    (s : MissionStatus) (e : Event) {t : MissionStatus}
    → transition_mission_status s e ≡ ok t
    → Edge s e t
unfolding transition_mission_status
transition-Edge s e h = grind (arith, edges)

IsWorking-block :
    {s : MissionStatus} → IsWorking s → transition_mission_status s blocking_required ≡ ok blocked
unfolding transition_mission_status
IsWorking-block working_active = refl
IsWorking-block working_verifying = refl

IsOpen-ends :
    {s : MissionStatus}
    → IsOpen s
    → (transition_mission_status s cancel ≡ ok MissionStatus.cancelled)
      × (transition_mission_status s expire ≡ ok expired)
      × (transition_mission_status s fail ≡ ok failed)
unfolding transition_mission_status
IsOpen-ends open_awaiting = (refl, refl, refl)
IsOpen-ends open_blocked = (refl, refl, refl)
IsOpen-ends (open_working working_active) = (refl, refl, refl)
IsOpen-ends (open_working working_verifying) = (refl, refl, refl)

Edge-transition :
    {s : MissionStatus} {e : Event} {t : MissionStatus}
    → Edge s e t
    → transition_mission_status s e ≡ ok t
unfolding transition_mission_status
Edge-transition begin = refl
Edge-transition check = refl
Edge-transition finish = refl
Edge-transition rework = refl
Edge-transition resume = refl
Edge-transition (block w) = IsWorking-block w
Edge-transition (cancelling o) = (IsOpen-ends o).0
Edge-transition (expiring o) = (IsOpen-ends o).1
Edge-transition (failing o) = (IsOpen-ends o).2

-- The table of transitions is the diagram: an event moves a Mission from one status to another
-- exactly where the diagram has that edge.
pub transition-iff_Edge :
    (s t : MissionStatus) (e : Event) → (transition_mission_status s e ≡ ok t) ↔ Edge s e t
transition-iff_Edge s t e = (transition-Edge s e, Edge-transition)

unfoldable pub run : MissionStatus → List Event → Result Error MissionStatus
run s [] = ok s
run s (e ∷ es) = do t ← transition_mission_status s e; run t es

stuck_completed : (e : Event) (t : MissionStatus) → transition_mission_status completed e ≢ ok t
unfolding transition_mission_status
stuck_completed e t h = ground arith

enters_completed :
    (s : MissionStatus) (e : Event)
    → transition_mission_status s e ≡ ok completed
    → (s ≡ verifying) × (e ≡ verification_passed)
unfolding transition_mission_status
enters_completed s e h = ground arith

-- A Mission that is not completed becomes so by a last event `verification_passed`, before which
-- it was verifying.
pub run-completed :
    (s : MissionStatus) (es : List Event)
    → s ≢ completed
    → run s es ≡ ok completed
    → (before : List Event) × (run s before ≡ ok verifying)
      × (es ≡ before ++ (verification_passed ∷ []))
unfolding run
run-completed s [] ne h = absurd (ne (ground arith))
run-completed s (e ∷ []) ne h =
    let (u, p, q) = >>=-eq-ok (transition_mission_status s e) _ h in
    let (was, by) = enters_completed s e (ground arith) in ([], ground arith, ground arith)
run-completed s (e ∷ f ∷ es) ne h =
    let (u, p, q) = >>=-eq-ok (transition_mission_status s e) _ h in
    let (v, p', q') = >>=-eq-ok (transition_mission_status u f) _ q in
    let (before, r, split) =
      run-completed u (f ∷ es)
        (λ same. stuck_completed f v (subst (λ x. transition_mission_status x f ≡ ok v) same p'))
        q in
    (e ∷ before, rw p r, ap (◌∷◌ e) split)
