-- ===== src/Protocol/Coordinator/Next.antt =====
-- protocol/src/mission-coordinator.ts: the next event of a reached state, which is no replay.
use agent_relay.Prelude.{
  ℕ, suc, ◌+◌, ◌≤◌, String, Bool, true, ◌≡◌, List, [], ◌∷◌, arith, string_eq, nat_eq, keep, length,
  ok,
}
use agent_relay.Protocol.Coordinator.Events.{Event}
use agent_relay.Protocol.Coordinator.State.{State, are_contiguous}
use agent_relay.Protocol.Coordinator.Apply.{Shapes}
use agent_relay.Protocol.Coordinator.Reduce.{
  apply_payload, log_event, reduce_mission_coordinator_event,
}
use agent_relay.Protocol.Coordinator.Contract.{mission_of}
use agent_relay.Protocol.Coordinator.Validity.{IsLogged}
use agent_relay.Protocol.Coordinator.Log.{Reduced, replayed, fresh, reduce-Reduced}

matched-sequence :
    (id : String) (n : ℕ) (xs : List Event) (test : Event → Bool) (m : Event) (rest : List Event)
    → are_contiguous id n xs ≡ true
    → keep test xs ≡ m ∷ rest
    → m.sequence_no ≤ n + length xs
unfolding are_contiguous
matched-sequence id n [] test m rest h k = cc
matched-sequence id n (x ∷ xs) test m rest h k =
    grind (arith, matched-sequence id (suc n) xs test m rest)

-- In a reached state an event with the next number is new: it is applied and logged.
pub reduce-next :
    (shapes : Shapes) (s : State) (e : Event) {t : State}
    → IsLogged s
    → e.sequence_no ≡ s.sequence_no + 1
    → reduce_mission_coordinator_event shapes s e ≡ ok t
    → (r : State) × (apply_payload shapes s e e.payload ≡ ok r) × (t ≡ log_event e r)
reduce-next shapes s e {t} logged next h = go (reduce-Reduced shapes s e h).1
  where
    go :
        Reduced shapes s e t
        → (r : State) × (apply_payload shapes s e e.payload ≡ ok r) × (t ≡ log_event e r)
    go (replayed k same) = absurd (
        omega (
          arith,
          matched-sequence (mission_of s) 0 s.applied_events _ e [] logged.contiguous k,
          next,
          logged.counted,
        ))
    go (fresh r new seq mission live applied same) = (r, applied, same)
