-- ===== src/Protocol/Coordinator/Validity.antt =====
-- Every state that a Mission reaches passes the coordinator's own validation,
-- `validateMissionCoordinatorState` of protocol/src/mission-coordinator.ts.
use mathlib.Core.Path.{subst}
use agent_relay.Prelude.{
  ℕ, suc, ◌+◌, ◌<◌, String, true, ◌≡◌, inr, refl, Option, none, some, List, [], ◌∷◌, ◌++◌, arith,
  ◌==◌, string_eq, nat_eq, beq_refl, includes, every, every-append, length, length-append, ok,
  >>=-eq-ok,
}
use agent_relay.Protocol.Schemas.{Texts}
use agent_relay.Protocol.Records.{ContractRevision}
use agent_relay.Protocol.Coordinator.Events.{Event, has_unique_values, set_size}
use agent_relay.Protocol.Coordinator.State.{
  State, Config, option_list, are_contiguous, is_member_or_null, is_valid_manifest, is_valid_config,
  is_valid_state, create_mission_coordinator_state,
}
use agent_relay.Protocol.Coordinator.Apply.{Shapes}
use agent_relay.Protocol.Coordinator.Reduce.{
  log_event, reduce_mission_coordinator_event, replay_from, replay_mission_coordinator_events,
}
use agent_relay.Protocol.Coordinator.Frame.{apply_payload-SameLog}
use agent_relay.Protocol.Coordinator.Pair.{IsPair, same_string_set-both}
use agent_relay.Protocol.Coordinator.Phase.{
  ids_of, Phase, waiting, speaking, revising, checking, ended,
}
use agent_relay.Protocol.Coordinator.Missions.{IsMission, replay-IsMission}
use agent_relay.Protocol.Coordinator.Contract.{
  IsAgreed, mission_of, pending_fits, revision_belongs, apply_payload-IsAgreed,
}
use agent_relay.Protocol.Coordinator.Log.{Reduced, replayed, fresh, reduce-Reduced}

-- The log is numbered from 1 on, without gaps, by events of the Mission.
pub record IsLogged (s : State) : Type 0 where
  pub counted : length s.applied_events ≡ s.sequence_no
  pub contiguous : are_contiguous (mission_of s) 0 s.applied_events ≡ true

are_contiguous-append :
    (id : String) (n : ℕ) (xs : List Event) (e : Event)
    → are_contiguous id n xs ≡ true
    → e.mission_id ≡ id
    → e.sequence_no ≡ n + length xs + 1
    → are_contiguous id n (xs ++ (e ∷ [])) ≡ true
unfolding are_contiguous
are_contiguous-append id n [] e h m q = ground (arith, beq_refl e.mission_id)
are_contiguous-append id n (x ∷ xs) e h m q =
    ground (arith, are_contiguous-append id (suc n) xs e (ground arith) m (omega arith))

-- What an accepted event keeps.
IsSound : State → Type 0
IsSound s = IsAgreed s × IsLogged s

reduce-IsSound :
    (shapes : Shapes) (s t : State) (e : Event)
    → IsSound s
    → reduce_mission_coordinator_event shapes s e ≡ ok t
    → IsSound t
unfolding IsSound
reduce-IsSound shapes s t e sound h = go (reduce-Reduced shapes s e h).1
  where
    logged : (r : State) → IsAgreed r → IsAgreed (log_event e r)
    logged r i = record {
      version_current = i.version_current;
      type_allowed = i.type_allowed;
      pending_of_mission = i.pending_of_mission;
      accepted_of_mission = i.accepted_of_mission;
      messages_of_mission = i.messages_of_mission;
    }

    go : Reduced shapes s e t → IsAgreed t × IsLogged t
    go (replayed k same) = rw same sound
    go (fresh r new next mission live applied same) =
        let kept = apply_payload-SameLog shapes s e e.payload applied in
        rw same (
          logged r (apply_payload-IsAgreed shapes s e e.payload mission sound.0 applied),
          record {
            counted =
                rw kept.same_events
                  (omega (arith, length-append s.applied_events (e ∷ []), next, sound.1.counted));
            contiguous = rw kept.same_events (
                rw kept.same_context (
                  are_contiguous-append (mission_of s) 0 s.applied_events e sound.1.contiguous
                    mission (omega (arith, next, sound.1.counted))));
          },
        )

replay_from-IsSound :
    (shapes : Shapes) (s t : State) (es : List Event)
    → IsSound s
    → replay_from shapes s es ≡ ok t
    → IsSound t
unfolding replay_from
replay_from-IsSound shapes s t [] sound h = subst IsSound {x = s} {y = t} (ground arith) sound
replay_from-IsSound shapes s t (e ∷ es) sound h =
    let (u, p, q) = >>=-eq-ok (reduce_mission_coordinator_event shapes s e) _ h in
    replay_from-IsSound shapes u t es (reduce-IsSound shapes s u e sound p) q

create-IsSound :
    (texts : Texts) (config : Config) {s : State}
    → create_mission_coordinator_state texts config ≡ ok s
    → IsSound s
unfolding IsSound create_mission_coordinator_state is_valid_config is_valid_manifest are_contiguous
create-IsSound texts config h = ground arith

-- The log of a reached state is numbered without gaps.
pub replay-IsLogged :
    (texts : Texts) (shapes : Shapes) (config : Config) (es : List Event) {s : State}
    → replay_mission_coordinator_events texts shapes config es ≡ ok s
    → IsLogged s
unfolding replay_mission_coordinator_events IsSound
replay-IsLogged texts shapes config es {s} h =
    let (start, p, q) = >>=-eq-ok (create_mission_coordinator_state texts config) _ h in
    (replay_from-IsSound shapes start s es (create-IsSound texts config p) q).1

Phase-members :
    (a b : String) (turns : ℕ) (s : State)
    → IsPair a b
    → Phase a b turns s
    → (is_member_or_null (a ∷ b ∷ []) s.current_participant_agent_id ≡ true)
      × (has_unique_values s.ready_agent_ids ≡ true)
      × (every (includes (a ∷ b ∷ [])) s.ready_agent_ids ≡ true)
unfolding has_unique_values set_size
Phase-members a b turns s w (waiting st c pr r n) = ground arith
Phase-members a b turns s w (speaking p q o st c pr r n) = ground (arith, beq_refl a, beq_refl b)
Phase-members a b turns s w (revising p q v o st c pr pb r n) = ground arith
Phase-members a b turns s w (checking p q o st c pr r n) = ground (arith, beq_refl a, beq_refl b)
Phase-members a b turns s w (ended st c pr r n) = ground arith

pending-belongs :
    (s : State) (o : Option ContractRevision)
    → every (pending_fits s) (option_list o) ≡ true
    → every (revision_belongs (mission_of s)) (option_list o) ≡ true
pending-belongs s none h = refl
pending-belongs s (some r) h = ground arith

is_valid_state_of :
    (a b : String) (turns : ℕ) (pair : IsPair a b) (s : State)
    → IsMission a b turns pair s
    → Phase a b turns s
    → IsSound s
    → is_valid_state s ≡ true
unfolding is_valid_state IsSound
is_valid_state_of a b turns pair s i phase (agreed, logged) =
    let (current, unique, ready) = Phase-members a b turns s pair phase in
    let version : (s.active_contract.version == s.contract_version) ≡ true =
      rw agreed.version_current (beq_refl s.contract_version) in
    let count : (length s.applied_events == s.sequence_no) ≡ true =
      rw logged.counted (beq_refl s.sequence_no) in
    let revisions =
      every-append (revision_belongs (mission_of s)) s.accepted_revisions
        (option_list s.pending_revision) agreed.accepted_of_mission
        (pending-belongs s s.pending_revision agreed.pending_of_mission) in
    rw i.participants (
      rw i.planned (
        rw (same_string_set-both a b b a pair (inr (refl, refl))) (
          rw version (
            rw agreed.type_allowed (
              rw current (
                rw unique (
                  rw ready (
                    rw count
                      (rw logged.contiguous (rw agreed.messages_of_mission revisions))))))))))

-- Every state that a Mission of two participants reaches by accepted events is accepted by the
-- coordinator's own validation, the bounds on single fields and on the lengths of lists apart: the plan has the participants,
-- the active contract has the current version and an allowed type, the speaker and the ready ones
-- are participants, the log is contiguous and as long as the sequence number says, and messages and
-- revisions are of the Mission.
pub replay-is_valid_state :
    (texts : Texts) (shapes : Shapes) (config : Config) (es : List Event) (a b : String) {s : State}
    → ids_of config.mission_context ≡ a ∷ b ∷ []
    → IsPair a b
    → 0 < config.mission_context.manifest.max_turns
    → replay_mission_coordinator_events texts shapes config es ≡ ok s
    → is_valid_state s ≡ true
unfolding replay_mission_coordinator_events
replay-is_valid_state texts shapes config es a b {s} two pair pos h =
    let (i, phase) = replay-IsMission texts shapes config es a b pair two pos h in
    let (start, made, run) = >>=-eq-ok (create_mission_coordinator_state texts config) _ h in
    is_valid_state_of a b config.mission_context.manifest.max_turns pair s i phase
      (replay_from-IsSound shapes start s es (create-IsSound texts config made) run)
