-- ===== src/Protocol/Coordinator/Missions.antt =====
-- Phases along a whole Mission (protocol/src/mission-coordinator.ts): verification, the dispatch over
-- events, and the replay of any events from the creation on.
use agent_relay.Prelude.{
  ℕ, ◌+◌, ◌≤◌, ◌<◌, String, ◌≡◌, ◌⊎◌, inl, inr, refl, Option, none, some, List, [], ◌∷◌, ◌++◌, map,
  arith, ◌==◌, string_eq, beq→eq, ok, leb, Bool-cases,
}
use agent_relay.Protocol.Schemas.{verifying, mission_status_eq}
use agent_relay.Protocol.Records.{MissionContext}
use agent_relay.Protocol.Mission.{transition_mission_status}
use agent_relay.Protocol.Coordinator.Events.{Event, Payload, VerificationRecorded}
use agent_relay.Protocol.Coordinator.State.{State, VerificationRecord}
use agent_relay.Protocol.Coordinator.Apply.{Shapes, move}
use agent_relay.Protocol.Coordinator.Pair.{IsPair, Others}
use agent_relay.Protocol.Coordinator.Phase.{
  ids_of, Phase, waiting, speaking, revising, checking, ended,
}
use agent_relay.Protocol.Coordinator.Verify.{
  finish_verification, retry_or_fail, judge_records, record_verification,
  apply_verification_recorded,
}
use agent_relay.Protocol.Coordinator.Reduce.{apply_payload}
use agent_relay.Protocol.Coordinator.Turning.{
  apply_mission_terminal-Phase, apply_participants_accepted-Phase,
}
use agent_relay.Protocol.Coordinator.Scheduling.{
  apply_turn_completed-Phase, apply_contract_acknowledged-Phase,
}
use agent_relay.Protocol.Coordinator.State.{
  Commands, Config, key_of, commands_of, commands_by_participant, create_mission_coordinator_state,
}
use agent_relay.Protocol.Coordinator.Reduce.{
  log_event, reduce_mission_coordinator_event, replay_from, replay_mission_coordinator_events,
}
use agent_relay.Protocol.Coordinator.Frame.{apply_payload-SameLog}
use agent_relay.Protocol.Coordinator.Log.{Reduced, replayed, fresh, reduce-Reduced}
use agent_relay.Prelude.{>>=-eq-ok, Result-cases, ap, ◌∙◌}
use agent_relay.Protocol.Schemas.{Texts}
use mathlib.Core.Path.{subst}

-- Only the participants have commands.
commands_of-Others :
    (a b p : String) (commands : Commands) (list : List String)
    → map key_of commands ≡ a ∷ b ∷ []
    → commands_of commands p ≡ some list
    → (q : String) × Others a b p q
unfolding commands_of
commands_of-Others a b p [] list k h = cc
commands_of-Others a b p (x ∷ []) list k h = absurd (ground arith)
commands_of-Others a b p ((i, v) ∷ (j, w) ∷ []) list k h = elim (Bool-cases (i == p)) [
  | inl first ↦ (b, inl (ground (arith, beq→eq i p), refl))
  | inr second ↦ (a, inr (ground (arith, beq→eq j p), refl))
]
commands_of-Others a b p (x ∷ y ∷ z ∷ l) list k h = absurd (ground arith)

-- How a participant's evidence is judged: it is only kept, a failure is acted on, or all is passed.
pub judge_records-cases :
    (s : State) (id : String) (required : List String) (records : List VerificationRecord)
    {t : State}
    → judge_records s id required records ≡ ok t
    → (t ≡ record s { verification_records = records })
      ⊎ ((retry_or_fail s id ≡ ok t) ⊎ (finish_verification s records ≡ ok t))
unfolding judge_records
judge_records-cases s id required records h = ground arith

pub record_verification-judged :
    (s : State) (id : String) (e : VerificationRecorded) (required : List String) {t : State}
    → record_verification s id e required ≡ ok t
    → (records : List VerificationRecord) × (judge_records s e.participant_agent_id required records
        ≡ ok t)
unfolding record_verification
record_verification-judged s id e required h = (
  s.verification_records
      ++ (record {
        event_id = id;
        participant_agent_id = e.participant_agent_id;
        contract_version = e.contract_version;
        verification_round = e.verification_round;
        evidence = e.evidence;
      }
          ∷ []),
  ground arith,
)

pub apply_verification_recorded-plan :
    (s : State) (id : String) (e : VerificationRecorded) (plan : Option (List String)) {t : State}
    → commands_of s.required_verification_commands e.participant_agent_id ≡ plan
    → apply_verification_recorded s id e ≡ ok t
    → (s.status ≡ verifying)
      × ((required : List String) × (plan ≡ some required)
          × (record_verification s id e required ≡ ok t))
unfolding apply_verification_recorded
apply_verification_recorded-plan s id e none k h = absurd (ground arith)
apply_verification_recorded-plan s id e (some required) k h =
    (ground arith, (required, refl, ground arith))

module _ (a b : String) (turns : ℕ) (pair : IsPair a b) where
  retry_or_fail-Phase :
      (s : State) (p q : String) {t : State}
      → ids_of s.mission_context ≡ a ∷ b ∷ []
      → s.mission_context.manifest.max_turns ≡ turns
      → Others a b p q
      → s.status ≡ verifying
      → s.pending_revision ≡ none
      → s.turn_count ≤ turns
      → retry_or_fail s p ≡ ok t
      → Phase a b turns t
  unfolding retry_or_fail move transition_mission_status
  retry_or_fail-Phase s p q ids m o st pr n h = elim (Bool-cases (leb (s.turn_count + 2) turns)) [
    | inl can_retry ↦
        speaking p q o (ground arith) (ground arith) (ground arith) (inl (ground arith))
          (ground arith)
    | inr used_up ↦ ended (ground arith) (ground arith) (ground arith) (ground arith) (ground arith)
  ]

  finish_verification-Phase :
      (s : State) (records : List VerificationRecord) (p q : String) {t : State}
      → Others a b p q
      → s.status ≡ verifying
      → s.current_participant_agent_id ≡ none
      → s.pending_revision ≡ none
      → s.ready_agent_ids ≡ q ∷ p ∷ []
      → s.turn_count ≤ turns
      → finish_verification s records ≡ ok t
      → Phase a b turns t
  unfolding finish_verification move transition_mission_status
  finish_verification-Phase s records p q o st c pr r n h =
      checking p q o (ground arith) (ground arith) (ground arith) (ground arith) (ground arith)

  judge_records-Phase :
      (s : State) (id : String) (required : List String) (records : List VerificationRecord)
      (p q other : String) {t : State}
      → ids_of s.mission_context ≡ a ∷ b ∷ []
      → s.mission_context.manifest.max_turns ≡ turns
      → Others a b p q
      → Others a b id other
      → s.status ≡ verifying
      → s.current_participant_agent_id ≡ none
      → s.pending_revision ≡ none
      → s.ready_agent_ids ≡ q ∷ p ∷ []
      → s.turn_count ≤ turns
      → judge_records s id required records ≡ ok t
      → Phase a b turns t
  unfolding judge_records
  judge_records-Phase s id required records p q other {t} ids m o known st c pr r n h =
      go (judge_records-cases s id required records h)
    where
      go :
          (t ≡ record s { verification_records = records })
            ⊎ ((retry_or_fail s id ≡ ok t) ⊎ (finish_verification s records ≡ ok t))
          → Phase a b turns t
      go (inl kept) =
          checking p q o (inl (ground arith)) (ground arith) (ground arith) (ground arith)
            (ground arith)
      go (inr (inl retried)) = retry_or_fail-Phase s id other ids m known st pr n retried
      go (inr (inr finished)) = finish_verification-Phase s records p q o st c pr r n finished

  apply_verification_recorded-Phase :
      (s : State) (id : String) (e : VerificationRecorded) {t : State}
      → ids_of s.mission_context ≡ a ∷ b ∷ []
      → s.mission_context.manifest.max_turns ≡ turns
      → map key_of s.required_verification_commands ≡ a ∷ b ∷ []
      → Phase a b turns s
      → apply_verification_recorded s id e ≡ ok t
      → Phase a b turns t
  apply_verification_recorded-Phase s id e ids m keys phase h =
      let (st, (required, plan, recorded)) = apply_verification_recorded-plan s id e _ refl h in
      let (records, judged) = record_verification-judged s id e required recorded in
      let (other, known) =
        commands_of-Others a b e.participant_agent_id s.required_verification_commands required keys
          plan in
      go st required records other known judged phase
    where
      go :
          {t : State}
          → s.status ≡ verifying
          → (required : List String) (records : List VerificationRecord) (other : String)
          → Others a b e.participant_agent_id other
          → judge_records s e.participant_agent_id required records ≡ ok t
          → Phase a b turns s
          → Phase a b turns t
      go st required records other known judged (checking p q o is c pr r n) =
          judge_records-Phase s e.participant_agent_id required records p q other ids m o known st c
            pr r n judged
      go st required records other known judged (waiting is c pr r n) = absurd (ground arith)
      go st required records other known judged (speaking p q o is c pr r n) = absurd (ground arith)
      go st required records other known judged (revising p q v o is c pr pb r n) =
          absurd (ground arith)
      go st required records other known judged (ended is c pr r n) = absurd (ground arith)

  Phase-turns : (s : State) → Phase a b turns s → s.turn_count ≤ turns
  Phase-turns s (waiting st c pr r n) = omega (arith, n)
  Phase-turns s (speaking p q o st c pr r n) = omega arith
  Phase-turns s (revising p q v o st c pr pb r n) = omega arith
  Phase-turns s (checking p q o st c pr r n) = n
  Phase-turns s (ended st c pr r n) = n

  -- What the creation fixes.
  pub record IsMission (s : State) : Type 0 where
    pub participants : ids_of s.mission_context ≡ a ∷ b ∷ []
    pub limit : s.mission_context.manifest.max_turns ≡ turns
    pub planned : map key_of s.required_verification_commands ≡ a ∷ b ∷ []
    pub has_turns : 0 < turns

  apply_payload-Phase :
      (shapes : Shapes) (s : State) (event : Event) (p : Payload) {t : State}
      → IsMission s
      → Phase a b turns s
      → apply_payload shapes s event p ≡ ok t
      → Phase a b turns t
  unfolding apply_payload
  apply_payload-Phase shapes s event (Payload.participants_accepted p) i f h =
      apply_participants_accepted-Phase a b turns pair s p i.participants f i.has_turns h
  apply_payload-Phase shapes s event (Payload.turn_completed p) i f h =
      apply_turn_completed-Phase a b turns pair s event.mission_id p i.participants i.limit f h
  apply_payload-Phase shapes s event (Payload.contract_acknowledged p) i f h =
      apply_contract_acknowledged-Phase a b turns pair shapes s p i.participants f h
  apply_payload-Phase shapes s event (Payload.verification_recorded p) i f h =
      apply_verification_recorded-Phase s event.event_id p i.participants i.limit i.planned f h
  apply_payload-Phase shapes s event (Payload.mission_terminal p) i f h =
      apply_mission_terminal-Phase a b turns pair s p (Phase-turns s f) h

  fresh-Phase :
      (shapes : Shapes) (s t : State) (e : Event)
      → IsMission s
      → Phase a b turns s
      → Reduced shapes s e t
      → IsMission t × Phase a b turns t
  fresh-Phase shapes s t e i f (replayed k same) = rw same (i, f)
  fresh-Phase shapes s t e i f (fresh r new next mission live applied same) =
      let kept = apply_payload-SameLog shapes s e e.payload applied in
      rw same (
        record {
          participants = ap ids_of kept.same_context ∙ i.participants;
          limit = ap (λ (c : MissionContext). c.manifest.max_turns) kept.same_context ∙ i.limit;
          planned = ap (map key_of) kept.same_commands ∙ i.planned;
          has_turns = i.has_turns;
        },
        logged r (apply_payload-Phase shapes s e e.payload i f applied),
      )
    where
      logged : (r : State) → Phase a b turns r → Phase a b turns (log_event e r)
      logged r (waiting st c pr v n) = waiting st c pr v n
      logged r (speaking p q o st c pr v n) = speaking p q o st c pr v n
      logged r (revising p q w o st c pr pb v n) = revising p q w o st c pr pb v n
      logged r (checking p q o st c pr v n) = checking p q o st c pr v n
      logged r (ended st c pr v n) = ended st c pr v n

  pub replay_from-Phase :
      (shapes : Shapes) (s t : State) (es : List Event)
      → IsMission s
      → Phase a b turns s
      → replay_from shapes s es ≡ ok t
      → IsMission t × Phase a b turns t
  unfolding replay_from
  replay_from-Phase shapes s t [] i f h =
      subst (λ x. IsMission x × Phase a b turns x) (ground arith) (i, f)
  replay_from-Phase shapes s t (e ∷ es) i f h =
      let (u, p, q) = >>=-eq-ok (reduce_mission_coordinator_event shapes s e) _ h in
      let (j, g) = fresh-Phase shapes s u e i f (reduce-Reduced shapes s e p).1 in
      replay_from-Phase shapes u t es j g q

commands_by_participant-keys :
    (commands list : Commands) (ids : List String)
    → commands_by_participant commands ids ≡ ok list
    → map key_of list ≡ ids
unfolding commands_by_participant
commands_by_participant-keys commands list [] h = ground arith
commands_by_participant-keys commands list (p ∷ ps) h =
    elim (Result-cases (commands_by_participant commands ps)) [
      | inl (e, failed) ↦ absurd (ground arith)
      | inr (rest, made) ↦ ground (arith, commands_by_participant-keys commands rest ps)
    ]

create-commands :
    (texts : Texts) (config : Config) {s : State}
    → create_mission_coordinator_state texts config ≡ ok s
    → (s.mission_context ≡ config.mission_context)
      × (commands_by_participant config.required_verification_commands
            (ids_of config.mission_context)
          ≡ ok s.required_verification_commands)
unfolding create_mission_coordinator_state
create-commands texts config h = (ground arith, ground arith)

create-Phase :
    (texts : Texts) (config : Config) (a b : String) {s : State}
    → create_mission_coordinator_state texts config ≡ ok s
    → Phase a b config.mission_context.manifest.max_turns s
unfolding create_mission_coordinator_state
create-Phase texts config a b h =
    waiting (ground arith) (ground arith) (ground arith) (ground arith) (ground arith)

pub replay-IsMission :
    (texts : Texts) (shapes : Shapes) (config : Config) (es : List Event) (a b : String)
    (pair : IsPair a b) {s : State}
    → ids_of config.mission_context ≡ a ∷ b ∷ []
    → 0 < config.mission_context.manifest.max_turns
    → replay_mission_coordinator_events texts shapes config es ≡ ok s
    → IsMission a b config.mission_context.manifest.max_turns pair s
      × Phase a b config.mission_context.manifest.max_turns s
unfolding replay_mission_coordinator_events
replay-IsMission texts shapes config es a b pair {s} two pos h =
    let (start, made, run) = >>=-eq-ok (create_mission_coordinator_state texts config) _ h in
    let (context, plan) = create-commands texts config made in
    replay_from-Phase a b config.mission_context.manifest.max_turns pair shapes start s es
      (record {
        participants = ap ids_of context ∙ two;
        limit = ap (λ (c : MissionContext). c.manifest.max_turns) context;
        planned =
            commands_by_participant-keys config.required_verification_commands
              start.required_verification_commands (ids_of config.mission_context) plan
            ∙ two;
        has_turns = pos;
      })
      (create-Phase texts config a b made) run

-- In every state that a Mission of two participants reaches by accepted events, the coordinator is
-- in one of its phases: it waits for acceptance; or it is active, and either exactly one of the two
-- has the turn, with at most the other one ready, or nobody has and one's revision is pending; or
-- both are ready, and it verifies or is completed; or it has expired or failed. Turns are left
-- while it is active, and in no phase have more been taken than the manifest allows.
pub replay-Phase :
    (texts : Texts) (shapes : Shapes) (config : Config) (es : List Event) (a b : String) {s : State}
    → ids_of config.mission_context ≡ a ∷ b ∷ []
    → IsPair a b
    → 0 < config.mission_context.manifest.max_turns
    → replay_mission_coordinator_events texts shapes config es ≡ ok s
    → Phase a b config.mission_context.manifest.max_turns s
      × (s.turn_count ≤ config.mission_context.manifest.max_turns)
replay-Phase texts shapes config es a b {s} two pair pos h =
    let (_, phase) = replay-IsMission texts shapes config es a b pair two pos h in
    (phase, Phase-turns a b config.mission_context.manifest.max_turns pair s phase)
