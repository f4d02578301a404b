-- ===== src/Protocol/Coordinator/Completion.antt =====
-- When a Mission is completed (protocol/src/mission-coordinator.ts).
use mathlib.Core.Path.{subst}
use agent_relay.Prelude.{
  ℕ, ◌+◌, String, Bool, true, ◌≡◌, ◌≢◌, ◌⊎◌, inl, inr, refl, some, List, [], ◌∷◌, arith, ◌==◌,
  string_eq, nat_eq, beq→eq, includes, any, every, ok, >>=-eq-ok, Bool-cases,
}
use agent_relay.Protocol.Schemas.{Texts, active, verifying, completed, mission_status_eq}
use agent_relay.Protocol.Records.{TurnDisposition}
use agent_relay.Protocol.Mission.{transition_mission_status}
use agent_relay.Protocol.Coordinator.Events.{Event, Payload, TurnCompleted, VerificationRecorded}
use agent_relay.Protocol.Coordinator.State.{
  State, Config, VerificationRecord, Commands, participant_ids, commands_of,
  create_mission_coordinator_state,
}
use agent_relay.Protocol.Coordinator.Apply.{
  Shapes, move, apply_mission_terminal, apply_participants_accepted, apply_reply,
  apply_reply_message, apply_contract_proposal, apply_proposed_revision, apply_ready,
}
use agent_relay.Protocol.Coordinator.Turns.{
  apply_disposition, close_used_up, apply_turn_completed, accept_acknowledged, acknowledge_pending,
  apply_contract_acknowledged,
}
use agent_relay.Protocol.Coordinator.Verify.{
  shows_pass, all_passed_of, all_required_commands_passed, finish_verification, retry_or_fail,
  apply_verification_recorded,
}
use agent_relay.Protocol.Coordinator.Reduce.{
  apply_payload, reduce_mission_coordinator_event, replay_from, replay_mission_coordinator_events,
}
use agent_relay.Protocol.Coordinator.Missions.{
  judge_records-cases, record_verification-judged, apply_verification_recorded-plan,
}
use agent_relay.Protocol.Coordinator.Log.{Reduced, replayed, fresh, reduce-Reduced}

-- A completed Mission has passed its whole plan.
abbrev IsEarned : State → Type 0
IsEarned s = s.status ≡ completed → all_required_commands_passed s s.verification_records ≡ ok true

apply_disposition-not_completed :
    (s : State) (id : String) (e : TurnCompleted) (d : TurnDisposition) {t : State}
    → s.status ≡ active
    → apply_disposition s id e d ≡ ok t
    → t.status ≢ completed
unfolding apply_disposition apply_reply apply_reply_message apply_contract_proposal
    apply_proposed_revision apply_ready move transition_mission_status
apply_disposition-not_completed s id e (TurnDisposition.reply m b a) st h c = ground arith
apply_disposition-not_completed s id e (TurnDisposition.propose_contract a) st h c = ground arith
apply_disposition-not_completed s id e (TurnDisposition.ready a) st h c = ground arith
apply_disposition-not_completed s id e (TurnDisposition.blocked a b) st h c = ground arith
apply_disposition-not_completed s id e (TurnDisposition.failed x) st h c = ground arith

close_used_up-not_completed :
    (s : State) {t : State} → close_used_up s ≡ ok t → s.status ≢ completed → t.status ≢ completed
unfolding close_used_up move transition_mission_status
close_used_up-not_completed s h n c = ground arith

apply_turn_completed-not_completed :
    (s : State) (id : String) (e : TurnCompleted) {t : State}
    → apply_turn_completed s id e ≡ ok t
    → t.status ≢ completed
unfolding apply_turn_completed
apply_turn_completed-not_completed s id e {t} h c =
    close_used_up-not_completed reduced.0 reduced.2
      (apply_disposition-not_completed (record s { turn_count = s.turn_count + 1 }) id e
        e.disposition (ground arith) reduced.1)
      c
  where
    reduced :
        (u : State) × (apply_disposition
            (record s { turn_count = s.turn_count + 1 })
            id
            e
            e.disposition
          ≡ ok u)
        × (close_used_up u ≡ ok t)
    reduced = ground arith

finish_verification-IsEarned :
    (s : State) (records : List VerificationRecord) {t : State}
    → s.status ≡ verifying
    → finish_verification s records ≡ ok t
    → IsEarned t
unfolding finish_verification move transition_mission_status
finish_verification-IsEarned s records st h c = ground arith

retry_or_fail-not_completed :
    (s : State) (id : String) {t : State}
    → s.status ≡ verifying
    → retry_or_fail s id ≡ ok t
    → t.status ≢ completed
unfolding retry_or_fail move transition_mission_status
retry_or_fail-not_completed s id st h c = ground arith

apply_verification_recorded-IsEarned :
    (s : State) (id : String) (e : VerificationRecorded) {t : State}
    → apply_verification_recorded s id e ≡ ok t
    → IsEarned t
apply_verification_recorded-IsEarned s id e {t} h =
    let (st, (required, plan, recorded)) = apply_verification_recorded-plan s id e _ refl h in
    let (records, judged) = record_verification-judged s id e required recorded in
    go st records (judge_records-cases s e.participant_agent_id required records judged)
  where
    go :
        s.status ≡ verifying
        → (records : List VerificationRecord)
        → (t ≡ record s { verification_records = records })
          ⊎ ((retry_or_fail s e.participant_agent_id ≡ ok t)
              ⊎ (finish_verification s records ≡ ok t))
        → IsEarned t
    go st records (inl kept) c = absurd (ground arith)
    go st records (inr (inl retried)) c =
        absurd (retry_or_fail-not_completed s e.participant_agent_id st retried c)
    go st records (inr (inr finished)) c = finish_verification-IsEarned s records st finished c

apply_payload-IsEarned :
    (shapes : Shapes) (s : State) (event : Event) (p : Payload) {t : State}
    → apply_payload shapes s event p ≡ ok t
    → IsEarned t
unfolding apply_payload apply_participants_accepted apply_mission_terminal
    apply_contract_acknowledged acknowledge_pending accept_acknowledged move
    transition_mission_status
apply_payload-IsEarned shapes s event (Payload.participants_accepted p) h c = absurd (ground arith)
apply_payload-IsEarned shapes s event (Payload.turn_completed p) h c =
    absurd (apply_turn_completed-not_completed s event.mission_id p h c)
apply_payload-IsEarned shapes s event (Payload.contract_acknowledged p) h c = absurd (ground arith)
apply_payload-IsEarned shapes s event (Payload.verification_recorded p) h c =
    apply_verification_recorded-IsEarned s event.event_id p h c
apply_payload-IsEarned shapes s event (Payload.mission_terminal p) h c = absurd (ground arith)

reduce-IsEarned :
    (shapes : Shapes) (s t : State) (e : Event)
    → IsEarned s
    → reduce_mission_coordinator_event shapes s e ≡ ok t
    → IsEarned t
reduce-IsEarned shapes s t e earned h = go (reduce-Reduced shapes s e h).1
  where
    go : Reduced shapes s e t → IsEarned t
    go (replayed k same) = rw same earned
    go (fresh r new next mission live applied same) =
        rw same (apply_payload-IsEarned shapes s e e.payload applied)

replay_from-IsEarned :
    (shapes : Shapes) (s t : State) (es : List Event)
    → IsEarned s
    → replay_from shapes s es ≡ ok t
    → IsEarned t
unfolding replay_from
replay_from-IsEarned shapes s t [] earned h = subst IsEarned {x = s} {y = t} (ground arith) earned
replay_from-IsEarned shapes s t (e ∷ es) earned h =
    let (u, p, q) = >>=-eq-ok (reduce_mission_coordinator_event shapes s e) _ h in
    replay_from-IsEarned shapes u t es (reduce-IsEarned shapes s u e earned p) q

create-not_completed :
    (texts : Texts) (config : Config) {s : State}
    → create_mission_coordinator_state texts config ≡ ok s
    → s.status ≢ completed
unfolding create_mission_coordinator_state
create-not_completed texts config h c = ground arith

every-includes :
    (test : String → Bool) (xs : List String) (x : String)
    → every test xs ≡ true
    → includes xs x ≡ true
    → test x ≡ true
every-includes test [] x e i = cc
every-includes test (y ∷ ys) x e i = elim (Bool-cases (y == x)) [
  | inl same ↦ subst (λ z. test z ≡ true) (beq→eq y x same) (ground arith)
  | inr other ↦ every-includes test ys x (ground arith) (ground arith)
]

all_passed_of-head :
    (plan : Commands) (version round : ℕ) (records : List VerificationRecord) (p : String)
    (ps commands : List String)
    → all_passed_of plan version round records (p ∷ ps) ≡ ok true
    → commands_of plan p ≡ some commands
    → every (λ k. any (shows_pass version round p k) records) commands ≡ true
unfolding all_passed_of
all_passed_of-head plan version round records p ps commands h found = ground arith

all_passed_of-tail :
    (plan : Commands) (version round : ℕ) (records : List VerificationRecord) (p : String)
    (ps : List String)
    → all_passed_of plan version round records (p ∷ ps) ≡ ok true
    → all_passed_of plan version round records ps ≡ ok true
unfolding all_passed_of
all_passed_of-tail plan version round records p ps h = ground arith

all_passed_of-shows :
    (plan : Commands) (version round : ℕ) (records : List VerificationRecord) (ids : List String)
    (p command : String) (commands : List String)
    → all_passed_of plan version round records ids ≡ ok true
    → includes ids p ≡ true
    → commands_of plan p ≡ some commands
    → includes commands command ≡ true
    → any (shows_pass version round p command) records ≡ true
all_passed_of-shows plan version round records [] p command commands h i found c = cc
all_passed_of-shows plan version round records (x ∷ xs) p command commands h i found c =
    elim (Bool-cases (x == p)) [
      | inl same ↦
          every-includes (λ k. any (shows_pass version round p k) records) commands command
            (all_passed_of-head plan version round records p xs commands
              (subst (λ z. all_passed_of plan version round records (z ∷ xs) ≡ ok true)
                (beq→eq x p same) h)
              found)
            c
      | inr other ↦
          all_passed_of-shows plan version round records xs p command commands
            (all_passed_of-tail plan version round records x xs h) (ground arith) found c
    ]

-- A Mission that its events have led to `completed` has passed its plan: for each participant and
-- each command required of it, the state holds a record of that participant and command, with the
-- outcome `passed`, made for the contract version and in the verification round that are current.
pub replay-completed :
    (texts : Texts) (shapes : Shapes) (config : Config) (es : List Event) {s : State}
    → replay_mission_coordinator_events texts shapes config es ≡ ok s
    → s.status ≡ completed
    → (p command : String) (commands : List String) → includes (participant_ids s) p ≡ true
    → commands_of s.required_verification_commands p ≡ some commands
    → includes commands command ≡ true
    → any (shows_pass s.contract_version s.verification_round p command) s.verification_records
      ≡ true
unfolding replay_mission_coordinator_events
replay-completed texts shapes config es {s} h done p command commands i found c =
    let (start, made, run) = >>=-eq-ok (create_mission_coordinator_state texts config) _ h in
    all_passed_of-shows s.required_verification_commands s.contract_version s.verification_round
      s.verification_records (participant_ids s) p command commands
      (replay_from-IsEarned shapes start s es
        (λ c. absurd (create-not_completed texts config made c)) run done)
      i found c
