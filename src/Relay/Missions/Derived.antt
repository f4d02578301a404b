-- ===== src/Relay/Missions/Derived.antt =====
-- relay/src/services/mission-ledger.ts: an accepted event always gives rise to deliveries for its
-- Mission's participants.
use mathlib.Core.Path.{subst}
use agent_relay.Prelude.{
  ℕ, ◌+◌, ◌<◌, ◌≡◌, ◌⊎◌, inl, inr, refl, ap, sym, ◌∙◌, String, true, not, ◌&&◌, false, none, some,
  List, [], ◌∷◌, ◌++◌, map, arith, ok, ◌==◌, beq→eq, Bool-cases, Option-cases,
}
use agent_relay.Protocol.Schemas.{
  Texts, active, verifying, failed, mission_status_eq, turn, verification, contract_acknowledgement,
}
use agent_relay.Protocol.Records.{ArtifactRef, ContractRevision, TurnDisposition}
use agent_relay.Protocol.Mission.{transition_mission_status}
use agent_relay.Protocol.Coordinator.Events.{Event, Payload, TurnCompleted}
use agent_relay.Protocol.Coordinator.State.{State, Config}
use agent_relay.Protocol.Coordinator.Apply.{
  Shapes, move, apply_proposed_revision, apply_contract_proposal,
}
use agent_relay.Protocol.Coordinator.Turns.{apply_disposition, close_used_up, apply_turn_completed}
use agent_relay.Protocol.Coordinator.Reduce.{
  apply_payload, log_event, reduce_mission_coordinator_event, replay_mission_coordinator_events,
}
use agent_relay.Protocol.Coordinator.Pair.{IsPair}
use agent_relay.Protocol.Coordinator.Phase.{
  ids_of, Phase, waiting, speaking, revising, checking, ended,
}
use agent_relay.Protocol.Coordinator.Missions.{replay-IsMission}
use agent_relay.Protocol.Coordinator.Validity.{replay-IsLogged}
use agent_relay.Protocol.Coordinator.Next.{reduce-next}
use agent_relay.Relay.Missions.Ends.{replay-extended}
use agent_relay.Relay.Missions.Targets.{
  Target, proposes, proposes_contract, acknowledgement_of, verification_of, acknowledgement_targets,
  work_targets, derive_targets,
}
use agent_relay.Relay.Missions.Work.{
  Work, to_acknowledge, used_up, to_verify, to_move, waiting_on, nothing_new, target, is_proposal,
  is_proposal_lem, acknowledgements-both, verifications-both,
}

close_used_up-pending :
    (s : State) (revision : ContractRevision) {t : State}
    → s.pending_revision ≡ some revision
    → close_used_up s ≡ ok t
    → (t.pending_revision ≡ some revision) ⊎ (t.status ≡ failed)
unfolding close_used_up move transition_mission_status
close_used_up-pending s revision p h = ground arith

proposal-pending :
    (s : State) (mission_id : String) (event : TurnCompleted) (artifact : ArtifactRef) {t : State}
    → apply_contract_proposal s mission_id event artifact ≡ ok t
    → (revision : ContractRevision) × (t.pending_revision ≡ some revision)
unfolding apply_contract_proposal apply_proposed_revision
proposal-pending s mission_id event artifact h = elim (Option-cases event.revision) [
  | inl none_given ↦ absurd (ground arith)
  | inr (revision, given) ↦ (revision, ground arith)
]

disposition-pending :
    (s : State) (mission_id : String) (event : TurnCompleted) (d : TurnDisposition) {t : State}
    → proposes d ≡ true
    → apply_disposition s mission_id event d ≡ ok t
    → (revision : ContractRevision) × (t.pending_revision ≡ some revision)
unfolding apply_disposition
disposition-pending s mission_id event (TurnDisposition.propose_contract artifact) p h =
    proposal-pending s mission_id event artifact h
disposition-pending s mission_id event (TurnDisposition.reply x y z) p h = cc
disposition-pending s mission_id event (TurnDisposition.ready x) p h = cc
disposition-pending s mission_id event (TurnDisposition.blocked x y) p h = cc
disposition-pending s mission_id event (TurnDisposition.failed x) p h = cc

turn-applied :
    (s : State) (mission_id : String) (event : TurnCompleted) {t : State}
    → apply_turn_completed s mission_id event ≡ ok t
    → (r : State) × (apply_disposition
          (record s { turn_count = s.turn_count + 1 })
          mission_id
          event
          event.disposition
        ≡ ok r)
      × (close_used_up r ≡ ok t)
unfolding apply_turn_completed
turn-applied s mission_id event h = ground arith

-- A proposal leaves a revision that waits, or the Mission has failed by its last turn.
payload-pending :
    (shapes : Shapes) (s : State) (event : Event) (payload : Payload) {t : State}
    → proposes_contract payload ≡ true
    → apply_payload shapes s event payload ≡ ok t
    → ((revision : ContractRevision) × (t.pending_revision ≡ some revision)) ⊎ (t.status ≡ failed)
unfolding apply_payload
payload-pending shapes s event (Payload.turn_completed done) {t} proposed h =
    let (r, disposed, closed) = turn-applied s event.mission_id done h in
    let (revision, pending) =
      disposition-pending (record s { turn_count = s.turn_count + 1 }) event.mission_id done
        done.disposition proposed disposed in
    elim (close_used_up-pending r revision pending closed) [
      | inl kept ↦ inl (revision, kept)
      | inr over ↦ inr over
    ]
payload-pending shapes s event (Payload.participants_accepted p) proposed h = cc
payload-pending shapes s event (Payload.contract_acknowledged p) proposed h = cc
payload-pending shapes s event (Payload.verification_recorded p) proposed h = cc
payload-pending shapes s event (Payload.mission_terminal p) proposed h = cc

-- An active Mission in which nobody has the turn has a revision that waits.
nobody-pending :
    (a b : String) (turns : ℕ) (s : State)
    → Phase a b turns s
    → s.status ≡ active
    → s.current_participant_agent_id ≡ none
    → (revision : ContractRevision) × (s.pending_revision ≡ some revision)
nobody-pending a b turns s (revising p q revision who at nobody waits by ready left) acts free =
    (revision, waits)
nobody-pending a b turns s (waiting at nobody waits ready taken) acts free = cc
nobody-pending a b turns s (speaking p q who at has waits ready left) acts free = cc
nobody-pending a b turns s (checking p q who (inl at) nobody waits ready left) acts free = cc
nobody-pending a b turns s (checking p q who (inr at) nobody waits ready left) acts free = cc
nobody-pending a b turns s (ended (inl at) nobody waits ready left) acts free = cc
nobody-pending a b turns s (ended (inr at) nobody waits ready left) acts free = cc

work_targets-starting :
    (previous next : State)
    → (not (previous.status == verifying) && next.status == verifying) ≡ true
    → work_targets previous next
      ≡ map (verification_of next) next.mission_context.manifest.participants
unfolding work_targets
work_targets-starting previous next starts = ground arith

work_targets-Work :
    (a b : String) (turns : ℕ) (previous next : State) (payload : Payload)
    → ids_of next.mission_context ≡ a ∷ b ∷ []
    → Phase a b turns next
    → is_proposal payload ≡ false
    → Work a b previous next payload (work_targets previous next)
unfolding work_targets
work_targets-Work a b turns previous next payload two phase other =
    elim (Bool-cases (not (previous.status == verifying) && next.status == verifying)) [
      | inl starts ↦
          subst (Work a b previous next payload)
            (sym (
              work_targets-starting previous next starts
              ∙ verifications-both next next.mission_context.manifest.participants
              ∙ ap (map (target verification next.contract_version (some next.verification_round)))
                  two))
            (to_verify other (ground arith) (beq→eq next.status verifying (ground arith)))
      | inr runs ↦ elim (Bool-cases (next.status == active)) [
        | inr rests ↦
            subst (Work a b previous next payload) {x = []} (ground arith)
              (nothing_new other rests (ground arith))
        | inl acts ↦ elim (Option-cases next.current_participant_agent_id) [
          | inl nobody ↦
              let (revision, waits) =
                nobody-pending a b turns next phase (beq→eq next.status active acts) nobody in
              subst (Work a b previous next payload) {x = []} (ground arith)
                (waiting_on revision other (beq→eq next.status active acts) waits)
          | inr (mover, has_turn) ↦
              subst (Work a b previous next payload)
                {x = target turn next.contract_version none mover ∷ []} (ground arith)
                (to_move mover other (beq→eq next.status active acts) has_turn)
        ]
      ]
    ]

acknowledgement_targets-pending :
    (a b : String) (previous next : State) (payload : Payload) (revision : ContractRevision)
    → ids_of next.mission_context ≡ a ∷ b ∷ []
    → is_proposal payload ≡ true
    → next.pending_revision ≡ some revision
    → (targets : List Target) × (acknowledgement_targets next ≡ ok targets)
      × Work a b previous next payload targets
unfolding acknowledgement_targets
acknowledgement_targets-pending a b previous next payload revision two proposed pending = (
  map (acknowledgement_of revision.version) next.mission_context.manifest.participants,
  ground arith,
  subst (Work a b previous next payload)
      (sym (
        acknowledgements-both revision.version next.mission_context.manifest.participants
        ∙ ap (map (target contract_acknowledgement revision.version none)) two))
      (to_acknowledge revision proposed pending),
)

acknowledgement_targets-Work :
    (a b : String) (previous next : State) (payload : Payload)
    → ids_of next.mission_context ≡ a ∷ b ∷ []
    → is_proposal payload ≡ true
    → ((revision : ContractRevision) × (next.pending_revision ≡ some revision))
      ⊎ (next.status ≡ failed)
    → (targets : List Target) × (acknowledgement_targets next ≡ ok targets)
      × Work a b previous next payload targets
unfolding acknowledgement_targets
acknowledgement_targets-Work a b previous next payload two proposed (inl (revision, pending)) =
    acknowledgement_targets-pending a b previous next payload revision two proposed pending
acknowledgement_targets-Work a b previous next payload two proposed (inr over) =
    elim (Option-cases next.pending_revision) [
      | inl nothing ↦ ([], ground arith, used_up proposed over)
      | inr (revision, pending) ↦
          acknowledgement_targets-pending a b previous next payload revision two proposed pending
    ]

derive_targets-Work :
    (shapes : Shapes) (a b : String) (turns : ℕ) (previous next r : State) (event : Event)
    → ids_of next.mission_context ≡ a ∷ b ∷ []
    → Phase a b turns next
    → apply_payload shapes previous event event.payload ≡ ok r
    → next ≡ log_event event r
    → (targets : List Target) × (derive_targets previous next event ≡ ok targets)
      × Work a b previous next event.payload targets
unfolding derive_targets
derive_targets-Work shapes a b turns previous next r event two phase applied same =
    elim (Bool-cases (proposes_contract event.payload)) [
      | inr other ↦ (
        work_targets previous next,
        rw other refl,
        work_targets-Work a b turns previous next event.payload two phase
            (is_proposal_lem event.payload ∙ other),
      )
      | inl proposed ↦
          let (targets, derived, work) =
            acknowledgement_targets-Work a b previous next event.payload two
              (is_proposal_lem event.payload ∙ proposed)
              (elim (payload-pending shapes previous event event.payload proposed applied) [
                | inl (revision, pending) ↦
                    inl (revision, ap (λ (x : State). x.pending_revision) same ∙ pending)
                | inr over ↦ inr (ap (λ (x : State). x.status) same ∙ over)
              ]) in
          (targets, rw proposed derived, work)
    ]

-- The next event that the coordinator accepts gives rise to deliveries without fail, and to these. A
-- proposal gives each of the two participants the proposed version to acknowledge, unless it took the
-- last turn and the Mission has failed. Any other event gives each of the two the contract to verify
-- in the new round when verification begins, or a turn under the contract to the one who has the
-- turn, and nothing else: the Mission is not active then, or a revision still waits.
pub derive_targets-total :
    (texts : Texts) (shapes : Shapes) (config : Config) (events : List Event) (event : Event)
    (a b : String) {previous next : State}
    → ids_of config.mission_context ≡ a ∷ b ∷ []
    → IsPair a b
    → 0 < config.mission_context.manifest.max_turns
    → replay_mission_coordinator_events texts shapes config events ≡ ok previous
    → event.sequence_no ≡ previous.sequence_no + 1
    → reduce_mission_coordinator_event shapes previous event ≡ ok next
    → (targets : List Target) × (derive_targets previous next event ≡ ok targets)
      × Work a b previous next event.payload targets
derive_targets-total texts shapes config events event a b {previous} {next} two pair turns replayed
      numbered reduced =
    let (r, applied, same) =
      reduce-next shapes previous event (replay-IsLogged texts shapes config events replayed)
        numbered reduced in
    let (mission, phase) =
      replay-IsMission texts shapes config (events ++ (event ∷ [])) a b pair two turns
        (replay-extended texts shapes config events event previous next replayed reduced) in
    derive_targets-Work shapes a b config.mission_context.manifest.max_turns previous next r event
      mission.participants phase applied same
