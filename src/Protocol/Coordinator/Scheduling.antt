-- ===== src/Protocol/Coordinator/Scheduling.antt =====
-- Every accepted event leads from phase to phase (protocol/src/mission-coordinator.ts).
use agent_relay.Prelude.{
  ℕ, suc, ◌+◌, ◌≤◌, String, ◌≡◌, inl, inr, refl, Option, none, some, [], ◌∷◌, ◌++◌, arith,
  string_eq, beq→eq, ok, leb, Bool-cases,
}
use agent_relay.Protocol.Schemas.{active, mission_status_eq}
use agent_relay.Protocol.Records.{ArtifactRef, ContractRevision, TurnDisposition}
use agent_relay.Protocol.Mission.{transition_mission_status}
use agent_relay.Protocol.Coordinator.Events.{TurnCompleted, ContractAcknowledged}
use agent_relay.Protocol.Coordinator.State.{State, same_string_set}
use agent_relay.Protocol.Coordinator.Apply.{
  Shapes, move, apply_reply, apply_reply_message, apply_contract_proposal, apply_proposed_revision,
  apply_ready,
}
use agent_relay.Protocol.Coordinator.Turns.{
  apply_disposition, close_used_up, apply_turn_completed, accept_acknowledged, acknowledge_pending,
  apply_contract_acknowledged,
}
use agent_relay.Protocol.Coordinator.Pair.{IsPair, Others, other_of_lem}
use agent_relay.Protocol.Coordinator.Phase.{
  ids_of, Phase, waiting, speaking, revising, checking, ended,
}
use agent_relay.Protocol.Coordinator.Turning.{
  Others-symm, TurnOf, apply_reply-Phase, apply_contract_proposal-Phase, apply_ready-Phase,
}

-- A turn that has been taken is counted once, whatever its disposition.
apply_disposition-turn_count :
    (s : State) (id : String) (e : TurnCompleted) (d : TurnDisposition) {t : State}
    → apply_disposition s id e d ≡ ok t
    → (t.turn_count ≡ s.turn_count) × (t.mission_context ≡ s.mission_context)
unfolding apply_disposition apply_reply apply_reply_message apply_contract_proposal
    apply_proposed_revision apply_ready
apply_disposition-turn_count s id e (TurnDisposition.reply m b a) h = ground arith
apply_disposition-turn_count s id e (TurnDisposition.propose_contract a) h = ground arith
apply_disposition-turn_count s id e (TurnDisposition.ready a) h = ground arith
apply_disposition-turn_count s id e (TurnDisposition.blocked a b) h = ground arith
apply_disposition-turn_count s id e (TurnDisposition.failed c) h = ground arith

-- A turn is a disposition on the counted turn, and then the look for the last one.
pub turn_reduced :
    (s : State) (id : String) (e : TurnCompleted) {t : State}
    → apply_turn_completed s id e ≡ ok t
    → (u : State) × (apply_disposition
          (record s { turn_count = s.turn_count + 1 })
          id
          e
          e.disposition
        ≡ ok u)
      × (close_used_up u ≡ ok t)
unfolding apply_turn_completed
turn_reduced s id e h = ground arith

module _ (a b : String) (turns : ℕ) (pair : IsPair a b) where
  proposal_of_revision :
      (s : State) (id : String) (e : TurnCompleted) (artifact : ArtifactRef)
      (revision : Option ContractRevision) (p q : String) {t : State}
      → e.revision ≡ revision
      → TurnOf a b turns pair p q s e
      → Others a b p q
      → apply_contract_proposal s id e artifact ≡ ok t
      → Phase a b (suc turns) t
  unfolding apply_contract_proposal
  proposal_of_revision s id e artifact none p q is w o h = absurd (ground arith)
  proposal_of_revision s id e artifact (some r) p q is w o h =
      apply_contract_proposal-Phase a b turns pair s id e artifact r p q w o (ground arith)

  apply_disposition-Phase :
      (s : State) (id : String) (e : TurnCompleted) (d : TurnDisposition) (p q : String) {t : State}
      → TurnOf a b turns pair p q s e
      → Others a b p q
      → apply_disposition s id e d ≡ ok t
      → Phase a b (suc turns) t
  unfolding apply_disposition
  apply_disposition-Phase s id e (TurnDisposition.reply m body l) p q w o h =
      apply_reply-Phase a b turns pair s id e m body l p q w o h
  apply_disposition-Phase s id e (TurnDisposition.propose_contract artifact) p q w o h =
      proposal_of_revision s id e artifact e.revision p q refl w o h
  apply_disposition-Phase s id e (TurnDisposition.ready evidence) p q w o h =
      apply_ready-Phase a b turns pair s e evidence p q w o h
  apply_disposition-Phase s id e (TurnDisposition.blocked x y) p q w o h = cc
  apply_disposition-Phase s id e (TurnDisposition.failed x) p q w o h = cc

  close_used_up-Phase :
      (s : State) {t : State}
      → s.mission_context.manifest.max_turns ≡ turns
      → s.turn_count ≤ turns
      → Phase a b (suc turns) s
      → close_used_up s ≡ ok t
      → Phase a b turns t
  unfolding close_used_up move transition_mission_status
  close_used_up-Phase s m le (waiting st c pr r n) h =
      waiting (ground arith) (ground arith) (ground arith) (ground arith) (ground arith)
  close_used_up-Phase s m le (speaking p q o st c pr r n) h =
      elim (Bool-cases (leb turns s.turn_count)) [
        | inl used ↦
            ended (ground arith) (ground arith) (ground arith) (ground arith) (ground arith)
        | inr more ↦
            speaking p q o (ground arith) (ground arith) (ground arith) (ground arith)
              (ground arith)
      ]
  close_used_up-Phase s m le (revising p q v o st c pr pb r n) h =
      elim (Bool-cases (leb turns s.turn_count)) [
        | inl used ↦
            ended (ground arith) (ground arith) (ground arith) (ground arith) (ground arith)
        | inr more ↦
            revising p q v o (ground arith) (ground arith) (ground arith) pb (ground arith)
              (ground arith)
      ]
  close_used_up-Phase s m le (checking p q o st c pr r n) h =
      checking p q o (ground arith) (ground arith) (ground arith) (ground arith) (ground arith)
  close_used_up-Phase s m le (ended st c pr r n) h =
      ended (ground arith) (ground arith) (ground arith) (ground arith) (ground arith)

  -- What `applyTurnCompleted` checks before the disposition.
  turn_guards :
      (s : State) (id : String) (e : TurnCompleted) (p : String) {t : State}
      → s.current_participant_agent_id ≡ some p
      → apply_turn_completed s id e ≡ ok t
      → (e.participant_agent_id ≡ p) × (s.status ≡ active) × (s.pending_revision ≡ none)
  unfolding apply_turn_completed
  turn_guards s id e p c h = ground (arith, beq→eq p e.participant_agent_id)

  pub apply_turn_completed-Phase :
      (s : State) (id : String) (e : TurnCompleted) {t : State}
      → ids_of s.mission_context ≡ a ∷ b ∷ []
      → s.mission_context.manifest.max_turns ≡ turns
      → Phase a b turns s
      → apply_turn_completed s id e ≡ ok t
      → Phase a b turns t
  unfolding apply_turn_completed
  apply_turn_completed-Phase s id e ids m (waiting st c pr r n) h = absurd (ground arith)
  apply_turn_completed-Phase s id e ids m (speaking p q o st c pr r n) h =
      let (u, disposed, closed) = turn_reduced s id e h in
      let (author, act, pend) = turn_guards s id e p c h in
      let (count, context) =
        apply_disposition-turn_count (record s { turn_count = s.turn_count + 1 }) id e e.disposition
          disposed in
      close_used_up-Phase u (ground arith) (ground arith)
        (apply_disposition-Phase (record s { turn_count = s.turn_count + 1 }) id e e.disposition p q
          (record {
            ids = ids;
            is_active = act;
            no_revision = pend;
            is_author = author;
            ready_before = r;
            turns_left = omega arith;
          })
          o disposed)
        closed
  apply_turn_completed-Phase s id e ids m (revising p q v o st c pr pb r n) h =
      absurd (ground arith)
  apply_turn_completed-Phase s id e ids m (checking p q o st c pr r n) h = absurd (ground arith)
  apply_turn_completed-Phase s id e ids m (ended st c pr r n) h = absurd (ground arith)

  pub apply_contract_acknowledged-Phase :
      (shapes : Shapes) (s : State) (e : ContractAcknowledged) {t : State}
      → ids_of s.mission_context ≡ a ∷ b ∷ []
      → Phase a b turns s
      → apply_contract_acknowledged shapes s e ≡ ok t
      → Phase a b turns t
  unfolding apply_contract_acknowledged acknowledge_pending accept_acknowledged
  apply_contract_acknowledged-Phase shapes s e ids (waiting st c pr r n) h = absurd (ground arith)
  apply_contract_acknowledged-Phase shapes s e ids (speaking p q o st c pr r n) h =
      absurd (ground arith)
  apply_contract_acknowledged-Phase shapes s e ids (revising p q v o st c pr pb r n) h =
      elim (Bool-cases (
        same_string_set (v.acknowledged_by_agent_ids ++ (e.participant_agent_id ∷ []))
          (a ∷ b ∷ []))) [
            | inl both ↦
                speaking q p (Others-symm a b p q o) (ground arith)
                  (ground (arith, other_of_lem a b p q pair o)) (ground arith) (inl (ground arith))
                  (ground arith)
            | inr some_only ↦
                revising p q
                  (record v {
                    acknowledged_by_agent_ids =
                        v.acknowledged_by_agent_ids ++ (e.participant_agent_id ∷ []);
                  })
                  o (ground arith) (ground arith) (ground arith) pb (ground arith) (ground arith)
          ]
  apply_contract_acknowledged-Phase shapes s e ids (checking p q o st c pr r n) h =
      absurd (ground arith)
  apply_contract_acknowledged-Phase shapes s e ids (ended st c pr r n) h = absurd (ground arith)
