-- ===== src/Protocol/Coordinator/Turning.antt =====
-- The phases of a Mission through the handlers of turns, acceptances and endings
-- (protocol/src/mission-coordinator.ts).
use agent_relay.Prelude.{
  ℕ, suc, ◌≤◌, ◌<◌, String, ◌≡◌, ◌⊎◌, inl, inr, refl, Option, none, List, [], ◌∷◌, arith, string_eq,
  beq→eq, ok,
}
use agent_relay.Protocol.Schemas.{active, mission_status_eq}
use agent_relay.Protocol.Records.{ArtifactRef, ContractRevision, MessageType, VerificationEvidence}
use agent_relay.Protocol.Mission.{transition_mission_status}
use agent_relay.Protocol.Coordinator.Events.{TurnCompleted, ParticipantsAccepted, MissionTerminal}
use agent_relay.Protocol.Coordinator.State.{State}
use agent_relay.Protocol.Coordinator.Apply.{
  move, apply_mission_terminal, apply_participants_accepted, apply_reply, apply_reply_message,
  apply_proposed_revision, apply_ready, revision_differs,
}
use agent_relay.Protocol.Coordinator.Pair.{
  IsPair, Others, other_of_lem, same_string_set-one, same_string_set-both,
}
use agent_relay.Protocol.Coordinator.Phase.{
  ids_of, Phase, waiting, speaking, revising, checking, ended,
}

pub Others-symm : (a b p q : String) → Others a b p q → Others a b q p
Others-symm a b p q (inl (e, f)) = inr (f, e)
Others-symm a b p q (inr (e, f)) = inl (f, e)

module _ (a b : String) (turns : ℕ) (pair : IsPair a b) where
  pub apply_mission_terminal-Phase :
      (s : State) (e : MissionTerminal) {t : State}
      → s.turn_count ≤ turns
      → apply_mission_terminal s e ≡ ok t
      → Phase a b turns t
  unfolding apply_mission_terminal move transition_mission_status
  apply_mission_terminal-Phase s e m h =
      ended (ground arith) (ground arith) (ground arith) (ground arith) (ground arith)

  pub apply_participants_accepted-Phase :
      (s : State) (e : ParticipantsAccepted) {t : State}
      → ids_of s.mission_context ≡ a ∷ b ∷ []
      → Phase a b turns s
      → 0 < turns
      → apply_participants_accepted s e ≡ ok t
      → Phase a b turns t
  unfolding apply_participants_accepted move transition_mission_status
  apply_participants_accepted-Phase s e ids (waiting st c pr r n) pos h =
      speaking a b (inl (refl, refl)) (ground arith) (ground arith) (ground arith)
        (inl (ground arith)) (ground arith)
  apply_participants_accepted-Phase s e ids (speaking p q o st c pr r n) pos h =
      absurd (ground arith)
  apply_participants_accepted-Phase s e ids (revising p q v o st c pr pb r n) pos h =
      absurd (ground arith)
  apply_participants_accepted-Phase s e ids (checking p q o st c pr r n) pos h =
      absurd (ground arith)
  apply_participants_accepted-Phase s e ids (ended st c pr r n) pos h = absurd (ground arith)

  -- A state in which it is the turn of `p`.
  pub record TurnOf (p q : String) (s : State) (e : TurnCompleted) : Type 0 where
    pub ids : ids_of s.mission_context ≡ a ∷ b ∷ []
    pub is_active : s.status ≡ active
    pub no_revision : s.pending_revision ≡ none
    pub is_author : e.participant_agent_id ≡ p
    pub ready_before : (s.ready_agent_ids ≡ []) ⊎ (s.ready_agent_ids ≡ q ∷ [])
    pub turns_left : s.turn_count ≤ turns

  -- What a disposition does on the turn of `p`, before the last turn is looked for.
  pub apply_reply-Phase :
      (s : State) (id : String) (e : TurnCompleted) (m : MessageType) (body : String)
      (l : Option (List ArtifactRef)) (p q : String) {t : State}
      → TurnOf p q s e
      → Others a b p q
      → apply_reply s id e m body l ≡ ok t
      → Phase a b (suc turns) t
  unfolding apply_reply apply_reply_message
  apply_reply-Phase s id e m body l p q w o h =
      speaking q p (Others-symm a b p q o) (ground arith)
        (ground (arith, other_of_lem a b p q pair o)) (ground arith) (inl (ground arith))
        (ground arith)

  pub apply_contract_proposal-Phase :
      (s : State) (id : String) (e : TurnCompleted) (artifact : ArtifactRef) (r : ContractRevision)
      (p q : String) {t : State}
      → TurnOf p q s e
      → Others a b p q
      → apply_proposed_revision s id e r artifact ≡ ok t
      → Phase a b (suc turns) t
  unfolding apply_proposed_revision revision_differs
  apply_contract_proposal-Phase s id e artifact r p q w o h =
      revising p q r o (ground arith) (ground arith) (ground arith)
        (ground (arith, beq→eq r.proposed_by_agent_id e.participant_agent_id)) (ground arith)
        (ground arith)

  pub apply_ready-Phase :
      (s : State) (e : TurnCompleted) (evidence : List VerificationEvidence) (p q : String)
      {t : State}
      → TurnOf p q s e
      → Others a b p q
      → apply_ready s e evidence ≡ ok t
      → Phase a b (suc turns) t
  unfolding apply_ready move transition_mission_status
  apply_ready-Phase s e evidence p q w o h = elim w.ready_before [
    | inl none_ready ↦
        speaking q p (Others-symm a b p q o) (ground (arith, same_string_set-one a b p, w))
          (ground (arith, other_of_lem a b p q pair o, same_string_set-one a b p))
          (ground (arith, same_string_set-one a b p))
          (inr (ground (arith, same_string_set-one a b p)))
          (ground (arith, same_string_set-one a b p))
    | inr one_ready ↦
        checking p q o (inl (ground (arith, same_string_set-both a b p q pair o)))
          (ground (arith, same_string_set-both a b p q pair o))
          (ground (arith, same_string_set-both a b p q pair o))
          (ground (arith, same_string_set-both a b p q pair o))
          (ground (arith, same_string_set-both a b p q pair o))
  ]
