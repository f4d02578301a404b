-- ===== src/Relay/Missions/Work.antt =====
-- relay/src/services/mission-ledger.ts: what an event of a Mission of two gives them to do, described
-- apart from `deriveDeliveryTargets`.
use agent_relay.Prelude.{
  ℕ, ◌≡◌, refl, ap, String, Bool, true, false, Option, none, some, List, [], ◌∷◌, map, ◌==◌,
}
use agent_relay.Protocol.Schemas.{
  active, verifying, failed, mission_status_eq, DeliveryKind, turn, verification,
  contract_acknowledgement,
}
use agent_relay.Protocol.Records.{ContractRevision, Participant, TurnDisposition}
use agent_relay.Protocol.Coordinator.Events.{Payload}
use agent_relay.Protocol.Coordinator.State.{State, agent_of}
use agent_relay.Relay.Missions.Targets.{
  Target, proposes, proposes_contract, acknowledgement_of, verification_of,
}

abbrev pub is_offer : TurnDisposition → Bool
is_offer (TurnDisposition.propose_contract artifact) = true
is_offer (TurnDisposition.reply type body artifacts) = false
is_offer (TurnDisposition.ready evidence) = false
is_offer (TurnDisposition.blocked reason requested) = false
is_offer (TurnDisposition.failed reason) = false

is_offer_lem : (d : TurnDisposition) → is_offer d ≡ proposes d
is_offer_lem (TurnDisposition.propose_contract artifact) = refl
is_offer_lem (TurnDisposition.reply type body artifacts) = refl
is_offer_lem (TurnDisposition.ready evidence) = refl
is_offer_lem (TurnDisposition.blocked reason requested) = refl
is_offer_lem (TurnDisposition.failed reason) = refl

-- A completed turn that proposes a contract.
abbrev pub is_proposal : Payload → Bool
is_proposal (Payload.turn_completed t) = is_offer t.disposition
is_proposal payload = false

pub is_proposal_lem : (payload : Payload) → is_proposal payload ≡ proposes_contract payload
is_proposal_lem (Payload.turn_completed t) = is_offer_lem t.disposition
is_proposal_lem (Payload.participants_accepted p) = refl
is_proposal_lem (Payload.contract_acknowledged p) = refl
is_proposal_lem (Payload.verification_recorded p) = refl
is_proposal_lem (Payload.mission_terminal p) = refl

abbrev pub target : DeliveryKind → ℕ → Option ℕ → String → Target
target kind version round agent_id = record {
  agent_id = agent_id;
  kind = kind;
  contract_version = version;
  verification_round = round;
}

abbrev pub both : String → String → DeliveryKind → ℕ → Option ℕ → List Target
both a b kind version round = target kind version round a ∷ target kind version round b ∷ []

-- The work that an event gives the two participants, from the state before to the state behind it.
pub data Work (a b : String) (previous next : State) (payload : Payload)
    : List Target → Type 0 where
  -- Both acknowledge a proposed revision.
  to_acknowledge :
      (revision : ContractRevision)
      → is_proposal payload ≡ true
      → next.pending_revision ≡ some revision
      → Work a b previous next payload (both a b contract_acknowledgement revision.version none)
  -- The proposal took the last turn.
  used_up : is_proposal payload ≡ true → next.status ≡ failed → Work a b previous next payload []
  -- Both verify the contract in the new round.
  to_verify :
      is_proposal payload ≡ false
      → (previous.status == verifying) ≡ false
      → next.status ≡ verifying
      → Work a b previous next payload
          (both a b verification next.contract_version (some next.verification_round))
  -- One of the two has the turn.
  to_move :
      (mover : String)
      → is_proposal payload ≡ false
      → next.status ≡ active
      → next.current_participant_agent_id ≡ some mover
      → Work a b previous next payload (target turn next.contract_version none mover ∷ [])
  -- A revision still waits for an acknowledgement.
  waiting_on :
      (revision : ContractRevision)
      → is_proposal payload ≡ false
      → next.status ≡ active
      → next.pending_revision ≡ some revision
      → Work a b previous next payload []
  -- The Mission is not active, and a verification has not just begun.
  nothing_new :
      is_proposal payload ≡ false
      → (next.status == active) ≡ false
      → ((next.status == verifying) ≡ true → (previous.status == verifying) ≡ true)
      → Work a b previous next payload []

pub acknowledgements-both :
    (version : ℕ) (ps : List Participant)
    → map (acknowledgement_of version) ps
      ≡ map (target contract_acknowledgement version none) (map agent_of ps)
acknowledgements-both version [] = refl
acknowledgements-both version (p ∷ ps) =
    ap (λ rest. target contract_acknowledgement version none p.agent_id ∷ rest)
      (acknowledgements-both version ps)

pub verifications-both :
    (next : State) (ps : List Participant)
    → map (verification_of next) ps
      ≡ map
          (target verification next.contract_version (some next.verification_round))
          (map agent_of ps)
verifications-both next [] = refl
verifications-both next (p ∷ ps) =
    ap
      (λ rest.
        target verification next.contract_version (some next.verification_round) p.agent_id ∷ rest)
      (verifications-both next ps)
