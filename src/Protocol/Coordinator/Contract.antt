-- ===== src/Protocol/Coordinator/Contract.antt =====
-- The shared contract of a Mission and what belongs to the Mission
-- (protocol/src/mission-coordinator.ts).
use agent_relay.Prelude.{
  ◌+◌, String, Bool, true, ◌&&◌, ◌≡◌, refl, Option, none, some, List, [], ◌∷◌, ◌++◌, arith, ◌==◌,
  string_eq, nat_eq, beq→eq, includes, every, every-append, ok,
}
use agent_relay.Protocol.Schemas.{mission_status_eq}
use agent_relay.Protocol.Records.{
  ContractRevision, Message, MessageType, ArtifactRef, TurnDisposition,
}
use agent_relay.Protocol.Coordinator.Events.{
  Event, Payload, TurnCompleted, ContractAcknowledged, VerificationRecorded,
}
use agent_relay.Protocol.Coordinator.State.{State, option_list}
use agent_relay.Protocol.Coordinator.Apply.{
  Shapes, artifacts_or_empty, apply_mission_terminal, apply_participants_accepted, apply_reply,
  apply_reply_message, message_differs, apply_contract_proposal, apply_proposed_revision,
  revision_differs, apply_ready,
}
use agent_relay.Protocol.Coordinator.Turns.{
  apply_disposition, close_used_up, apply_turn_completed, accept_acknowledged, acknowledge_pending,
  apply_contract_acknowledged, is_valid_revision,
}
use agent_relay.Protocol.Coordinator.Verify.{
  finish_verification, retry_or_fail, judge_records, record_verification,
  apply_verification_recorded,
}
use agent_relay.Protocol.Coordinator.Reduce.{apply_payload}
use agent_relay.Protocol.Coordinator.Scheduling.{turn_reduced}

abbrev pub message_belongs : String → Message → Bool
message_belongs id m = m.mission_id == id

abbrev pub revision_belongs : String → ContractRevision → Bool
revision_belongs id r = r.mission_id == id

abbrev pub mission_of : State → String
mission_of s = s.mission_context.manifest.mission_id

-- A pending revision is one of the Mission, of the contract's type.
abbrev pub pending_fits : State → ContractRevision → Bool
pending_fits s r = r.mission_id == mission_of s && r.artifact.type == s.active_contract.type

pub record IsAgreed (s : State) : Type 0 where
  pub version_current : s.active_contract.version ≡ s.contract_version
  pub type_allowed :
      includes s.mission_context.manifest.allowed_artifact_types s.active_contract.type ≡ true
  pub pending_of_mission : every (pending_fits s) (option_list s.pending_revision) ≡ true
  pub accepted_of_mission : every (revision_belongs (mission_of s)) s.accepted_revisions ≡ true
  pub messages_of_mission : every (message_belongs (mission_of s)) s.messages ≡ true

reply_message-IsAgreed :
    (s : State) (id : String) (e : TurnCompleted) (message : Message) (m : MessageType) (b : String)
    (a : List ArtifactRef) {t : State}
    → id ≡ mission_of s
    → IsAgreed s
    → apply_reply_message s id e message m b a ≡ ok t
    → IsAgreed t
unfolding apply_reply_message message_differs
reply_message-IsAgreed s id e message m b a same i h = record {
  version_current = ground arith;
  type_allowed = ground arith;
  pending_of_mission = ground arith;
  accepted_of_mission = ground arith;
  messages_of_mission =
      ground (arith, every-append (message_belongs (mission_of s)) s.messages (message ∷ []));
}

proposed_revision-IsAgreed :
    (s : State) (id : String) (e : TurnCompleted) (r : ContractRevision) (a : ArtifactRef)
    {t : State}
    → id ≡ mission_of s
    → IsAgreed s
    → apply_proposed_revision s id e r a ≡ ok t
    → IsAgreed t
unfolding apply_proposed_revision revision_differs
proposed_revision-IsAgreed s id e r a same i h = record {
  version_current = ground arith;
  type_allowed = ground arith;
  pending_of_mission = ground arith;
  accepted_of_mission = ground arith;
  messages_of_mission = ground arith;
}

apply_disposition-IsAgreed :
    (s : State) (id : String) (e : TurnCompleted) (d : TurnDisposition) (message : Option Message)
    (revision : Option ContractRevision) {t : State}
    → e.message ≡ message
    → e.revision ≡ revision
    → id ≡ mission_of s
    → IsAgreed s
    → apply_disposition s id e d ≡ ok t
    → IsAgreed t
unfolding apply_disposition apply_reply apply_contract_proposal apply_ready
apply_disposition-IsAgreed s id e (TurnDisposition.reply m b l) (some message) revision me re same i
      h =
    reply_message-IsAgreed s id e message m b (artifacts_or_empty l) same i (ground arith)
apply_disposition-IsAgreed s id e (TurnDisposition.reply m b l) none revision me re same i h =
    absurd (ground arith)
apply_disposition-IsAgreed s id e (TurnDisposition.propose_contract a) message (some r) me re same i
      h =
    proposed_revision-IsAgreed s id e r a same i (ground arith)
apply_disposition-IsAgreed s id e (TurnDisposition.propose_contract a) message none me re same i h =
    absurd (ground arith)
apply_disposition-IsAgreed s id e (TurnDisposition.ready evidence) message revision me re same i h =
    ground arith
apply_disposition-IsAgreed s id e (TurnDisposition.blocked x y) message revision me re same i h = cc
apply_disposition-IsAgreed s id e (TurnDisposition.failed x) message revision me re same i h = cc

close_used_up-IsAgreed : (s : State) {t : State} → IsAgreed s → close_used_up s ≡ ok t → IsAgreed t
unfolding close_used_up
close_used_up-IsAgreed s i h = ground arith

accept_acknowledged-IsAgreed :
    (s : State) (r : ContractRevision) {t : State}
    → IsAgreed s
    → pending_fits s r ≡ true
    → r.artifact.version ≡ r.version
    → accept_acknowledged s r ≡ ok t
    → IsAgreed t
unfolding accept_acknowledged
accept_acknowledged-IsAgreed s r i fits version h = ground (
  arith,
  every-append (revision_belongs (mission_of s)) s.accepted_revisions (r ∷ []),
  beq→eq r.artifact.type s.active_contract.type,
)

acknowledge_pending-accepted :
    (shapes : Shapes) (s : State) (e : ContractAcknowledged) (r : ContractRevision) {t : State}
    → acknowledge_pending shapes s e r ≡ ok t
    → (accept_acknowledged s (record r {
      acknowledged_by_agent_ids = r.acknowledged_by_agent_ids ++ (e.participant_agent_id ∷ []);
    })
        ≡ ok t)
      × (r.artifact.version ≡ r.version)
unfolding acknowledge_pending is_valid_revision
acknowledge_pending-accepted shapes s e r h = (ground arith, ground arith)

acknowledged-IsAgreed :
    (shapes : Shapes) (s : State) (e : ContractAcknowledged) (pending : Option ContractRevision)
    {t : State}
    → s.pending_revision ≡ pending
    → IsAgreed s
    → apply_contract_acknowledged shapes s e ≡ ok t
    → IsAgreed t
unfolding apply_contract_acknowledged
acknowledged-IsAgreed shapes s e none p i h = absurd (ground arith)
acknowledged-IsAgreed shapes s e (some r) p i h =
    let (accepted, version) = acknowledge_pending-accepted shapes s e r (ground arith) in
    accept_acknowledged-IsAgreed s
      (record r {
        acknowledged_by_agent_ids = r.acknowledged_by_agent_ids ++ (e.participant_agent_id ∷ []);
      })
      i (ground arith) version accepted

turn_completed-IsAgreed :
    (s : State) (id : String) (e : TurnCompleted) {t : State}
    → id ≡ mission_of s
    → IsAgreed s
    → apply_turn_completed s id e ≡ ok t
    → IsAgreed t
turn_completed-IsAgreed s id e same i h =
    let (u, disposed, closed) = turn_reduced s id e h in
    close_used_up-IsAgreed u
      (apply_disposition-IsAgreed (record s { turn_count = s.turn_count + 1 }) id e e.disposition
        e.message e.revision refl refl same
        (record {
          version_current = i.version_current;
          type_allowed = i.type_allowed;
          pending_of_mission = i.pending_of_mission;
          accepted_of_mission = i.accepted_of_mission;
          messages_of_mission = i.messages_of_mission;
        })
        disposed)
      closed

verification-IsAgreed :
    (s : State) (id : String) (e : VerificationRecorded) {t : State}
    → IsAgreed s
    → apply_verification_recorded s id e ≡ ok t
    → IsAgreed t
unfolding apply_verification_recorded record_verification judge_records retry_or_fail
    finish_verification
verification-IsAgreed s id e i h = ground arith

pub apply_payload-IsAgreed :
    (shapes : Shapes) (s : State) (event : Event) (p : Payload) {t : State}
    → event.mission_id ≡ mission_of s
    → IsAgreed s
    → apply_payload shapes s event p ≡ ok t
    → IsAgreed t
unfolding apply_payload apply_participants_accepted apply_mission_terminal
apply_payload-IsAgreed shapes s event (Payload.participants_accepted p) same i h = ground arith
apply_payload-IsAgreed shapes s event (Payload.turn_completed p) same i h =
    turn_completed-IsAgreed s event.mission_id p same i h
apply_payload-IsAgreed shapes s event (Payload.contract_acknowledged p) same i h =
    acknowledged-IsAgreed shapes s p s.pending_revision refl i h
apply_payload-IsAgreed shapes s event (Payload.verification_recorded p) same i h =
    verification-IsAgreed s event.event_id p i h
apply_payload-IsAgreed shapes s event (Payload.mission_terminal p) same i h = ground arith
