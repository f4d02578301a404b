-- ===== src/Relay/Missions/Sources.antt =====
-- relay/src/services/mission-ledger.ts: `assertSourceDelivery`, the delivery whose result a Node gives.
use agent_relay.Prelude.{
  ℕ, String, Bool, true, false, not, ◌&&◌, ◌||◌, Option, none, some, List, [], ◌∷◌, ◌==◌, nat_eq,
  string_eq, some_in, if◌then◌else◌, Result, err, ◌>>◌, throw_if,
}
use agent_relay.Protocol.Schemas.{
  DeliveryKind, turn, verification, contract_acknowledgement, DeliveryStatus, executing,
  delivery_status_eq,
}
use agent_relay.Protocol.Receipts.{is_some}
use agent_relay.Protocol.Coordinator.Events.{Payload}
use agent_relay.Relay.Errors.{
  Error, relay_error, internal, invalid_transition, not_authorized_transition,
}
use agent_relay.Relay.Ledger.Row.{Row}

-- `missionParticipants`, the columns that the ledger reads
pub record Assignment : Type 0 where
  pub agent_id : String
  pub node_id : String
  pub status : String

-- `SourceDeliveryAuthorization`
pub record Authorization : Type 0 where
  pub status : DeliveryStatus
  pub node_id : Option String
  pub lease_id : Option String
  pub fencing_token : Option String

-- What the ledger reads of a result: the participant, the source delivery, its kind, contract and
-- round. The Relay's own events have no source.
pub record Source : Type 0 where
  pub participant_agent_id : String
  pub delivery_id : String
  pub kind : DeliveryKind
  pub contract_version : ℕ
  pub verification_round : Option ℕ

abbrev pub source_of : Payload → Option Source
source_of (Payload.turn_completed t) = some (record {
  participant_agent_id = t.participant_agent_id;
  delivery_id = t.delivery_id;
  kind = turn;
  contract_version = t.contract_version;
  verification_round = none;
})
source_of (Payload.contract_acknowledged c) = some (record {
  participant_agent_id = c.participant_agent_id;
  delivery_id = c.delivery_id;
  kind = contract_acknowledgement;
  contract_version = c.contract_version;
  verification_round = none;
})
source_of (Payload.verification_recorded v) = some (record {
  participant_agent_id = v.participant_agent_id;
  delivery_id = v.delivery_id;
  kind = verification;
  contract_version = v.contract_version;
  verification_round = some v.verification_round;
})
source_of payload = none

abbrev pub kind_code : DeliveryKind → ℕ
kind_code turn = 0
kind_code verification = 1
kind_code contract_acknowledgement = 2

abbrev pub same_kind : DeliveryKind → DeliveryKind → Bool
same_kind a b = kind_code a == kind_code b

-- The participant's assignment at the Node of a delivery.
unfoldable pub is_assigned : List Assignment → String → String → Bool
is_assigned [] agent_id node_id = false
is_assigned (x ∷ xs) agent_id node_id =
    (x.agent_id == agent_id && x.node_id == node_id && x.status == "accepted")
    || is_assigned xs agent_id node_id

-- `expected === undefined || actual === expected`
abbrev matches_text : Option String → String → Bool
matches_text none actual = true
matches_text (some expected) actual = actual == expected

abbrev matches_lease : Option String → Option String → Bool
matches_lease none actual = true
matches_lease (some expected) actual = some_in actual expected

abbrev matches_round : Option ℕ → Option ℕ → Bool
matches_round none actual = true
matches_round (some expected) actual = some_in actual expected

-- The conditions of `assertSourceDelivery` on the delivery.
unfoldable pub is_available : Row → Source → Authorization → Bool
is_available r source authorization =
    r.status == authorization.status
    && not (is_some r.settled_by_event_id)
    && same_kind r.kind source.kind
    && r.contract_version == source.contract_version
    && matches_text authorization.node_id r.node_id
    && matches_lease authorization.lease_id r.active_lease_id
    && matches_text authorization.fencing_token r.last_fencing_token
    && matches_round source.verification_round r.verification_round

-- `nodeId`, `leaseId` or `fencingToken` is missing.
abbrev pub is_incomplete : Authorization → Bool
is_incomplete authorization =
    not (is_some authorization.node_id)
    || not (is_some authorization.lease_id)
    || not (is_some authorization.fencing_token)

-- The query of `assertSourceDelivery` and the conditions on what it finds.
unfoldable pub check_source :
    String → List Row → List Assignment → String → Source → Authorization → Result Error (Unit {0})
check_source mission_id [] assignments agent_id source authorization =
    err (relay_error not_authorized_transition)
check_source mission_id (r ∷ rows) assignments agent_id source authorization =
    if r.id == source.delivery_id
      && r.mission_id == mission_id
      && is_assigned assignments agent_id r.node_id
    then throw_if (not (is_available r source authorization)) (relay_error invalid_transition)
    else check_source mission_id rows assignments agent_id source authorization

-- `assertSourceDelivery`
unfoldable pub assert_source :
    String → List Row → List Assignment → String → Source → Authorization → Result Error (Unit {0})
assert_source mission_id rows assignments agent_id source authorization = do
  throw_if (authorization.status == executing && is_incomplete authorization) (relay_error internal)
  check_source mission_id rows assignments agent_id source authorization
