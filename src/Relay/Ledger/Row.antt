-- ===== src/Relay/Ledger/Row.antt =====
-- relay/src/db/schema.ts, the table `node_deliveries` with its checks, and `deliveryFromRow` of
-- relay/src/services/mission-ledger.ts. A date is its number of milliseconds.
use agent_relay.Prelude.{
  ℕ, ◌≡◌, ◌↔◌, arith, String, Bool, true, false, not, ◌&&◌, ◌||◌, Option, none, some, ◌==◌, bool_eq,
  nat_eq, string_eq, leb, ltb,
}
use agent_relay.Prelude.Decimal.{to_decimal}
use agent_relay.Protocol.Schemas.{
  DeliveryKind, verification, DeliveryStatus, stored, acknowledged, dead_lettered,
  delivery_status_eq, is_cancellation_reason,
}
use agent_relay.Protocol.Receipts.{Settlement, is_some, is_active}
use agent_relay.Protocol.Snapshot.{Lease, Delivery}

-- `nodeDeliveries`
pub record Row : Type 0 where
  pub id : String
  pub node_id : String
  pub mission_id : String
  pub mission_event_id : String
  pub kind : DeliveryKind
  pub cursor : ℕ
  pub status : DeliveryStatus
  pub attempt_count : ℕ
  pub max_attempts : ℕ
  pub last_fencing_token : String
  pub active_lease_id : Option String
  pub lease_expires_at : Option ℕ
  pub contract_version : ℕ
  pub verification_round : Option ℕ
  pub idempotency_key : String
  pub causal_parent_delivery_id : Option String
  pub settled_by_event_id : Option String
  pub settled_at : Option ℕ
  pub available_at : ℕ
  pub acknowledged_at : Option ℕ
  pub cancelled_at : Option ℕ
  pub cancellation_reason : Option String
  pub dead_lettered_at : Option ℕ
  pub created_at : ℕ
  pub updated_at : ℕ

abbrev is_verification : DeliveryKind → Bool
is_verification verification = true
is_verification kind = false

abbrev is_positive : Option ℕ → Bool
is_positive none = true
is_positive (some round) = ltb 0 round

abbrev is_reason : Option String → Bool
is_reason none = true
is_reason (some reason) = is_cancellation_reason reason

-- The checks of the kind of work.
unfoldable pub has_valid_kind : Row → Bool
has_valid_kind r =
    is_verification r.kind == is_some r.verification_round && is_positive r.verification_round

-- The checks of the attempts and of the token, which is the number of the last attempt.
unfoldable pub has_valid_attempts : Row → Bool
has_valid_attempts r =
    leb 1 r.max_attempts
    && leb r.max_attempts 100
    && leb r.attempt_count r.max_attempts
    && r.last_fencing_token == to_decimal r.attempt_count

-- The checks of the lease.
unfoldable pub has_valid_lease : Row → Bool
has_valid_lease r =
    (not (r.status == stored)
      || is_some r.settled_by_event_id
      || ltb r.attempt_count r.max_attempts)
    && is_active r.status == is_some r.active_lease_id
    && is_active r.status == is_some r.lease_expires_at
    && (not (is_active r.status) || ltb 0 r.attempt_count)

-- The checks of the ends of a delivery.
unfoldable pub has_valid_end : Row → Bool
has_valid_end r =
    (r.status == acknowledged) == is_some r.acknowledged_at
    && (not (r.status == acknowledged) || (ltb 0 r.attempt_count && is_some r.settled_by_event_id))
    && (r.status == DeliveryStatus.cancelled) == is_some r.cancelled_at
    && (r.status == DeliveryStatus.cancelled) == is_some r.cancellation_reason
    && is_reason r.cancellation_reason
    && (r.status == dead_lettered) == is_some r.dead_lettered_at
    && is_some r.settled_by_event_id == is_some r.settled_at

-- The checks `node_deliveries_*_chk` of the table: whether the row satisfies them.
unfoldable pub is_valid_row : Row → Bool
is_valid_row r = has_valid_kind r && has_valid_attempts r && has_valid_lease r && has_valid_end r

pub is_valid_row_iff :
    (r : Row)
    → (is_valid_row r ≡ true) ↔ (
        (has_valid_kind r ≡ true)
        × (has_valid_attempts r ≡ true)
        × (has_valid_lease r ≡ true)
        × (has_valid_end r ≡ true))
unfolding is_valid_row
is_valid_row_iff r = ground arith

abbrev pub printed : (ℕ → String) → Option ℕ → Option String
printed to_iso none = none
printed to_iso (some date) = some (to_iso date)

abbrev pub lease_of : (ℕ → String) → Option String → String → Option ℕ → Option Lease
lease_of to_iso (some id) token (some date) =
    some (record { lease_id = id; fencing_token = token; expires_at = to_iso date })
lease_of to_iso id token date = none

abbrev pub settlement_of : (ℕ → String) → Option String → Option ℕ → Option Settlement
settlement_of to_iso (some id) (some date) =
    some (record { settled_by_event_id = id; settled_at = to_iso date })
settlement_of to_iso id date = none

-- `deliveryFromRow`, before its schema; `to_iso` is `toISOString`.
unfoldable pub delivery_from_row : (ℕ → String) → Row → Delivery
delivery_from_row to_iso r = record {
  delivery_id = r.id;
  node_id = r.node_id;
  mission_id = r.mission_id;
  mission_event_id = r.mission_event_id;
  kind = r.kind;
  cursor = to_decimal r.cursor;
  status = r.status;
  attempt_count = r.attempt_count;
  max_attempts = r.max_attempts;
  last_fencing_token = r.last_fencing_token;
  contract_version = r.contract_version;
  verification_round = r.verification_round;
  lease = lease_of to_iso r.active_lease_id r.last_fencing_token r.lease_expires_at;
  logical_settlement = settlement_of to_iso r.settled_by_event_id r.settled_at;
  idempotency_key = r.idempotency_key;
  causal_parent_delivery_id = r.causal_parent_delivery_id;
  available_at = to_iso r.available_at;
  created_at = to_iso r.created_at;
  updated_at = to_iso r.updated_at;
  acknowledged_at = printed to_iso r.acknowledged_at;
  cancelled_at = printed to_iso r.cancelled_at;
  cancellation_reason = r.cancellation_reason;
  dead_lettered_at = printed to_iso r.dead_lettered_at;
}
