-- ===== src/Protocol/Snapshot.antt =====
-- protocol/src/schemas.ts: `deliverySchema`, a delivery as the Relay shows it to a Node.
use agent_relay.Prelude.{
  ℕ, String, Bool, true, false, not, ◌&&◌, Option, none, some, ◌==◌, bool_eq, nat_eq, string_eq,
  leb,
}
use agent_relay.Prelude.Decimal.{to_decimal}
use agent_relay.Protocol.Schemas.{
  Texts, date_before, DeliveryKind, verification, DeliveryStatus, stored, acknowledged,
  dead_lettered, delivery_status_eq,
}
use agent_relay.Protocol.Receipts.{Settlement, is_some, is_active}

-- `deliveryLeaseSchema`
pub record Lease : Type 0 where
  pub lease_id : String
  pub fencing_token : String
  pub expires_at : String

-- `deliverySchema`
pub record Delivery : Type 0 where
  pub delivery_id : String
  pub node_id : String
  pub mission_id : String
  pub mission_event_id : String
  pub kind : DeliveryKind
  pub cursor : String
  pub status : DeliveryStatus
  pub attempt_count : ℕ
  pub max_attempts : ℕ
  pub last_fencing_token : String
  pub contract_version : ℕ
  pub verification_round : Option ℕ
  pub lease : Option Lease
  pub logical_settlement : Option Settlement
  pub idempotency_key : String
  pub causal_parent_delivery_id : Option String
  pub available_at : String
  pub created_at : String
  pub updated_at : String
  pub acknowledged_at : Option String
  pub cancelled_at : Option String
  pub cancellation_reason : Option String
  pub dead_lettered_at : Option String

abbrev is_verification : DeliveryKind → Bool
is_verification verification = true
is_verification kind = false

abbrev has_token : Option Lease → String → Bool
has_token none token = true
has_token (some lease) token = lease.fencing_token == token

-- No date precedes the delivery's creation; an absent date does not.
abbrev pub not_before : Texts → String → Option String → Bool
not_before texts created_at none = true
not_before texts created_at (some date) = not (date_before texts date created_at)

abbrev pub settled_at : Option Settlement → Option String
settled_at none = none
settled_at (some settlement) = some settlement.settled_at

-- The checks of `deliverySchema` across fields: whether they find no issue.
unfoldable pub is_valid_delivery : Texts → Delivery → Bool
is_valid_delivery texts d =
    is_verification d.kind == is_some d.verification_round
    && is_active d.status == is_some d.lease
    && leb d.attempt_count d.max_attempts
    && not (is_active d.status && d.attempt_count == 0)
    && not (d.status == acknowledged && d.attempt_count == 0)
    && not (d.status == stored && leb d.max_attempts d.attempt_count)
    && d.last_fencing_token == to_decimal d.attempt_count
    && has_token d.lease d.last_fencing_token
    && (d.status == acknowledged) == is_some d.acknowledged_at
    && (d.status == DeliveryStatus.cancelled) == is_some d.cancelled_at
    && (d.status == DeliveryStatus.cancelled) == is_some d.cancellation_reason
    && (d.status == dead_lettered) == is_some d.dead_lettered_at
    && not (d.status == acknowledged && not (is_some d.logical_settlement))
    && not (
        is_some d.logical_settlement
        && not (d.status == acknowledged)
        && not (d.status == DeliveryStatus.cancelled))
    && not_before texts d.created_at (some d.available_at)
    && not_before texts d.created_at (some d.updated_at)
    && not_before texts d.created_at (settled_at d.logical_settlement)
    && not_before texts d.created_at d.acknowledged_at
    && not_before texts d.created_at d.cancelled_at
    && not_before texts d.created_at d.dead_lettered_at
