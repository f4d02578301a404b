-- ===== src/Protocol/Receipts.antt =====
-- protocol/src/delivery-operations.ts: the receipts of the operations on a delivery.
pub mod Machine
pub mod Tests
use agent_relay.Prelude.{
  ℕ, String, Bool, true, false, not, ◌&&◌, ◌||◌, Option, none, some, ◌==◌, bool_eq, nat_eq, some_in,
  string_eq,
}
use agent_relay.Protocol.Schemas.{
  Texts, date_before, date_not_after, DeliveryStatus, stored, leased, executing, acknowledged,
  delivery_status_eq,
}

-- `deliveryOperationSchema`
pub data Operation : Type 0 where
  claim start renew complete release cancel : Operation

-- `deliveryClaimOutcomeSchema`
pub data ClaimOutcome : Type 0 where
  claimed dead_lettered : ClaimOutcome

-- `deliveryLeaseAuthoritySchema`
pub record LeaseAuthority : Type 0 where
  pub lease_id : String
  pub fencing_token : String

-- `deliveryLogicalSettlementSchema`
pub record Settlement : Type 0 where
  pub settled_by_event_id : String
  pub settled_at : String

-- `deliveryReleaseDetailsSchema`
pub record Release : Type 0 where
  pub classification : String
  pub summary : String

-- `rawDeliveryOperationReceiptSchema`
pub record Receipt : Type 0 where
  pub receipt_id : String
  pub operation : Operation
  pub idempotency_key : String
  pub node_id : String
  pub delivery_id : String
  pub attempt_count : ℕ
  pub lease : Option LeaseAuthority
  pub lease_expires_at : Option String
  pub status_before : DeliveryStatus
  pub status_after : DeliveryStatus
  pub logical_settlement : Option Settlement
  pub claim_outcome : Option ClaimOutcome
  pub release : Option Release
  pub cancellation_reason : Option String
  pub recorded_at : String

abbrev pub is_some {ℓ} : {A : Type ℓ} → Option A → Bool
is_some none = false
is_some (some a) = true

abbrev pub is_active : DeliveryStatus → Bool
is_active status = status == leased || status == executing

abbrev pub is_transient : Option Release → Bool
is_transient none = false
is_transient (some details) = details.classification == "transient"

-- `hasValidStatusPair`
unfoldable pub has_valid_status_pair :
    Operation → Option ClaimOutcome → Option Release → DeliveryStatus → DeliveryStatus → Bool
has_valid_status_pair Operation.claim (some ClaimOutcome.claimed) details before after =
    before == stored && after == leased
has_valid_status_pair Operation.claim (some ClaimOutcome.dead_lettered) details before after =
    is_active before && after == DeliveryStatus.dead_lettered
has_valid_status_pair Operation.claim none details before after = false
has_valid_status_pair Operation.start outcome details before after =
    before == leased && after == executing
has_valid_status_pair Operation.renew outcome details before after =
    is_active before && after == before
has_valid_status_pair Operation.complete outcome details before after =
    before == executing && after == acknowledged
has_valid_status_pair Operation.release outcome details before after =
    is_active before
    && (after == stored || after == DeliveryStatus.dead_lettered)
    && (is_transient details || after == DeliveryStatus.dead_lettered)
has_valid_status_pair Operation.cancel outcome details before after =
    (before == stored || before == leased || before == executing)
    && after == DeliveryStatus.cancelled

abbrev pub is_claim : Operation → Bool
is_claim Operation.claim = true
is_claim operation = false

abbrev pub is_release : Operation → Bool
is_release Operation.release = true
is_release operation = false

abbrev pub is_cancel : Operation → Bool
is_cancel Operation.cancel = true
is_cancel operation = false

abbrev pub is_complete : Operation → Bool
is_complete Operation.complete = true
is_complete operation = false

abbrev pub is_claimed : Option ClaimOutcome → Bool
is_claimed (some ClaimOutcome.claimed) = true
is_claimed outcome = false

abbrev pub is_dead_lettered : Option ClaimOutcome → Bool
is_dead_lettered (some ClaimOutcome.dead_lettered) = true
is_dead_lettered outcome = false

-- `requiresPresentedLease`
abbrev pub requires_presented_lease : Operation → Bool
requires_presented_lease Operation.start = true
requires_presented_lease Operation.renew = true
requires_presented_lease Operation.complete = true
requires_presented_lease Operation.release = true
requires_presented_lease operation = false

-- `requiresPresentedLease || claimed`
abbrev pub owns_lease : Receipt → Bool
owns_lease r =
    requires_presented_lease r.operation || (is_claim r.operation && is_claimed r.claim_outcome)

abbrev pub expires_after : Texts → Option String → String → Bool
expires_after texts none recorded_at = true
expires_after texts (some expires_at) recorded_at =
    not (date_not_after texts expires_at recorded_at)

abbrev pub settled_by : Texts → Option Settlement → String → Bool
settled_by texts none recorded_at = true
settled_by texts (some settlement) recorded_at =
    not (date_before texts recorded_at settlement.settled_at)

-- `validateOperationReceipt`: whether it finds no issue.
unfoldable pub is_valid_receipt : Texts → Receipt → Bool
is_valid_receipt texts r =
    has_valid_status_pair r.operation r.claim_outcome r.release r.status_before r.status_after
    && not (owns_lease r && (not (is_some r.lease) || not (is_some r.lease_expires_at)))
    && not (
        is_claim r.operation
        && is_dead_lettered r.claim_outcome
        && (is_some r.lease || is_some r.lease_expires_at))
    && not (
        is_cancel r.operation
        && not (is_active r.status_before == (is_some r.lease && is_some r.lease_expires_at)))
    && is_some r.lease == is_some r.lease_expires_at
    && not (not (is_cancel r.operation) && r.attempt_count == 0)
    && is_claim r.operation == is_some r.claim_outcome
    && is_release r.operation == is_some r.release
    && is_cancel r.operation == is_some r.cancellation_reason
    && not (is_complete r.operation && not (is_some r.logical_settlement))
    && not (
        not (is_complete r.operation)
        && not (is_cancel r.operation)
        && is_some r.logical_settlement)
    && not (owns_lease r && not (expires_after texts r.lease_expires_at r.recorded_at))
    && settled_by texts r.logical_settlement r.recorded_at
