-- ===== src/Protocol/Results.antt =====
-- protocol/src/delivery-operations.ts: what the Relay answers to an operation on a delivery.
use agent_relay.Prelude.{
  ℕ, String, Bool, true, false, not, ◌&&◌, ◌||◌, Option, none, some, ◌==◌, nat_eq, string_eq,
  bool_eq, option_beq,
}
use agent_relay.Protocol.Schemas.{DeliveryStatus, leased, delivery_status_eq}
use agent_relay.Protocol.Receipts.{
  Operation, is_claim, ClaimOutcome, is_claimed, is_dead_lettered, Settlement, LeaseAuthority,
  Receipt, is_some, is_active,
}
use agent_relay.Protocol.Snapshot.{Lease, Delivery}

-- `deliveryOperationResultSchema`
pub record OperationResult : Type 0 where
  pub delivery : Delivery
  pub receipt : Receipt
  pub replayed : Bool

-- `deliveryClaimResultSchema`. The claimed item is its delivery; the Mission event beside it is
-- loaded by its id and left out.
pub record ClaimResult : Type 0 where
  pub outcome : ClaimOutcome
  pub delivery : Delivery
  pub receipt : Receipt
  pub replayed : Bool

abbrev same_settlement : Option Settlement → Option Settlement → Bool
same_settlement none none = true
same_settlement (some x) (some y) =
    x.settled_by_event_id == y.settled_by_event_id && x.settled_at == y.settled_at
same_settlement x y = false

abbrev retains_lease : Option Lease → Option LeaseAuthority → Option String → Bool
retains_lease (some lease) (some authority) (some expires_at) =
    lease.lease_id == authority.lease_id
    && lease.fencing_token == authority.fencing_token
    && lease.expires_at == expires_at
retains_lease lease authority expires_at = false

-- `validateReceiptAgainstDelivery`: whether it finds no issue.
unfoldable pub describes_delivery : Delivery → Receipt → Bool
describes_delivery d r =
    d.delivery_id == r.delivery_id
    && d.node_id == r.node_id
    && d.attempt_count == r.attempt_count
    && d.status == r.status_after
    && same_settlement d.logical_settlement r.logical_settlement
    && option_beq d.cancellation_reason r.cancellation_reason
    && (not (is_active r.status_after) || retains_lease d.lease r.lease r.lease_expires_at)
    && (is_active r.status_after || not (is_some d.lease))

abbrev same_outcome : Option ClaimOutcome → ClaimOutcome → Bool
same_outcome recorded ClaimOutcome.claimed = is_claimed recorded
same_outcome recorded ClaimOutcome.dead_lettered = is_dead_lettered recorded

abbrev expected_status : ClaimOutcome → DeliveryStatus
expected_status ClaimOutcome.claimed = leased
expected_status ClaimOutcome.dead_lettered = DeliveryStatus.dead_lettered

-- The refinement of `deliveryClaimResultSchema`.
unfoldable pub is_valid_claim_result : ClaimResult → Bool
is_valid_claim_result result =
    is_claim result.receipt.operation
    && describes_delivery result.delivery result.receipt
    && same_outcome result.receipt.claim_outcome result.outcome
    && result.delivery.status == expected_status result.outcome

abbrev pub operation_code : Operation → ℕ
operation_code Operation.claim = 0
operation_code Operation.start = 1
operation_code Operation.renew = 2
operation_code Operation.complete = 3
operation_code Operation.release = 4
operation_code Operation.cancel = 5

-- `deliveryStartResultSchema`, `deliveryRenewResultSchema`, `deliveryReleaseResultSchema` and
-- `deliveryCancellationResultSchema`: the refinements of a result of the operation.
unfoldable pub is_valid_result : Operation → OperationResult → Bool
is_valid_result operation result =
    describes_delivery result.delivery result.receipt
    && operation_code result.receipt.operation == operation_code operation
