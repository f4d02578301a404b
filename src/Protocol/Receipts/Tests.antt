-- ===== src/Protocol/Receipts/Tests.antt =====
-- Receipts at concrete values (protocol/src/delivery-operations.ts).
use agent_relay.Prelude.{◌≡◌, refl, true, false, not, ◌||◌, ◌&&◌, none, some}
use agent_relay.Prelude.Decimal.{of_decimal}
use agent_relay.Protocol.Schemas.{Texts, stored, leased}
use agent_relay.Protocol.Receipts.{
  Operation, ClaimOutcome, Receipt, has_valid_status_pair, is_valid_receipt, is_some, is_active,
  is_claim, is_release, is_cancel,
}
use agent_relay.Protocol.Receipts.Machine.{is_valid_receipt-lease}

abbrev texts : Texts
texts = record {
  is_uuid = λ s. true;
  is_iso_timestamp = λ s. true;
  date_parse = λ s. some (of_decimal s);
}

abbrev claim_receipt : Receipt
claim_receipt = record {
  receipt_id = "r";
  operation = Operation.claim;
  idempotency_key = "k";
  node_id = "n";
  delivery_id = "d";
  attempt_count = 1;
  lease = some (record { lease_id = "l"; fencing_token = "1" });
  lease_expires_at = some "20";
  status_before = stored;
  status_after = leased;
  logical_settlement = none;
  claim_outcome = some ClaimOutcome.claimed;
  release = none;
  cancellation_reason = none;
  recorded_at = "10";
}

claim_receipt_ok : is_valid_receipt texts claim_receipt ≡ true
unfolding is_valid_receipt has_valid_status_pair of_decimal
claim_receipt_ok = refl

-- A claim is not recorded after its deadline.
late_claim_refused : is_valid_receipt texts (record claim_receipt { recorded_at = "20" }) ≡ false
unfolding is_valid_receipt has_valid_status_pair of_decimal
late_claim_refused = refl

is_valid_receipt-lease_example :
    (is_some claim_receipt.lease ≡ (
      is_active claim_receipt.status_after
      || (is_active claim_receipt.status_before && not (is_claim claim_receipt.operation))))
    × (is_some claim_receipt.lease_expires_at ≡ is_some claim_receipt.lease)
    × (is_some claim_receipt.claim_outcome ≡ is_claim claim_receipt.operation)
    × (is_some claim_receipt.release ≡ is_release claim_receipt.operation)
    × (is_some claim_receipt.cancellation_reason ≡ is_cancel claim_receipt.operation)
is_valid_receipt-lease_example = is_valid_receipt-lease texts claim_receipt claim_receipt_ok
