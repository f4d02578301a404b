-- ===== src/Relay/Ledger/Claim.antt =====
-- relay/src/services/delivery-ledger.ts: `claimDelivery` under the lock, with the recovery of a lease
-- that has run out.
use Prim.Native.String.{◌++◌}
use agent_relay.Prelude.{
  ℕ, ◌+◌, String, false, not, ◌||◌, Option, none, some, ◌==◌, string_eq, leb, ltb, if◌then◌else◌,
  Result, ok, err, ◌>>=◌, ◌>>◌, throw_if,
}
use agent_relay.Prelude.Decimal.{to_decimal}
use agent_relay.Protocol.Schemas.{Texts, stored, leased, dead_lettered, delivery_status_eq}
use agent_relay.Protocol.Receipts.{Operation, ClaimOutcome, Receipt, is_some, is_active}
use agent_relay.Protocol.Results.{ClaimResult, is_valid_claim_result}
use agent_relay.Protocol.Snapshot.{Delivery}
use agent_relay.Relay.Errors.{
  Error, relay_error, schema_error, invalid_transition, state_changed, internal,
}
use agent_relay.Relay.Ledger.Row.{Row}
use agent_relay.Relay.Ledger.Rules.{
  Context, bounded_lease_expiry, ReceiptInput, operation_receipt, parse_row,
}
use agent_relay.Relay.Ledger.Operations.{NodeCredential}
use agent_relay.Relay.Ledger.Receipts.{
  ReceiptRow, relay, lease_expired, expired_input, delivery_output,
}

-- The row that a claim leaves, the receipt of a lease that it found run out, and its result.
pub record ClaimMutation : Type 0 where
  pub row : Row
  pub recovered : Option ReceiptRow
  pub result : ClaimResult

-- The update of a claim.
abbrev pub claimed_row : Row → String → ℕ → ℕ → Row
claimed_row r lease_id expires_at now = record r {
  status = leased;
  attempt_count = r.attempt_count + 1;
  last_fencing_token = to_decimal (r.attempt_count + 1);
  active_lease_id = some lease_id;
  lease_expires_at = some expires_at;
  updated_at = now;
}

-- The update of `expireLeaseForRetry`.
abbrev pub expired_row : Row → ℕ → Row
expired_row r now = record r {
  status = stored;
  active_lease_id = none;
  lease_expires_at = none;
  available_at = now;
  updated_at = now;
}

-- The update of `deadLetterExpiredFinalClaim`.
abbrev pub dead_row : Row → ℕ → Row
dead_row r now = record r {
  status = dead_lettered;
  active_lease_id = none;
  lease_expires_at = none;
  dead_lettered_at = some now;
  updated_at = now;
}

-- The receipt that `expireLeaseForRetry` inserts.
abbrev expired_receipt : Row → String → Option ℕ → Delivery → ℕ → ReceiptRow
expired_receipt r lease_id lease_expires_at delivery now = record {
  origin = relay;
  node_id = r.node_id;
  mission_id = r.mission_id;
  delivery_id = r.id;
  operation = lease_expired;
  idempotency_key = "lease-expired:" ++ (r.id ++ (":" ++ to_decimal r.attempt_count));
  credential_id = none;
  attempt_count = r.attempt_count;
  lease_id = some lease_id;
  fencing_token = some r.last_fencing_token;
  lease_expires_at = lease_expires_at;
  status_before = r.status;
  status_after = stored;
  cancellation_reason = none;
  input = expired_input (record { lease_id = lease_id; fencing_token = r.last_fencing_token });
  output = delivery_output delivery;
  recorded_at = now;
}

-- The schema of the result of a claim.
unfoldable pub parse_claim_result :
    ClaimOutcome → Option ReceiptRow → Row → Receipt → Delivery → Result Error ClaimMutation
parse_claim_result outcome recovered row receipt delivery = do
  let result : ClaimResult = record {
    outcome = outcome;
    delivery = delivery;
    receipt = receipt;
    replayed = false;
  }
  throw_if (not (is_valid_claim_result result)) schema_error
  ok (record { row = row; recovered = recovered; result = result })

module _ (texts : Texts) (to_iso : ℕ → String) (auth : NodeCredential) where
  -- `operationReceipt` and the schema of the result of a claim
  unfoldable pub conclude_claim :
      ClaimOutcome → Option ReceiptRow → Row → String → ReceiptInput → Result Error ClaimMutation
  conclude_claim outcome recovered row receipt_id input = do
    receipt ← operation_receipt texts to_iso receipt_id input
    delivery ← parse_row texts to_iso row
    parse_claim_result outcome recovered row receipt delivery

  -- `deadLetterExpiredFinalClaim`
  unfoldable pub dead_letter_expired : Row → String → String → ℕ → Result Error ClaimMutation
  dead_letter_expired r idempotency_key receipt_id now = do
    throw_if (not (is_active r.status)) (relay_error internal)
    conclude_claim ClaimOutcome.dead_lettered none (dead_row r now) receipt_id (record {
      operation = Operation.claim;
      idempotency_key = idempotency_key;
      node_id = auth.node_id;
      delivery = dead_row r now;
      status_before = r.status;
      lease = none;
      lease_expires_at = none;
      claim_outcome = some ClaimOutcome.dead_lettered;
      release = none;
      recorded_at = now;
    })

  -- `expireLeaseForRetry`, where the row has a lease
  unfoldable pub expire_held : Row → String → ℕ → Result Error (Row × ReceiptRow)
  expire_held r lease_id now = do
    throw_if (not (is_active r.status) || not (is_some r.lease_expires_at)) (relay_error internal)
    delivery ← parse_row texts to_iso (expired_row r now)
    ok (expired_row r now, expired_receipt r lease_id r.lease_expires_at delivery now)

  -- `expireLeaseForRetry`: the row that it leaves and the receipt that it inserts.
  unfoldable pub expire_lease : Row → ℕ → Result Error (Row × ReceiptRow)
  expire_lease r now = elim r.active_lease_id [
    | none ↦ err (relay_error internal)
    | some lease_id ↦ expire_held r lease_id now
  ]

  -- The part of `claimDelivery` that gives a new lease.
  unfoldable pub give_lease :
      Option ReceiptRow → Row → ℕ → String → String → String → ℕ → Result Error ClaimMutation
  give_lease recovered r mission_expires_at idempotency_key lease_id receipt_id now = do
    throw_if
        (not (r.status == stored)
          || is_some r.settled_by_event_id
          || leb r.max_attempts r.attempt_count)
        (relay_error invalid_transition)
    throw_if (ltb now r.available_at) (relay_error state_changed)
    expires_at ← bounded_lease_expiry now mission_expires_at
    let row : Row = claimed_row r lease_id expires_at now
    conclude_claim ClaimOutcome.claimed recovered row receipt_id (record {
      operation = Operation.claim;
      idempotency_key = idempotency_key;
      node_id = auth.node_id;
      delivery = row;
      status_before = stored;
      lease = some (record { lease_id = lease_id; fencing_token = row.last_fencing_token });
      lease_expires_at = some expires_at;
      claim_outcome = some ClaimOutcome.claimed;
      release = none;
      recorded_at = now;
    })

  -- A lease that has run out, before the attempt that follows it.
  unfoldable pub recover : Row → ℕ → String → String → String → ℕ → Result Error ClaimMutation
  recover r mission_expires_at idempotency_key lease_id receipt_id now = do
    recovered ← expire_lease r now
    give_lease (some recovered.1) recovered.0 mission_expires_at idempotency_key lease_id receipt_id
        now

  -- `claimDelivery`, its part under the lock
  unfoldable pub claim_delivery :
      Context → String → String → String → ℕ → Result Error ClaimMutation
  claim_delivery c idempotency_key lease_id receipt_id now =
      if is_active c.delivery.status
      then elim c.delivery.lease_expires_at [
        | none ↦ err (relay_error internal)
        | some date ↦
            if ltb now date
            then err (relay_error state_changed)
            else (if leb c.delivery.max_attempts c.delivery.attempt_count
                then dead_letter_expired c.delivery idempotency_key receipt_id now
                else recover c.delivery c.mission_expires_at idempotency_key lease_id receipt_id
                    now)
      ]
      else give_lease none c.delivery c.mission_expires_at idempotency_key lease_id receipt_id now
