-- ===== src/Relay/Ledger/Operations.antt =====
-- relay/src/services/delivery-ledger.ts: what `startDelivery`, `renewDelivery` and `releaseDelivery`
-- do to the locked row, and the result that they parse. A fresh id is an argument.
use agent_relay.Prelude.{
  ℕ, ◌+◌, String, Bool, true, false, not, ◌||◌, Option, none, some, ◌==◌, string_eq, leb, ltb,
  if◌then◌else◌, Result, ok, ◌>>=◌, ◌>>◌, throw_if,
}
use agent_relay.Protocol.Schemas.{
  Texts, stored, leased, executing, dead_lettered, delivery_status_eq,
}
use agent_relay.Protocol.Receipts.{Operation, LeaseAuthority, Release, Receipt}
use agent_relay.Protocol.Snapshot.{Delivery}
use agent_relay.Protocol.Results.{OperationResult, is_valid_result}
use agent_relay.Relay.Errors.{Error, relay_error, schema_error, invalid_transition}
use agent_relay.Relay.Ledger.Row.{Row}
use agent_relay.Relay.Ledger.Rules.{
  Context, assert_active_status, assert_lease_authority, bounded_lease_expiry, retry_backoff_ms,
  ReceiptInput, operation_receipt, parse_row,
}

-- `NodeCredentialContext`
pub record NodeCredential : Type 0 where
  pub node_id : String
  pub agent_id : String
  pub credential_id : String

-- `deliveryStartInputSchema` and `deliveryRenewInputSchema`
pub record LeaseInput : Type 0 where
  pub idempotency_key : String
  pub authority : LeaseAuthority

-- `deliveryReleaseInputSchema`
pub record ReleaseInput : Type 0 where
  pub lease_input : LeaseInput
  pub details : Release

-- The row that an operation leaves, and its result.
pub record Mutation : Type 0 where
  pub row : Row
  pub result : OperationResult

-- `set({ status: "executing", updatedAt: now })`
abbrev pub started_row : Row → ℕ → Row
started_row r now = record r { status = executing; updated_at = now }

-- `set({ leaseExpiresAt, updatedAt: now })`
abbrev pub renewed_row : Row → ℕ → ℕ → Row
renewed_row r expires_at now = record r { lease_expires_at = some expires_at; updated_at = now }

-- `leaseExpiresAt === null || next < leaseExpiresAt`
abbrev pub moves_backwards : Option ℕ → ℕ → Bool
moves_backwards none next = true
moves_backwards (some current) next = ltb next current

-- `deadLetter` of `releaseDelivery`
abbrev pub is_dead_letter : Context → Release → ℕ → Bool
is_dead_letter c details now =
    not (details.classification == "transient")
    || leb c.delivery.max_attempts c.delivery.attempt_count
    || leb c.mission_expires_at (now + retry_backoff_ms c.delivery.attempt_count)

-- The update of `releaseDelivery`.
abbrev pub released_row : Row → Bool → ℕ → Row
released_row r dead_letter now = record r {
  status = if dead_letter then dead_lettered else stored;
  active_lease_id = none;
  lease_expires_at = none;
  available_at = if dead_letter then r.available_at else now + retry_backoff_ms r.attempt_count;
  dead_lettered_at = if dead_letter then some now else none;
  updated_at = now;
}

-- The schema of the result of an operation.
unfoldable pub parse_result : Operation → Row → Receipt → Delivery → Result Error Mutation
parse_result operation row receipt delivery = do
  let result : OperationResult = record { delivery = delivery; receipt = receipt; replayed = false }
  throw_if (not (is_valid_result operation result)) schema_error
  ok (record { row = row; result = result })

module _ (texts : Texts) (to_iso : ℕ → String) (auth : NodeCredential) where
  -- `operationReceipt`, `deliveryFromRow` and the schema of the result
  unfoldable pub conclude : Operation → Row → String → ReceiptInput → Result Error Mutation
  conclude operation row receipt_id input = do
    receipt ← operation_receipt texts to_iso receipt_id input
    delivery ← parse_row texts to_iso row
    parse_result operation row receipt delivery

  -- `startDelivery`, its part under the lock
  unfoldable pub start_delivery : Context → LeaseInput → String → ℕ → Result Error Mutation
  start_delivery c input receipt_id now = do
    throw_if (not (c.delivery.status == leased)) (relay_error invalid_transition)
    assert_lease_authority c.delivery input.authority now
    let row : Row = started_row c.delivery now
    conclude Operation.start row receipt_id (record {
      operation = Operation.start;
      idempotency_key = input.idempotency_key;
      node_id = auth.node_id;
      delivery = row;
      status_before = leased;
      lease = some input.authority;
      lease_expires_at = row.lease_expires_at;
      claim_outcome = none;
      release = none;
      recorded_at = now;
    })

  -- `renewDelivery`, its part under the lock
  unfoldable pub renew_delivery : Context → LeaseInput → String → ℕ → Result Error Mutation
  renew_delivery c input receipt_id now = do
    assert_active_status c.delivery
    assert_lease_authority c.delivery input.authority now
    expires_at ← bounded_lease_expiry now c.mission_expires_at
    throw_if (moves_backwards c.delivery.lease_expires_at expires_at)
        (relay_error invalid_transition)
    let row : Row = renewed_row c.delivery expires_at now
    conclude Operation.renew row receipt_id (record {
      operation = Operation.renew;
      idempotency_key = input.idempotency_key;
      node_id = auth.node_id;
      delivery = row;
      status_before = c.delivery.status;
      lease = some input.authority;
      lease_expires_at = some expires_at;
      claim_outcome = none;
      release = none;
      recorded_at = now;
    })

  -- `releaseDelivery`, its part under the lock
  unfoldable pub release_delivery : Context → ReleaseInput → String → ℕ → Result Error Mutation
  release_delivery c input receipt_id now = do
    assert_active_status c.delivery
    assert_lease_authority c.delivery input.lease_input.authority now
    let row : Row = released_row c.delivery (is_dead_letter c input.details now) now
    conclude Operation.release row receipt_id (record {
      operation = Operation.release;
      idempotency_key = input.lease_input.idempotency_key;
      node_id = auth.node_id;
      delivery = row;
      status_before = c.delivery.status;
      lease = some input.lease_input.authority;
      lease_expires_at = c.delivery.lease_expires_at;
      claim_outcome = none;
      release = some input.details;
      recorded_at = now;
    })
