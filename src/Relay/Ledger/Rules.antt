-- ===== src/Relay/Ledger/Rules.antt =====
-- relay/src/services/delivery-ledger.ts: the guards of the operations, the deadlines, and the making
-- of a receipt. A date is its number of milliseconds.
use agent_relay.Prelude.{
  ℕ, zero, suc, ◌+◌, ◌-◌, ◌*◌, String, Bool, true, not, ◌&&◌, ◌||◌, Option, none, some, ◌==◌,
  bool_eq, string_eq, leb, if◌then◌else◌, some_in, Result, ok, ◌>>◌, throw_if,
}
use agent_relay.Protocol.Schemas.{
  Texts, MissionStatus, active, verifying, mission_status_eq, DeliveryStatus, delivery_status_eq,
}
use agent_relay.Protocol.Receipts.{
  Operation, ClaimOutcome, LeaseAuthority, Release, Receipt, is_valid_receipt, is_active,
}
use agent_relay.Protocol.Snapshot.{Delivery, is_valid_delivery}
use agent_relay.Relay.Errors.{
  Error, relay_error, schema_error, invalid_transition, not_authorized_transition, state_changed,
}
use agent_relay.Relay.Ledger.Row.{Row, printed, settlement_of, delivery_from_row}

-- `LEASE_DURATION_MS` and `MAX_RETRY_BACKOFF_MS`
abbrev pub lease_duration_ms : ℕ
lease_duration_ms = 60000

abbrev pub max_retry_backoff_ms : ℕ
max_retry_backoff_ms = 60000

-- `LockedDeliveryContext`, with what the operations read of the Mission.
pub record Context : Type 0 where
  pub delivery : Row
  pub mission_status : MissionStatus
  pub mission_expires_at : ℕ
  pub participant_status : String
  pub workspace_status : String

-- `assertRunnableContext`
unfoldable pub assert_runnable : Context → ℕ → Result Error (Unit {0})
assert_runnable c now = do
  throw_if (not (c.participant_status == "accepted") || not (c.workspace_status == "active"))
      (relay_error not_authorized_transition)
  throw_if (leb c.mission_expires_at now) (relay_error invalid_transition)
  throw_if (not (c.mission_status == active) && not (c.mission_status == verifying))
      (relay_error invalid_transition)

-- `assertReplayableDelivery`
unfoldable pub assert_replayable : Row → Result Error (Unit {0})
assert_replayable r =
    throw_if (r.status == DeliveryStatus.cancelled) (relay_error not_authorized_transition)

-- `assertActiveLeaseStatus`
unfoldable pub assert_active_status : Row → Result Error (Unit {0})
assert_active_status r = throw_if (not (is_active r.status)) (relay_error invalid_transition)

-- `date === null || date.getTime() <= now.getTime()`
abbrev pub has_passed : Option ℕ → ℕ → Bool
has_passed none now = true
has_passed (some date) now = leb date now

-- `assertLeaseAuthority`
unfoldable pub assert_lease_authority : Row → LeaseAuthority → ℕ → Result Error (Unit {0})
assert_lease_authority r input now = do
  throw_if
      (not (some_in r.active_lease_id input.lease_id)
        || not (r.last_fencing_token == input.fencing_token))
      (relay_error state_changed)
  throw_if (has_passed r.lease_expires_at now) (relay_error invalid_transition)

-- `Math.min`
abbrev pub min : ℕ → ℕ → ℕ
min a b = if leb a b then a else b

-- `boundedLeaseExpiry`
unfoldable pub bounded_lease_expiry : ℕ → ℕ → Result Error ℕ
bounded_lease_expiry now mission_expires_at = do
  throw_if (leb (min (now + lease_duration_ms) mission_expires_at) now)
      (relay_error invalid_transition)
  ok (min (now + lease_duration_ms) mission_expires_at)

-- `2 ** exponent`, exact for a power of two up to the largest number of attempts
unfoldable pub power_of_two : ℕ → ℕ
power_of_two zero = 1
power_of_two (suc exponent) = 2 * power_of_two exponent

-- `retryBackoffMs`
unfoldable pub retry_backoff_ms : ℕ → ℕ
retry_backoff_ms attempt_count = min max_retry_backoff_ms (1000 * power_of_two (attempt_count - 1))

-- The argument of `operationReceipt`.
pub record ReceiptInput : Type 0 where
  pub operation : Operation
  pub idempotency_key : String
  pub node_id : String
  pub delivery : Row
  pub status_before : DeliveryStatus
  pub lease : Option LeaseAuthority
  pub lease_expires_at : Option ℕ
  pub claim_outcome : Option ClaimOutcome
  pub release : Option Release
  pub recorded_at : ℕ

module _ (texts : Texts) (to_iso : ℕ → String) where
  -- `operationReceipt`, before its schema
  unfoldable pub receipt_of : String → ReceiptInput → Receipt
  receipt_of receipt_id input = record {
    receipt_id = receipt_id;
    operation = input.operation;
    idempotency_key = input.idempotency_key;
    node_id = input.node_id;
    delivery_id = input.delivery.id;
    attempt_count = input.delivery.attempt_count;
    lease = input.lease;
    lease_expires_at = printed to_iso input.lease_expires_at;
    status_before = input.status_before;
    status_after = input.delivery.status;
    logical_settlement =
        settlement_of to_iso input.delivery.settled_by_event_id input.delivery.settled_at;
    claim_outcome = input.claim_outcome;
    release = input.release;
    cancellation_reason = input.delivery.cancellation_reason;
    recorded_at = to_iso input.recorded_at;
  }

  -- `operationReceipt`; `receipt_id` is its `randomUUID()`.
  unfoldable pub operation_receipt : String → ReceiptInput → Result Error Receipt
  operation_receipt receipt_id input = do
    throw_if (not (is_valid_receipt texts (receipt_of receipt_id input))) schema_error
    ok (receipt_of receipt_id input)

  -- `deliveryFromRow`
  unfoldable pub parse_row : Row → Result Error Delivery
  parse_row r = do
    throw_if (not (is_valid_delivery texts (delivery_from_row to_iso r))) schema_error
    ok (delivery_from_row to_iso r)
