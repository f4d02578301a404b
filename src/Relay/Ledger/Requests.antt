-- ===== src/Relay/Ledger/Requests.antt =====
-- relay/src/services/delivery-ledger.ts: a request of a Node under the lock of its delivery, with the
-- replay of a request that was answered before.
use agent_relay.Prelude.{
  ℕ, String, Bool, true, false, not, ◌&&◌, Option, none, some, List, [], ◌∷◌, ◌==◌, string_eq,
  nat_eq, ◌++◌, if◌then◌else◌, Result, ok, err, ◌>>=◌, ◌>>◌, throw_if,
}
use agent_relay.Protocol.Schemas.{Texts, MissionStatus}
use agent_relay.Protocol.Records.{Participant}
use agent_relay.Protocol.Receipts.{
  Operation, Receipt, is_valid_receipt, is_some, is_claim, is_release,
}
use agent_relay.Protocol.Snapshot.{Delivery, is_valid_delivery}
use agent_relay.Protocol.Results.{is_valid_result, is_valid_claim_result, operation_code}
use agent_relay.Relay.Errors.{
  Error, relay_error, schema_error, invalid_transition, duplicate_idempotency_key,
}
use agent_relay.Relay.Ledger.Row.{Row}
use agent_relay.Relay.Ledger.Rules.{Context, assert_runnable, assert_replayable}
use agent_relay.Relay.Ledger.Guards.{Route, assert_routing, assert_mission_trust}
use agent_relay.Relay.Ledger.Operations.{
  NodeCredential, Mutation, start_delivery, renew_delivery, release_delivery,
}
use agent_relay.Relay.Ledger.Receipts.{
  Origin, node, relay, RecordedOperation, performed, lease_expired, StoredInput, claim_input,
  lease_input, release_input, stored_input_eq, Output, claim_output, operation_output, ReceiptRow,
  node_receipt_row,
}
use agent_relay.Relay.Ledger.Claim.{claim_delivery}
use agent_relay.Relay.Ledger.Calls.{Call}

-- What a request reads beside the delivery: `LockedDeliveryResult` and the queries of the guards.
pub record Locked : Type 0 where
  pub mission_status : MissionStatus
  pub mission_expires_at : ℕ
  pub participant_status : String
  pub workspace_status : String
  pub now : ℕ
  pub reconciled_status : Option MissionStatus
  pub created_by_agent_id : String
  pub participants : List Participant
  pub routes : List Route
  pub blocks : List (String × String)

-- The locked delivery and the table of receipts.
pub record Tables : Type 0 where
  pub delivery : Row
  pub receipts : List ReceiptRow

abbrev pub context_of : Locked → Row → Context
context_of l r = record {
  delivery = r;
  mission_status = l.mission_status;
  mission_expires_at = l.mission_expires_at;
  participant_status = l.participant_status;
  workspace_status = l.workspace_status;
}

abbrev pub key_of : Call → String
key_of (Call.claim key lease_id receipt_id) = key
key_of (Call.start input receipt_id) = input.idempotency_key
key_of (Call.renew input receipt_id) = input.idempotency_key
key_of (Call.release input receipt_id) = input.lease_input.idempotency_key

abbrev pub operation_of : Call → Operation
operation_of (Call.claim key lease_id receipt_id) = Operation.claim
operation_of (Call.start input receipt_id) = Operation.start
operation_of (Call.renew input receipt_id) = Operation.renew
operation_of (Call.release input receipt_id) = Operation.release

-- `operationInput`
abbrev pub operation_input : String → Call → StoredInput
operation_input delivery_id (Call.claim key lease_id receipt_id) = claim_input delivery_id key
operation_input delivery_id (Call.start input receipt_id) = lease_input delivery_id input
operation_input delivery_id (Call.renew input receipt_id) = lease_input delivery_id input
operation_input delivery_id (Call.release input receipt_id) = release_input delivery_id input

abbrev is_node : Origin → Bool
is_node node = true
is_node relay = false

abbrev is_operation : RecordedOperation → Operation → Bool
is_operation (performed recorded) operation = operation_code recorded == operation_code operation
is_operation lease_expired operation = false

-- The receipt of a Node under a key.
unfoldable pub find_receipt : String → String → List ReceiptRow → Option ReceiptRow
find_receipt node_id key [] = none
find_receipt node_id key (row ∷ rows) =
    if is_node row.origin && row.node_id == node_id && row.idempotency_key == key
    then some row
    else find_receipt node_id key rows

-- Whether a receipt is of the same operation on the same delivery with the same input.
abbrev pub is_same_request : ReceiptRow → String → Call → Bool
is_same_request row delivery_id call =
    row.delivery_id == delivery_id
    && is_operation row.operation (operation_of call)
    && row.input == operation_input delivery_id call

-- `loadReplay`
unfoldable pub load_replay :
    List ReceiptRow → String → String → Call → Result Error (Option ReceiptRow)
load_replay receipts node_id delivery_id call =
    checked (find_receipt node_id (key_of call) receipts)
  where
    checked : Option ReceiptRow → Result Error (Option ReceiptRow)
    checked none = ok none
    checked (some row) = do
      throw_if (not (is_same_request row delivery_id call)) (relay_error duplicate_idempotency_key)
      ok (some row)

-- `throw terminalMutationError(locked.reconciledStatus)`
abbrev assert_not_reconciled : Option MissionStatus → Result Error (Unit {0})
assert_not_reconciled status = throw_if (is_some status) (relay_error invalid_transition)

module _ (texts : Texts) (to_iso : ℕ → String) (auth : NodeCredential) where
  abbrev are_valid : Delivery → Receipt → Bool
  are_valid delivery receipt = is_valid_delivery texts delivery && is_valid_receipt texts receipt

  -- The stored output of a receipt, parsed again as `replayed`.
  unfoldable pub parse_output : Operation → Output → Result Error Output
  parse_output operation (claim_output result) = do
    throw_if
        (not (
          is_claim operation
          && are_valid result.delivery result.receipt
          && is_valid_claim_result result))
        schema_error
    ok (claim_output (record result { replayed = true }))
  parse_output operation (operation_output result) = do
    throw_if
        (not (
          not (is_claim operation)
          && are_valid result.delivery result.receipt
          && is_valid_result operation result))
        schema_error
    ok (operation_output (record result { replayed = true }))
  parse_output operation output = err schema_error

  -- The answer to a request that was answered before. A release is answered again without the
  -- check of trust.
  unfoldable pub replay : Locked → Tables → Call → ReceiptRow → Result Error (Tables × Output)
  replay l t call row = do
    output ← parse_output (operation_of call) row.output
    if is_release (operation_of call)
        then ok tt
        else assert_mission_trust l.created_by_agent_id l.participants l.blocks
    assert_replayable t.delivery
    ok (t, output)

  -- `persistNodeReceipt` beside the updated row
  unfoldable pub persist :
      Tables
      → Row
      → Row
      → List ReceiptRow
      → Receipt
      → StoredInput
      → Output
      → Result Error (Tables × Output)
  persist t named row recovered receipt input output = do
    stored ← node_receipt_row texts auth named receipt input output
    ok (record { delivery = row; receipts = stored ∷ (recovered ++ t.receipts) }, output)

  abbrev recovered_rows : Option ReceiptRow → List ReceiptRow
  recovered_rows none = []
  recovered_rows (some row) = row ∷ []

  unfoldable pub persist_mutation : Tables → Call → Mutation → Result Error (Tables × Output)
  persist_mutation t call m =
      persist t t.delivery m.row [] m.result.receipt (operation_input t.delivery.id call)
        (operation_output m.result)

  -- The operation of a call that is new.
  unfoldable pub mutate : Locked → Tables → Call → Result Error (Tables × Output)
  unfolding persist_mutation
  mutate l t (Call.claim key lease_id receipt_id) = do
    m ← claim_delivery texts to_iso auth (context_of l t.delivery) key lease_id receipt_id l.now
    persist t m.row m.row (recovered_rows m.recovered) m.result.receipt
        (operation_input t.delivery.id (Call.claim key lease_id receipt_id)) (claim_output m.result)
  mutate l t (Call.start input receipt_id) = do
    m ← start_delivery texts to_iso auth (context_of l t.delivery) input receipt_id l.now
    persist_mutation t (Call.start input receipt_id) m
  mutate l t (Call.renew input receipt_id) = do
    m ← renew_delivery texts to_iso auth (context_of l t.delivery) input receipt_id l.now
    persist_mutation t (Call.renew input receipt_id) m
  mutate l t (Call.release input receipt_id) = do
    m ← release_delivery texts to_iso auth (context_of l t.delivery) input receipt_id l.now
    persist_mutation t (Call.release input receipt_id) m

  -- The guards of a new call, and its operation.
  unfoldable pub answer_new : Locked → Tables → Call → Result Error (Tables × Output)
  answer_new l t call = do
    assert_not_reconciled l.reconciled_status
    assert_mission_trust l.created_by_agent_id l.participants l.blocks
    assert_runnable (context_of l t.delivery) l.now
    mutate l t call

  abbrev pub answer : Locked → Tables → Call → Option ReceiptRow → Result Error (Tables × Output)
  answer l t call none = answer_new l t call
  answer l t call (some row) = replay l t call row

  -- `claimDelivery` and `mutateLeaseDelivery`: the tables and the answer that a request leaves.
  unfoldable pub request : Locked → Tables → Call → Result Error (Tables × Output)
  request l t call = do
    assert_routing l.participants l.routes
    found ← load_replay t.receipts auth.node_id t.delivery.id call
    answer l t call found
