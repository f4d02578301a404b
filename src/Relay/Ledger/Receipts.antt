-- ===== src/Relay/Ledger/Receipts.antt =====
-- relay/src/db/schema.ts, the table `delivery_operation_receipts`, and its insertions in
-- relay/src/services/delivery-ledger.ts.
use agent_relay.Prelude.{
  ℕ, String, Option, none, some, Equatable, eq_of_discrete, String-discrete, Result, ok, err, ◌>>=◌,
}
use agent_relay.Protocol.Schemas.{Texts, DeliveryStatus}
use agent_relay.Protocol.Receipts.{Operation, LeaseAuthority, Release, Receipt}
use agent_relay.Protocol.Snapshot.{Delivery}
use agent_relay.Protocol.Results.{OperationResult, ClaimResult}
use agent_relay.Relay.Errors.{Error, schema_error}
use agent_relay.Relay.Ledger.Row.{Row}
use agent_relay.Relay.Ledger.Operations.{NodeCredential, LeaseInput, ReleaseInput}

pub data Origin : Type 0 where
  node relay : Origin

-- The operations that the table names: a Node's and the Relay's.
pub data RecordedOperation : Type 0 where
  performed : Operation → RecordedOperation
  lease_expired : RecordedOperation

-- `operationInput`, and the input that the Relay records of its own operations.
pub data StoredInput : Type 0 where
  claim_input : String → String → StoredInput
  lease_input : String → LeaseInput → StoredInput
  release_input : String → ReleaseInput → StoredInput
  expired_input : LeaseAuthority → StoredInput
  cancel_input : String → String → StoredInput

pub data Output : Type 0 where
  claim_output : ClaimResult → Output
  operation_output : OperationResult → Output
  delivery_output : Delivery → Output

-- `deliveryOperationReceipts`
pub record ReceiptRow : Type 0 where
  pub origin : Origin
  pub node_id : String
  pub mission_id : String
  pub delivery_id : String
  pub operation : RecordedOperation
  pub idempotency_key : String
  pub credential_id : Option String
  pub attempt_count : ℕ
  pub lease_id : Option String
  pub fencing_token : Option String
  pub lease_expires_at : Option ℕ
  pub status_before : DeliveryStatus
  pub status_after : DeliveryStatus
  pub cancellation_reason : Option String
  pub input : StoredInput
  pub output : Output
  pub recorded_at : ℕ

unfoldable pub LeaseAuthority-discrete : Discrete LeaseAuthority
LeaseAuthority-discrete = hlevel String-discrete

unfoldable pub Release-discrete : Discrete Release
Release-discrete = hlevel String-discrete

unfoldable pub LeaseInput-discrete : Discrete LeaseInput
LeaseInput-discrete = hlevel (String-discrete, LeaseAuthority-discrete)

unfoldable pub ReleaseInput-discrete : Discrete ReleaseInput
ReleaseInput-discrete = hlevel (String-discrete, LeaseInput-discrete, Release-discrete)

unfoldable pub StoredInput-discrete : Discrete StoredInput
StoredInput-discrete =
    hlevel (String-discrete, LeaseInput-discrete, ReleaseInput-discrete, LeaseAuthority-discrete)

instance abbrev pub stored_input_eq : Equatable StoredInput
stored_input_eq = eq_of_discrete StoredInput-discrete

abbrev lease_id_of : Option LeaseAuthority → Option String
lease_id_of none = none
lease_id_of (some lease) = some lease.lease_id

abbrev token_of : Option LeaseAuthority → Option String
token_of none = none
token_of (some lease) = some lease.fencing_token

-- `new Date(text)`, which an insertion refuses where it is no date
abbrev parse_date : Texts → String → Result Error ℕ
parse_date texts text = elim (texts.date_parse text) [
  | none ↦ err schema_error
  | some date ↦ ok date
]

abbrev parse_optional_date : Texts → Option String → Result Error (Option ℕ)
parse_optional_date texts none = ok none
parse_optional_date texts (some text) = do date ← parse_date texts text; ok (some date)

-- `persistNodeReceipt`: the row that it inserts.
unfoldable pub node_receipt_row :
    Texts → NodeCredential → Row → Receipt → StoredInput → Output → Result Error ReceiptRow
node_receipt_row texts auth delivery receipt input output = do
  lease_expires_at ← parse_optional_date texts receipt.lease_expires_at
  recorded_at ← parse_date texts receipt.recorded_at
  ok (record {
    origin = node;
    node_id = auth.node_id;
    mission_id = delivery.mission_id;
    delivery_id = delivery.id;
    operation = performed receipt.operation;
    idempotency_key = receipt.idempotency_key;
    credential_id = some auth.credential_id;
    attempt_count = receipt.attempt_count;
    lease_id = lease_id_of receipt.lease;
    fencing_token = token_of receipt.lease;
    lease_expires_at = lease_expires_at;
    status_before = receipt.status_before;
    status_after = receipt.status_after;
    cancellation_reason = receipt.cancellation_reason;
    input = input;
    output = output;
    recorded_at = recorded_at;
  })
