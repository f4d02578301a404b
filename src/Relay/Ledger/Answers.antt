-- ===== src/Relay/Ledger/Answers.antt =====
-- relay/src/services/delivery-ledger.ts: what an accepted request records and answers.
use agent_relay.Prelude.{
  ℕ, ◌≡◌, ap, sym, ◌∙◌, String, true, not, Option, arith, ok, string_eq, >>=-eq-ok, throw_if-ok,
  ok-inj, not-false,
}
use agent_relay.Protocol.Schemas.{Texts}
use agent_relay.Protocol.Receipts.{Operation, ClaimOutcome, Receipt, is_valid_receipt}
use agent_relay.Protocol.Snapshot.{Delivery, is_valid_delivery}
use agent_relay.Protocol.Results.{is_valid_result, is_valid_claim_result}
use agent_relay.Relay.Errors.{schema_error}
use agent_relay.Relay.Ledger.Row.{Row, delivery_from_row}
use agent_relay.Relay.Ledger.Rules.{ReceiptInput, receipt_of, operation_receipt, parse_row}
use agent_relay.Relay.Ledger.Operations.{NodeCredential, Mutation, parse_result, conclude}
use agent_relay.Relay.Ledger.Receipts.{
  node, performed, StoredInput, Output, ReceiptRow, node_receipt_row,
}
use agent_relay.Relay.Ledger.Claim.{ClaimMutation, parse_claim_result, conclude_claim}

-- What a stored receipt says of the request that it answers.
pub record Records (auth : NodeCredential) (delivery_id key : String) (operation : Operation)
    (input : StoredInput) (output : Output) (row : ReceiptRow) : Type 0 where
  pub by_node : row.origin ≡ node
  pub same_node : row.node_id ≡ auth.node_id
  pub same_delivery : row.delivery_id ≡ delivery_id
  pub same_operation : row.operation ≡ performed operation
  pub same_key : row.idempotency_key ≡ key
  pub same_input : row.input ≡ input
  pub same_output : row.output ≡ output

pub node_receipt_row-Records :
    (texts : Texts) (auth : NodeCredential) (named : Row) (receipt : Receipt) (input : StoredInput)
    (output : Output) {row : ReceiptRow}
    → node_receipt_row texts auth named receipt input output ≡ ok row
    → Records auth named.id receipt.idempotency_key receipt.operation input output row
unfolding node_receipt_row
node_receipt_row-Records texts auth named receipt input output h = ground arith

parse_result-ok :
    (operation : Operation) (row : Row) (receipt : Receipt) (delivery : Delivery) {m : Mutation}
    → parse_result operation row receipt delivery ≡ ok m
    → (m.result.delivery ≡ delivery)
      × (m.result.receipt ≡ receipt)
      × (is_valid_result operation m.result ≡ true)
      × (m.row ≡ row)
unfolding parse_result
parse_result-ok operation row receipt delivery h =
    (ground arith, ground arith, ground arith, ground arith)

parse_claim_result-ok :
    (outcome : ClaimOutcome) (recovered : Option ReceiptRow) (row : Row) (receipt : Receipt)
    (delivery : Delivery) {m : ClaimMutation}
    → parse_claim_result outcome recovered row receipt delivery ≡ ok m
    → (m.result.delivery ≡ delivery)
      × (m.result.receipt ≡ receipt)
      × (is_valid_claim_result m.result ≡ true)
      × (m.row ≡ row)
unfolding parse_claim_result
parse_claim_result-ok outcome recovered row receipt delivery h =
    (ground arith, ground arith, ground arith, ground arith)

module _ (texts : Texts) (to_iso : ℕ → String) (auth : NodeCredential) where
  operation_receipt-ok :
      (receipt_id : String) (input : ReceiptInput) {receipt : Receipt}
      → operation_receipt texts to_iso receipt_id input ≡ ok receipt
      → (is_valid_receipt texts receipt ≡ true)
        × (receipt.operation ≡ input.operation)
        × (receipt.idempotency_key ≡ input.idempotency_key)
  unfolding operation_receipt receipt_of
  operation_receipt-ok receipt_id input {receipt} h =
      let (valid, same) =
        throw_if-ok (not (is_valid_receipt texts (receipt_of texts to_iso receipt_id input)))
          schema_error _ h in
      let made = ok-inj (receipt_of texts to_iso receipt_id input) receipt same in
      (
        ap (is_valid_receipt texts) (sym made) ∙ not-false _ valid,
        ap (λ r. r.operation) (sym made),
        ap (λ r. r.idempotency_key) (sym made),
      )

  parse_row-ok :
      (row : Row) {delivery : Delivery}
      → parse_row texts to_iso row ≡ ok delivery
      → is_valid_delivery texts delivery ≡ true
  unfolding parse_row
  parse_row-ok row {delivery} h =
      let (valid, same) =
        throw_if-ok (not (is_valid_delivery texts (delivery_from_row to_iso row))) schema_error _
          h in
      ap (is_valid_delivery texts) (sym (ok-inj (delivery_from_row to_iso row) delivery same))
      ∙ not-false _ valid

  -- What the schemas of a result have checked.
  abbrev pub IsAnswer : Operation → String → Delivery → Receipt → Type 0
  IsAnswer operation key delivery receipt =
      (is_valid_delivery texts delivery ≡ true)
      × (is_valid_receipt texts receipt ≡ true)
      × (receipt.operation ≡ operation)
      × (receipt.idempotency_key ≡ key)

  pub conclude-IsAnswer :
      (operation : Operation) (row : Row) (receipt_id : String) (input : ReceiptInput)
      {m : Mutation}
      → conclude texts to_iso auth operation row receipt_id input ≡ ok m
      → IsAnswer input.operation input.idempotency_key m.result.delivery m.result.receipt
        × (is_valid_result operation m.result ≡ true)
        × (m.row ≡ row)
  unfolding conclude
  conclude-IsAnswer operation row receipt_id input {m} h =
      let (receipt, made, rest) = >>=-eq-ok (operation_receipt texts to_iso receipt_id input) _ h in
      let (delivery, shown, rest) = >>=-eq-ok (parse_row texts to_iso row) _ rest in
      let (same_delivery, same_receipt, valid, same) =
        parse_result-ok operation row receipt delivery rest in
      let (checked, same_operation, same_key) = operation_receipt-ok receipt_id input made in
      (
        (
          ap (is_valid_delivery texts) same_delivery ∙ parse_row-ok row shown,
          ap (is_valid_receipt texts) same_receipt ∙ checked,
          ap (λ r. r.operation) same_receipt ∙ same_operation,
          ap (λ r. r.idempotency_key) same_receipt ∙ same_key,
        ),
        valid,
        same,
      )

  pub conclude_claim-IsAnswer :
      (outcome : ClaimOutcome) (recovered : Option ReceiptRow) (row : Row) (receipt_id : String)
      (input : ReceiptInput) {m : ClaimMutation}
      → conclude_claim texts to_iso auth outcome recovered row receipt_id input ≡ ok m
      → IsAnswer input.operation input.idempotency_key m.result.delivery m.result.receipt
        × (is_valid_claim_result m.result ≡ true)
        × (m.row ≡ row)
  unfolding conclude_claim
  conclude_claim-IsAnswer outcome recovered row receipt_id input {m} h =
      let (receipt, made, rest) = >>=-eq-ok (operation_receipt texts to_iso receipt_id input) _ h in
      let (delivery, shown, rest) = >>=-eq-ok (parse_row texts to_iso row) _ rest in
      let (same_delivery, same_receipt, valid, same) =
        parse_claim_result-ok outcome recovered row receipt delivery rest in
      let (checked, same_operation, same_key) = operation_receipt-ok receipt_id input made in
      (
        (
          ap (is_valid_delivery texts) same_delivery ∙ parse_row-ok row shown,
          ap (is_valid_receipt texts) same_receipt ∙ checked,
          ap (λ r. r.operation) same_receipt ∙ same_operation,
          ap (λ r. r.idempotency_key) same_receipt ∙ same_key,
        ),
        valid,
        same,
      )
