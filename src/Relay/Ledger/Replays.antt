-- ===== src/Relay/Ledger/Replays.antt =====
-- relay/src/services/delivery-ledger.ts: a request that was accepted is answered again from its
-- receipt, and its key serves no other request.
use mathlib.Core.Path.{subst}
use agent_relay.Prelude.{
  ℕ, ◌≡◌, ◌≢◌, ◌⊎◌, inl, inr, refl, ap, sym, ◌∙◌, String, true, false, none, some, List, [], ◌∷◌,
  ◌++◌, arith, ok, err, ◌==◌, string_eq, nat_eq, >>=-eq-ok, beq_refl, beq→eq, Bool-cases,
}
use agent_relay.Protocol.Schemas.{Texts, DeliveryStatus, delivery_status_eq}
use agent_relay.Protocol.Receipts.{Operation, Receipt}
use agent_relay.Protocol.Results.{operation_code}
use agent_relay.Relay.Errors.{relay_error, duplicate_idempotency_key}
use agent_relay.Relay.Ledger.Row.{Row}
use agent_relay.Relay.Ledger.Rules.{assert_replayable}
use agent_relay.Relay.Ledger.Guards.{assert_routing, assert_mission_trust}
use agent_relay.Relay.Ledger.Operations.{
  NodeCredential, start_delivery, renew_delivery, release_delivery,
}
use agent_relay.Relay.Ledger.Receipts.{
  performed, StoredInput, stored_input_eq, Output, claim_output, operation_output, ReceiptRow,
  node_receipt_row,
}
use agent_relay.Relay.Ledger.Claim.{claim_delivery}
use agent_relay.Relay.Ledger.Calls.{Call}
use agent_relay.Relay.Ledger.Requests.{
  Locked, Tables, context_of, key_of, operation_of, operation_input, find_receipt, is_same_request,
  load_replay, parse_output, replay, persist, persist_mutation, mutate, answer_new, request,
}
use agent_relay.Relay.Ledger.Answers.{Records, node_receipt_row-Records}
use agent_relay.Relay.Ledger.Answering.{
  start-IsAnswered, renew-IsAnswered, release-IsAnswered, claim-IsAnswered,
}

-- An answer that is marked as given before.
abbrev pub as_replayed : Output → Output
as_replayed (claim_output result) = claim_output (record result { replayed = true })
as_replayed (operation_output result) = operation_output (record result { replayed = true })
as_replayed output = output

operation_code-inj : (a b : Operation) → operation_code a ≡ operation_code b → b ≡ a
operation_code-inj a b h = ground arith

-- The same call with other fresh ids.
abbrev pub retried : Call → String → String → Call
retried (Call.claim key old_lease old_receipt) lease_id receipt_id =
    Call.claim key lease_id receipt_id
retried (Call.start input old_receipt) lease_id receipt_id = Call.start input receipt_id
retried (Call.renew input old_receipt) lease_id receipt_id = Call.renew input receipt_id
retried (Call.release input old_receipt) lease_id receipt_id = Call.release input receipt_id

module _ (texts : Texts) (to_iso : ℕ → String) (auth : NodeCredential) where
  -- What a new request leaves: its receipt in front of the table, and an answer that is parsed again.
  pub record Answered (t : Tables) (call : Call) (left : Tables) (output : Output) : Type 0 where
    pub row : ReceiptRow
    pub others : List ReceiptRow
    pub stored : left.receipts ≡ row ∷ others
    pub records :
        Records auth t.delivery.id
          (key_of call)
          (operation_of call)
          (operation_input t.delivery.id call)
          output
          row
    pub parsed_again :
        parse_output texts to_iso auth (operation_of call) output ≡ ok (as_replayed output)
    pub same_delivery : left.delivery.id ≡ t.delivery.id

  persist-stored :
      (t : Tables) (named row : Row) (recovered : List ReceiptRow) (receipt : Receipt)
      (input : StoredInput) (output : Output) {left : Tables} {given : Output}
      → persist texts to_iso auth t named row recovered receipt input output ≡ ok (left, given)
      → (stored : ReceiptRow) × (node_receipt_row texts auth named receipt input output ≡ ok stored)
        × (left.receipts ≡ stored ∷ (recovered ++ t.receipts))
        × (left.delivery ≡ row)
        × (given ≡ output)
  unfolding persist
  persist-stored t named row recovered receipt input output h =
      let (stored, made, same) =
        >>=-eq-ok (node_receipt_row texts auth named receipt input output) _ h in
      (stored, made, ground arith, ground arith, ground arith)

  persist-Answered :
      (t : Tables) (call : Call) (named row : Row) (recovered : List ReceiptRow) (receipt : Receipt)
      (output : Output) {left : Tables} {given : Output}
      → persist texts to_iso auth t named row recovered receipt
          (operation_input t.delivery.id call)
          output
        ≡ ok (left, given)
      → named.id ≡ t.delivery.id
      → row.id ≡ t.delivery.id
      → receipt.operation ≡ operation_of call
      → receipt.idempotency_key ≡ key_of call
      → parse_output texts to_iso auth (operation_of call) output ≡ ok (as_replayed output)
      → Answered t call left given
  persist-Answered t call named row recovered receipt output {left} h named_id row_id operation key
        parsed =
      let (stored, made, front, changed, same) =
        persist-stored t named row recovered receipt (operation_input t.delivery.id call) output
          h in
      let r =
        node_receipt_row-Records texts auth named receipt (operation_input t.delivery.id call)
          output made in
      subst (Answered t call left) (sym same) (record {
        row = stored;
        others = recovered ++ t.receipts;
        stored = front;
        records = record {
          by_node = r.by_node;
          same_node = r.same_node;
          same_delivery = r.same_delivery ∙ named_id;
          same_operation = r.same_operation ∙ ap performed operation;
          same_key = r.same_key ∙ key;
          same_input = r.same_input;
          same_output = r.same_output;
        };
        parsed_again = parsed;
        same_delivery = ap (λ x. x.id) changed ∙ row_id;
      })

  mutate-Answered :
      (l : Locked) (t : Tables) (call : Call) {left : Tables} {given : Output}
      → mutate texts to_iso auth l t call ≡ ok (left, given)
      → Answered t call left given
  unfolding mutate persist_mutation parse_output
  mutate-Answered l t (Call.claim key lease_id receipt_id) h =
      let (m, done, rest) =
        >>=-eq-ok
          (claim_delivery texts to_iso auth (context_of l t.delivery) key lease_id receipt_id l.now)
          _ h in
      let ((shown, checked, operation, same_key), valid, same) =
        claim-IsAnswered texts to_iso auth (context_of l t.delivery) key lease_id receipt_id l.now
          done in
      persist-Answered t (Call.claim key lease_id receipt_id) m.row m.row _ m.result.receipt
        (claim_output m.result) rest same same operation same_key (ground arith)
  mutate-Answered l t (Call.start input receipt_id) h =
      let (m, done, rest) =
        >>=-eq-ok
          (start_delivery texts to_iso auth (context_of l t.delivery) input receipt_id l.now) _ h in
      let ((shown, checked, operation, same_key), valid, same) =
        start-IsAnswered texts to_iso auth (context_of l t.delivery) input receipt_id l.now done in
      persist-Answered t (Call.start input receipt_id) t.delivery m.row [] m.result.receipt
        (operation_output m.result) rest refl same operation same_key (ground arith)
  mutate-Answered l t (Call.renew input receipt_id) h =
      let (m, done, rest) =
        >>=-eq-ok
          (renew_delivery texts to_iso auth (context_of l t.delivery) input receipt_id l.now) _ h in
      let ((shown, checked, operation, same_key), valid, same) =
        renew-IsAnswered texts to_iso auth (context_of l t.delivery) input receipt_id l.now done in
      persist-Answered t (Call.renew input receipt_id) t.delivery m.row [] m.result.receipt
        (operation_output m.result) rest refl same operation same_key (ground arith)
  mutate-Answered l t (Call.release input receipt_id) h =
      let (m, done, rest) =
        >>=-eq-ok
          (release_delivery texts to_iso auth (context_of l t.delivery) input receipt_id l.now) _
          h in
      let ((shown, checked, operation, same_key), valid, same) =
        release-IsAnswered texts to_iso auth (context_of l t.delivery) input receipt_id l.now
          done in
      persist-Answered t (Call.release input receipt_id) t.delivery m.row [] m.result.receipt
        (operation_output m.result) rest refl same operation same_key (ground arith)

  -- The receipt of a request is found by its key.
  Answered-found :
      (t left : Tables) (call : Call) (given : Output) (a : Answered t call left given)
      → find_receipt auth.node_id (key_of call) left.receipts ≡ some a.row
  unfolding find_receipt
  Answered-found t left call given a = rw a.stored (
      ground (
        arith,
        a.records.by_node,
        a.records.same_node,
        a.records.same_key,
        beq_refl auth.node_id,
        beq_refl (key_of call),
      ))

  pub new_request-mutate :
      (l : Locked) (t : Tables) (call : Call) {left : Tables} {given : Output}
      → find_receipt auth.node_id (key_of call) t.receipts ≡ none
      → request texts to_iso auth l t call ≡ ok (left, given)
      → mutate texts to_iso auth l t call ≡ ok (left, given)
  unfolding request load_replay answer_new
  new_request-mutate l t call unused h = ground arith

  retried-same :
      (call : Call) (lease_id receipt_id delivery_id : String)
      → (key_of (retried call lease_id receipt_id) ≡ key_of call)
        × (operation_of (retried call lease_id receipt_id) ≡ operation_of call)
        × (operation_input delivery_id (retried call lease_id receipt_id)
            ≡ operation_input delivery_id call)
  retried-same (Call.claim key x y) lease_id receipt_id delivery_id = (refl, refl, refl)
  retried-same (Call.start input y) lease_id receipt_id delivery_id = (refl, refl, refl)
  retried-same (Call.renew input y) lease_id receipt_id delivery_id = (refl, refl, refl)
  retried-same (Call.release input y) lease_id receipt_id delivery_id = (refl, refl, refl)

  load_replay-found :
      (receipts : List ReceiptRow) (delivery_id : String) (call : Call) (row : ReceiptRow)
      → find_receipt auth.node_id (key_of call) receipts ≡ some row
      → is_same_request row delivery_id call ≡ true
      → load_replay receipts auth.node_id delivery_id call ≡ ok (some row)
  unfolding load_replay
  load_replay-found receipts delivery_id call row found same = rw found (rw same refl)

  load_replay-refused :
      (receipts : List ReceiptRow) (delivery_id : String) (call : Call) (row : ReceiptRow)
      → find_receipt auth.node_id (key_of call) receipts ≡ some row
      → is_same_request row delivery_id call ≡ false
      → load_replay receipts auth.node_id delivery_id call
        ≡ err (relay_error duplicate_idempotency_key)
  unfolding load_replay
  load_replay-refused receipts delivery_id call row found same = rw found (rw same refl)

  is_same_request-true :
      (row : ReceiptRow) (delivery_id : String) (call : Call)
      → row.delivery_id ≡ delivery_id
      → row.operation ≡ performed (operation_of call)
      → row.input ≡ operation_input delivery_id call
      → is_same_request row delivery_id call ≡ true
  is_same_request-true row delivery_id call same operation input = ground (
    arith,
    operation,
    input,
    same,
    beq_refl delivery_id,
    beq_refl (operation_input delivery_id call),
    beq_refl (operation_code (operation_of call)),
  )

  is_same_request-same :
      (row : ReceiptRow) (delivery_id : String) (call : Call) (operation : Operation)
      → row.operation ≡ performed operation
      → is_same_request row delivery_id call ≡ true
      → (operation_of call ≡ operation) × (row.input ≡ operation_input delivery_id call)
  is_same_request-same row delivery_id call operation recorded same = (
    ground (arith, operation_code-inj operation (operation_of call)),
    beq→eq row.input (operation_input delivery_id call) (ground arith),
  )

  replay-ok :
      (l : Locked) (t : Tables) (call : Call) (row : ReceiptRow) {output : Output}
      → parse_output texts to_iso auth (operation_of call) row.output ≡ ok output
      → assert_mission_trust l.created_by_agent_id l.participants l.blocks ≡ ok tt
      → t.delivery.status == DeliveryStatus.cancelled ≡ false
      → replay texts to_iso auth l t call row ≡ ok (t, output)
  unfolding replay assert_replayable
  replay-ok l t call row parsed trusted kept = ground arith

  -- A request that was accepted is answered again by its receipt: the same call, with other fresh
  -- ids, changes nothing and gives the same answer, marked as given before, while the routes are
  -- active, the principals do not block each other and the delivery is not cancelled. The lease, the
  -- deadline and the state of the Mission play no part in it.
  pub request-replayed :
      (l later : Locked) (t : Tables) (call : Call) (lease_id receipt_id : String) {left : Tables}
      {given : Output}
      → find_receipt auth.node_id (key_of call) t.receipts ≡ none
      → request texts to_iso auth l t call ≡ ok (left, given)
      → assert_routing later.participants later.routes ≡ ok tt
      → assert_mission_trust later.created_by_agent_id later.participants later.blocks ≡ ok tt
      → left.delivery.status == DeliveryStatus.cancelled ≡ false
      → request texts to_iso auth later left (retried call lease_id receipt_id)
        ≡ ok (left, as_replayed given)
  unfolding request
  request-replayed l later t call lease_id receipt_id {left} {given} unused h routed trusted kept =
      let a : Answered t call left given =
        mutate-Answered l t call (new_request-mutate l t call unused h) in
      let again : Call = retried call lease_id receipt_id in
      let (key, operation, input) = retried-same call lease_id receipt_id left.delivery.id in
      let found : find_receipt auth.node_id (key_of again) left.receipts ≡ some a.row =
        ap (λ k. find_receipt auth.node_id k left.receipts) key
        ∙ Answered-found t left call given a in
      let same : is_same_request a.row left.delivery.id again ≡ true =
        is_same_request-true a.row left.delivery.id again
          (a.records.same_delivery ∙ sym a.same_delivery)
          (a.records.same_operation ∙ ap performed (sym operation))
          (a.records.same_input
            ∙ ap (λ id. operation_input id call) (sym a.same_delivery)
            ∙ sym input) in
      let parsed : parse_output texts to_iso auth (operation_of again) a.row.output
          ≡ ok (as_replayed given) =
        ap (λ o. parse_output texts to_iso auth o a.row.output) operation
        ∙ ap (parse_output texts to_iso auth (operation_of call)) a.records.same_output
        ∙ a.parsed_again in
      rw routed (
        rw (load_replay-found left.receipts left.delivery.id again a.row found same)
          (replay-ok later left again a.row parsed trusted kept))

  Answered-differs :
      (t other : Tables) (call again : Call) {left : Tables} (given : Output)
      (a : Answered t call left given)
      → (operation_of again ≢ operation_of call)
        ⊎ (operation_input other.delivery.id again ≢ operation_input t.delivery.id call)
      → is_same_request a.row other.delivery.id again ≡ false
  Answered-differs t other call again given a differs =
      elim (Bool-cases (is_same_request a.row other.delivery.id again)) [
        | inr different ↦ different
        | inl same ↦
            let (operation, input) =
              is_same_request-same a.row other.delivery.id again (operation_of call)
                a.records.same_operation same in
            elim differs [
              | inl other_operation ↦ absurd (other_operation operation)
              | inr other_input ↦ absurd (other_input (sym input ∙ a.records.same_input))
            ]
      ]

  -- A key that was used serves no other request: another operation, or another input, under the key
  -- of an accepted request is refused as a duplicate, whatever delivery it is about.
  pub request-duplicate_key :
      (l later : Locked) (t other : Tables) (call again : Call) {left : Tables} {given : Output}
      → find_receipt auth.node_id (key_of call) t.receipts ≡ none
      → request texts to_iso auth l t call ≡ ok (left, given)
      → other.receipts ≡ left.receipts
      → key_of again ≡ key_of call
      → (operation_of again ≢ operation_of call)
        ⊎ (operation_input other.delivery.id again ≢ operation_input t.delivery.id call)
      → assert_routing later.participants later.routes ≡ ok tt
      → request texts to_iso auth later other again ≡ err (relay_error duplicate_idempotency_key)
  unfolding request
  request-duplicate_key l later t other call again {left} {given} unused h same key differs routed =
      let a : Answered t call left given =
        mutate-Answered l t call (new_request-mutate l t call unused h) in
      let found : find_receipt auth.node_id (key_of again) other.receipts ≡ some a.row =
        ap (λ k. find_receipt auth.node_id k other.receipts) key
        ∙ ap (find_receipt auth.node_id (key_of call)) same
        ∙ Answered-found t left call given a in
      rw routed (
        rw
          (load_replay-refused other.receipts other.delivery.id again a.row found
            (Answered-differs t other call again given a differs))
          refl)
