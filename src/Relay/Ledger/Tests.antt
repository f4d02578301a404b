-- ===== src/Relay/Ledger/Tests.antt =====
-- Requests on a delivery at concrete inputs. Dates are printed as decimal texts here.
use agent_relay.Prelude.{
  ℕ, ◌≡◌, ◌≢◌, inl, refl, ap, String, true, false, none, some, List, [], ◌∷◌, arith, ok, err,
}
use agent_relay.Prelude.Decimal.{to_decimal, of_decimal, of_decimal-to_decimal}
use agent_relay.Protocol.Schemas.{Texts, turn, stored, leased, active}
use agent_relay.Protocol.Records.{Participant}
use agent_relay.Protocol.Receipts.{Operation, ClaimOutcome, is_valid_receipt, has_valid_status_pair}
use agent_relay.Protocol.Snapshot.{is_valid_delivery}
use agent_relay.Protocol.Results.{ClaimResult, is_valid_claim_result, describes_delivery}
use agent_relay.Relay.Errors.{relay_error, duplicate_idempotency_key}
use agent_relay.Relay.Ledger.Row.{
  Row, is_valid_row, has_valid_kind, has_valid_attempts, has_valid_lease, has_valid_end,
  delivery_from_row,
}
use agent_relay.Relay.Ledger.Rules.{
  Context, bounded_lease_expiry, assert_runnable, operation_receipt, receipt_of, parse_row,
}
use agent_relay.Relay.Ledger.Guards.{
  Route, assert_routing, are_active, expected_participant, count, distinct, assert_mission_trust,
  assert_trust, some_blocked,
}
use agent_relay.Relay.Ledger.Operations.{NodeCredential, LeaseInput}
use agent_relay.Relay.Ledger.Receipts.{
  ReceiptRow, node, performed, claim_input, claim_output, node_receipt_row,
}
use agent_relay.Relay.Ledger.Claim.{
  ClaimMutation, claimed_row, claim_delivery, recover, expire_lease, expire_held, give_lease,
  conclude_claim, parse_claim_result,
}
use agent_relay.Relay.Ledger.Calls.{Call}
use agent_relay.Relay.Ledger.Requests.{
  Locked, Tables, context_of, find_receipt, load_replay, answer_new, mutate, persist, request,
}
use agent_relay.Relay.Ledger.Machine.{Prints, machine_state}
use agent_relay.Protocol.Delivery.Runs.{run}
use agent_relay.Relay.Ledger.ClaimRuns.{claim_events, claim-run}
use agent_relay.Relay.Ledger.Replays.{retried, as_replayed, request-replayed, request-duplicate_key}
use agent_relay.Relay.Ledger.Refines.{AreParsed, IsRefined, run_requests, run_requests-refines}
use agent_relay.Relay.Ledger.Fencing.{run_requests-fences}

abbrev texts : Texts
texts = record {
  is_uuid = λ s. true;
  is_iso_timestamp = λ s. true;
  date_parse = λ s. some (of_decimal s);
}

prints : Prints texts to_decimal
prints = record {
  is_date = λ date. refl;
  reads_back = λ date. ap some (of_decimal-to_decimal date);
}

abbrev auth : NodeCredential
auth = record { node_id = "node"; agent_id = "ann"; credential_id = "credential" }

abbrev new_row : Row
new_row = record {
  id = "delivery";
  node_id = "node";
  mission_id = "mission";
  mission_event_id = "event";
  kind = turn;
  cursor = 1;
  status = stored;
  attempt_count = 0;
  max_attempts = 2;
  last_fencing_token = "0";
  active_lease_id = none;
  lease_expires_at = none;
  contract_version = 1;
  verification_round = none;
  idempotency_key = "delivery:1";
  causal_parent_delivery_id = none;
  settled_by_event_id = none;
  settled_at = none;
  available_at = 0;
  acknowledged_at = none;
  cancelled_at = none;
  cancellation_reason = none;
  dead_lettered_at = none;
  created_at = 0;
  updated_at = 0;
}

abbrev participant : String → String → Participant
participant agent_id role = record {
  agent_id = agent_id;
  role = role;
  workspace_alias = "w";
  repository_url = "r";
  expected_base_commit = "c";
  initial_assignment = "a";
  requested_local_policy_profile = "p";
}

abbrev route : String → Route
route agent_id = record {
  participant_agent_id = agent_id;
  participant_node_id = "node";
  participant_status = "accepted";
  agent_status = "active";
  node_status = "active";
  workspace_node_id = "node";
  workspace_alias = "w";
  workspace_repository_url = "r";
  workspace_status = "active";
}

abbrev locked : ℕ → Locked
locked now = record {
  mission_status = active;
  mission_expires_at = 1000000;
  participant_status = "accepted";
  workspace_status = "active";
  now = now;
  reconciled_status = none;
  created_by_agent_id = "ann";
  participants = participant "ann" "x" ∷ participant "bob" "y" ∷ [];
  routes = route "ann" ∷ route "bob" ∷ [];
  blocks = [];
}

abbrev first_claim : Call
first_claim = Call.claim "k1" "lease1" "receipt1"

abbrev new_tables : Tables
new_tables = record { delivery = new_row; receipts = [] }

new_row-is_valid : is_valid_row new_row ≡ true
unfolding is_valid_row has_valid_kind has_valid_attempts has_valid_lease has_valid_end to_decimal
new_row-is_valid = refl

abbrev claimed : Row
claimed = claimed_row new_row "lease1" 60010 10

abbrev claim_result : ClaimResult
claim_result = record {
  outcome = ClaimOutcome.claimed;
  delivery = delivery_from_row to_decimal claimed;
  receipt = record {
    receipt_id = "receipt1";
    operation = Operation.claim;
    idempotency_key = "k1";
    node_id = "node";
    delivery_id = "delivery";
    attempt_count = 1;
    lease = some (record { lease_id = "lease1"; fencing_token = "1" });
    lease_expires_at = some "60010";
    status_before = stored;
    status_after = leased;
    logical_settlement = none;
    claim_outcome = some ClaimOutcome.claimed;
    release = none;
    cancellation_reason = none;
    recorded_at = "10";
  };
  replayed = false;
}

abbrev claim_row : ReceiptRow
claim_row = record {
  origin = node;
  node_id = "node";
  mission_id = "mission";
  delivery_id = "delivery";
  operation = performed Operation.claim;
  idempotency_key = "k1";
  credential_id = some "credential";
  attempt_count = 1;
  lease_id = some "lease1";
  fencing_token = some "1";
  lease_expires_at = some 60010;
  status_before = stored;
  status_after = leased;
  cancellation_reason = none;
  input = claim_input "delivery" "k1";
  output = claim_output claim_result;
  recorded_at = 10;
}

abbrev claimed_tables : Tables
claimed_tables = record { delivery = claimed; receipts = claim_row ∷ [] }

first_claim_ok :
    request texts to_decimal auth (locked 10) new_tables first_claim
    ≡ ok (claimed_tables, claim_output claim_result)
unfolding request load_replay find_receipt answer_new mutate persist node_receipt_row claim_delivery
    give_lease conclude_claim parse_claim_result operation_receipt receipt_of parse_row
    delivery_from_row bounded_lease_expiry assert_runnable assert_routing are_active
    expected_participant count distinct assert_mission_trust assert_trust some_blocked
    is_valid_delivery is_valid_receipt has_valid_status_pair is_valid_claim_result
    describes_delivery to_decimal of_decimal
first_claim_ok = refl

unused_key : find_receipt "node" "k1" new_tables.receipts ≡ none
unfolding find_receipt
unused_key = refl

routed : assert_routing (locked 99).participants (locked 99).routes ≡ ok tt
unfolding assert_routing are_active expected_participant count distinct
routed = refl

trusted :
    assert_mission_trust (locked 99).created_by_agent_id (locked 99).participants (locked 99).blocks
    ≡ ok tt
unfolding assert_mission_trust assert_trust count distinct some_blocked
trusted = refl

-- The claim is made again after its lease has run out.
request-replayed_example :
    request texts to_decimal auth
      (locked 99)
      claimed_tables
      (retried first_claim "lease9" "receipt9")
    ≡ ok (claimed_tables, as_replayed (claim_output claim_result))
request-replayed_example =
    request-replayed texts to_decimal auth (locked 10) (locked 99) new_tables first_claim "lease9"
      "receipt9" {left = claimed_tables} {given = claim_output claim_result} unused_key
      first_claim_ok routed trusted refl

abbrev lease1_input : String → LeaseInput
lease1_input key = record {
  idempotency_key = key;
  authority = record { lease_id = "lease1"; fencing_token = "1" };
}

request-duplicate_key_example :
    request texts to_decimal auth
      (locked 99)
      claimed_tables
      (Call.start (lease1_input "k1") "receipt9")
    ≡ err (relay_error duplicate_idempotency_key)
request-duplicate_key_example =
    request-duplicate_key texts to_decimal auth (locked 10) (locked 99) new_tables claimed_tables
      first_claim (Call.start (lease1_input "k1") "receipt9") {left = claimed_tables}
      {given = claim_output claim_result} unused_key first_claim_ok refl refl (inl (λ p. cc)) routed

abbrev claim_mutation : ClaimMutation
claim_mutation = record { row = claimed; recovered = none; result = claim_result }

abbrev new_context : Context
new_context = context_of (locked 10) new_row

claim_ok :
    claim_delivery texts to_decimal auth new_context "k1" "lease1" "receipt1" 10 ≡ ok claim_mutation
unfolding claim_delivery give_lease conclude_claim parse_claim_result operation_receipt receipt_of
    parse_row delivery_from_row bounded_lease_expiry is_valid_delivery is_valid_receipt
    has_valid_status_pair is_valid_claim_result describes_delivery to_decimal of_decimal
claim_ok = refl

claim-run_example :
    run texts (machine_state to_decimal new_row) (claim_events to_decimal new_context "lease1" 10)
    ≡ ok (machine_state to_decimal claimed)
claim-run_example =
    claim-run texts to_decimal prints auth new_context "k1" "lease1" "receipt1" 10
      {m = claim_mutation} new_row-is_valid refl claim_ok

abbrev next_claims : List (Locked × Call)
next_claims = (locked 70000, Call.claim "k2" "lease2" "receipt2") ∷ []

next_claims-AreParsed : AreParsed texts to_decimal prints auth next_claims
next_claims-AreParsed = (refl, tt)

claimed-is_valid : is_valid_row claimed ≡ true
unfolding is_valid_row has_valid_kind has_valid_attempts has_valid_lease has_valid_end to_decimal
claimed-is_valid = refl

run_requests-refines_example :
    IsRefined texts to_decimal prints auth claimed_tables
      (run_requests texts to_decimal prints auth claimed_tables next_claims)
run_requests-refines_example =
    run_requests-refines texts to_decimal prints auth claimed_tables next_claims claimed-is_valid
      next_claims-AreParsed

abbrev later : Tables
later = run_requests texts to_decimal prints auth claimed_tables next_claims

later_attempts : later.delivery.attempt_count ≡ 2
unfolding run_requests request load_replay find_receipt answer_new mutate persist node_receipt_row
    claim_delivery recover expire_lease expire_held give_lease conclude_claim parse_claim_result
    operation_receipt receipt_of parse_row delivery_from_row bounded_lease_expiry assert_runnable
    assert_routing are_active expected_participant count distinct assert_mission_trust assert_trust
    some_blocked is_valid_delivery is_valid_receipt has_valid_status_pair is_valid_claim_result
    describes_delivery to_decimal of_decimal
later_attempts = refl

later_unused : find_receipt "node" "k3" later.receipts ≡ none
unfolding run_requests request load_replay find_receipt answer_new mutate persist node_receipt_row
    claim_delivery recover expire_lease expire_held give_lease conclude_claim parse_claim_result
    operation_receipt receipt_of parse_row delivery_from_row bounded_lease_expiry assert_runnable
    assert_routing are_active expected_participant count distinct assert_mission_trust assert_trust
    some_blocked is_valid_delivery is_valid_receipt has_valid_status_pair is_valid_claim_result
    describes_delivery to_decimal of_decimal
later_unused = refl

old_token : (lease1_input "k3").authority.fencing_token ≡ claimed.last_fencing_token
unfolding to_decimal
old_token = refl

-- The Node of the first lease starts after the second claim.
run_requests-fences_example :
    request texts to_decimal auth (locked 70001) later (Call.start (lease1_input "k3") "receipt3")
    ≢ ok (later, claim_output claim_result)
run_requests-fences_example =
    run_requests-fences texts to_decimal prints auth claimed_tables next_claims (locked 70001)
      (Call.start (lease1_input "k3") "receipt3") (lease1_input "k3").authority claimed-is_valid
      next_claims-AreParsed (omega (arith, later_attempts)) refl old_token later_unused later
      (claim_output claim_result)
