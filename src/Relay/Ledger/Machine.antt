-- ===== src/Relay/Ledger/Machine.antt =====
-- relay/src/services/delivery-ledger.ts against protocol/src/state-machines.ts: the state of the
-- machine that a row of the ledger stands for. The ledger itself never calls the machine.
use agent_relay.Prelude.{
  ℕ, ◌≡◌, ◌≢◌, ◌∙◌, String, true, false, Option, none, some, ltb, arith, ok, beq→eq, ◌==◌,
  string_eq, bool_eq, some_in,
}
use agent_relay.Protocol.Schemas.{Texts, acknowledged, delivery_status_eq, DeliveryStatus}
use agent_relay.Protocol.Receipts.{LeaseAuthority, is_some}
use agent_relay.Protocol.Delivery.{State, Claim, is_timestamp, is_timestamp_before}
use agent_relay.Protocol.Snapshot.{Delivery, is_valid_delivery}
use agent_relay.Protocol.Delivery.Claims.{Matches}
use agent_relay.Relay.Ledger.Row.{Row, printed, delivery_from_row}
use agent_relay.Relay.Ledger.Rules.{has_passed, assert_lease_authority, parse_row}

-- `toISOString` prints a timestamp that is read back as the same date.
pub record Prints (texts : Texts) (to_iso : ℕ → String) : Type 0 where
  pub is_date : (date : ℕ) → texts.is_iso_timestamp (to_iso date) ≡ true
  pub reads_back : (date : ℕ) → texts.date_parse (to_iso date) ≡ some date

-- A lease's token is the last one given.
abbrev pub token_of : Option String → String → Option String
token_of none token = none
token_of (some lease_id) token = some token

unfoldable pub machine_state : (ℕ → String) → Row → State
machine_state to_iso r = record {
  status = r.status;
  attempt_count = r.attempt_count;
  max_attempts = r.max_attempts;
  last_fencing_token = r.last_fencing_token;
  active_lease_id = r.active_lease_id;
  active_fencing_token = token_of r.active_lease_id r.last_fencing_token;
  lease_expires_at = printed to_iso r.lease_expires_at;
  logically_settled = is_some r.settled_by_event_id;
}

-- The claim by which a Node presents its lease.
abbrev pub presented : (ℕ → String) → LeaseAuthority → ℕ → Claim
presented to_iso input now = record {
  lease_id = input.lease_id;
  fencing_token = input.fencing_token;
  now = to_iso now;
}

module _ (texts : Texts) (to_iso : ℕ → String) (prints : Prints texts to_iso) where
  pub printed_before :
      (a b : ℕ) → is_timestamp_before texts (some (to_iso a)) (some (to_iso b)) ≡ ltb a b
  unfolding is_timestamp_before is_timestamp
  printed_before a b =
      ground (arith, prints.is_date a, prints.is_date b, prints.reads_back a, prints.reads_back b)

  some_in-eq : (o : Option String) (x : String) → some_in o x ≡ true → o ≡ some x
  some_in-eq none x h = cc
  some_in-eq (some y) x h = grind (arith, beq→eq y x)

  unexpired :
      (expires_at : Option ℕ) (now : ℕ)
      → has_passed expires_at now ≡ false
      → is_timestamp_before texts (some (to_iso now)) (printed to_iso expires_at) ≡ true
  unexpired none now h = cc
  unexpired (some date) now h = printed_before now date ∙ ground arith

  -- A lease that the ledger takes is one that the machine takes.
  pub lease_authority-Matches :
      (r : Row) (input : LeaseAuthority) (now : ℕ) {u : Unit {0}}
      → assert_lease_authority r input now ≡ ok u
      → Matches (machine_state to_iso r) (presented to_iso input now)
        × (is_timestamp_before texts (some (to_iso now)) (printed to_iso r.lease_expires_at) ≡ true)
  unfolding assert_lease_authority machine_state
  lease_authority-Matches r input now h = ground (
    arith,
    some_in-eq r.active_lease_id input.lease_id,
    beq→eq r.last_fencing_token input.fencing_token,
    unexpired r.lease_expires_at now,
  )

  -- A row that the ledger shows is settled only where it is acknowledged or cancelled.
  pub parse_row-unsettled :
      (r : Row) {d : Delivery}
      → parse_row texts to_iso r ≡ ok d
      → is_some r.settled_by_event_id == is_some r.settled_at ≡ true
      → r.status ≢ acknowledged
      → r.status ≢ DeliveryStatus.cancelled
      → is_some r.settled_by_event_id ≡ false
  unfolding parse_row is_valid_delivery delivery_from_row
  parse_row-unsettled r h paired a b = ground arith
