-- ===== src/Relay/Missions/Reconcile.antt =====
-- relay/src/services/mission-reconciliation.ts: `reconcileMissionInTransaction`.
use Prim.Native.String.{◌++◌ as concat}
use agent_relay.Prelude.{
  ℕ, ◌+◌, String, Bool, true, false, not, ◌&&◌, ◌||◌, Option, none, some, List, [], ◌∷◌, ◌++◌, ◌==◌,
  string_eq, nat_eq, leb, if◌then◌else◌, Result, ok, err, ◌>>=◌, ◌>>◌, throw_if,
}
use agent_relay.Protocol.Schemas.{
  Texts, MissionStatus, active, verifying, mission_status_eq, stored, DeliveryStatus,
  delivery_status_eq,
}
use agent_relay.Protocol.Receipts.{Operation, is_some, is_active}
use agent_relay.Protocol.Snapshot.{Delivery}
use agent_relay.Protocol.Coordinator.Events.{
  Event, Payload, MissionTerminal, TerminalStatus, deadline_exceeded, delivery_dead_lettered,
}
use agent_relay.Protocol.Coordinator.State.{State}
use agent_relay.Protocol.Coordinator.Apply.{Shapes}
use agent_relay.Protocol.Coordinator.Reduce.{
  reduce_mission_coordinator_event, replay_mission_coordinator_events,
}
use agent_relay.Relay.Errors.{Error, relay_error, schema_error, internal}
use agent_relay.Relay.Ledger.Row.{Row}
use agent_relay.Relay.Ledger.Rules.{parse_row}
use agent_relay.Relay.Ledger.Receipts.{ReceiptRow, relay, performed, cancel_input, delivery_output}
use agent_relay.Relay.Missions.Store.{Store, state_eq}

-- `TerminalCause`
pub data TerminalCause : Type 0 where
  deadline : TerminalCause
  dead_letter : String → TerminalCause

-- `MissionReconciliationResult`
pub record ReconciliationResult : Type 0 where
  pub reconciled : Bool
  pub status : MissionStatus
  pub event : Option Event

abbrev pub is_unsettled : Row → Bool
is_unsettled r = not (is_some r.settled_by_event_id)

-- The first unsettled delivery of the Mission that is dead-lettered.
unfoldable pub first_dead_letter : String → List Row → Option String
first_dead_letter mission_id [] = none
first_dead_letter mission_id (r ∷ rows) =
    if r.mission_id == mission_id && r.status == DeliveryStatus.dead_lettered && is_unsettled r
    then some r.id
    else first_dead_letter mission_id rows

abbrev cause_of : Option String → Option TerminalCause
cause_of none = none
cause_of (some delivery_id) = some (dead_letter delivery_id)

-- `terminalCause`
unfoldable pub terminal_cause : Store → ℕ → Option TerminalCause
terminal_cause s now =
    if leb s.mission.expires_at now
    then some deadline
    else cause_of (first_dead_letter s.mission.id s.deliveries)

abbrev pub terminal_of : TerminalCause → MissionTerminal
terminal_of deadline = record {
  terminal_status = TerminalStatus.expired;
  reason = deadline_exceeded;
  triggering_delivery_id = none;
}
terminal_of (dead_letter id) = record {
  terminal_status = TerminalStatus.failed;
  reason = delivery_dead_lettered;
  triggering_delivery_id = some id;
}

-- `terminalIdempotencyKey`
abbrev pub terminal_key : TerminalCause → String
terminal_key deadline = "relay:mission-terminal:deadline"
terminal_key (dead_letter id) = concat "relay:mission-terminal:delivery:" id

abbrev pub cancellation_reason_of : TerminalCause → String
cancellation_reason_of deadline = "mission_expired"
cancellation_reason_of (dead_letter id) = "mission_failed"

-- The work that a terminal Mission cancels.
abbrev pub is_cancellable : String → Row → Bool
is_cancellable mission_id r =
    r.mission_id == mission_id && (r.status == stored || is_active r.status) && is_unsettled r

-- `value ?? other`
abbrev pub or_else {ℓ} : {A : Type ℓ} → Option A → A → A
or_else none other = other
or_else (some value) other = value

-- The update of a cancelled delivery.
abbrev pub cancelled_row : Row → String → String → ℕ → Row
cancelled_row r event_id reason now = record r {
  status = DeliveryStatus.cancelled;
  active_lease_id = none;
  lease_expires_at = none;
  settled_by_event_id = some (or_else r.settled_by_event_id event_id);
  settled_at = some (or_else r.settled_at now);
  cancelled_at = some now;
  cancellation_reason = some reason;
  updated_at = now;
}

abbrev pub token_of : Option String → String → Option String
token_of none token = none
token_of (some lease_id) token = some token

-- The receipt of a cancelled delivery.
abbrev pub cancel_receipt : String → Row → String → String → ℕ → Delivery → ReceiptRow
cancel_receipt mission_id r event_id reason now delivery = record {
  origin = relay;
  node_id = r.node_id;
  mission_id = mission_id;
  delivery_id = r.id;
  operation = performed Operation.cancel;
  idempotency_key = concat "relay:mission-terminal:" (concat mission_id (concat ":" r.id));
  credential_id = none;
  attempt_count = r.attempt_count;
  lease_id = r.active_lease_id;
  fencing_token = token_of r.active_lease_id r.last_fencing_token;
  lease_expires_at = r.lease_expires_at;
  status_before = r.status;
  status_after = DeliveryStatus.cancelled;
  cancellation_reason = some reason;
  input = cancel_input reason event_id;
  output = delivery_output delivery;
  recorded_at = now;
}

-- The last event, which causes the next
unfoldable pub event_of : (ℕ → String) → Store → State → TerminalCause → String → ℕ → Event
event_of to_iso s current cause event_id now = record {
  event_id = event_id;
  idempotency_key = terminal_key cause;
  mission_id = s.mission.id;
  sequence_no = current.sequence_no + 1;
  created_at = to_iso now;
  payload = Payload.mission_terminal (terminal_of cause);
}

-- What a function of the protocol package throws goes through.
abbrev pub lifted {ℓ κ} : {E : Type ℓ} {A : Type κ} → Result E A → Result Error A
lifted (err fault) = err schema_error
lifted (ok a) = ok a

-- The rows that the end of a Mission writes.
abbrev pub ended_store : Store → State → Event → List Row × List ReceiptRow → Store
ended_store s next event work = record {
  mission = record s.mission {
    state = next;
    status = next.status;
    last_event_sequence = next.sequence_no;
    contract_version = next.contract_version;
  };
  events = s.events ++ (event ∷ []);
  deliveries = work.0;
  receipts = work.1 ++ s.receipts;
}

abbrev pub ended_result : State → Event → ReconciliationResult
ended_result next event = record { reconciled = true; status = next.status; event = some event }

abbrev pub unchanged : Store → ReconciliationResult
unchanged s = record { reconciled = false; status = s.mission.status; event = none }

module _ (texts : Texts) (shapes : Shapes) (to_iso : ℕ → String) where
  -- The loop over the deliveries that are cancelled: the rows after it, and the receipts.
  unfoldable pub cancel_work :
      String → String → String → ℕ → List Row → Result Error (List Row × List ReceiptRow)
  cancel_work mission_id event_id reason now [] = ok ([], [])
  cancel_work mission_id event_id reason now (r ∷ rows) = do
    rest ← cancel_work mission_id event_id reason now rows
    if is_cancellable mission_id r
        then (do
          delivery ← parse_row texts to_iso (cancelled_row r event_id reason now)
          ok (
            cancelled_row r event_id reason now ∷ rest.0,
            cancel_receipt mission_id r event_id reason now delivery ∷ rest.1,
          ))
        else ok (r ∷ rest.0, rest.1)

  -- The end of the Mission by a cause; `event_id` is its `randomUUID()`.
  unfoldable pub terminate :
      Store → TerminalCause → String → ℕ → Result Error (Store × ReconciliationResult)
  terminate s cause event_id now = do
    current ← lifted (replay_mission_coordinator_events texts shapes s.mission.config s.events)
    throw_if
        (not (current.sequence_no == s.mission.last_event_sequence)
          || not (current == s.mission.state))
        (relay_error internal)
    let event : Event = event_of to_iso s current cause event_id now
    next ← lifted (reduce_mission_coordinator_event shapes current event)
    work ← cancel_work s.mission.id event_id (cancellation_reason_of cause) now s.deliveries
    ok (ended_store s next event work, ended_result next event)

  -- `reconcileMissionInTransaction`
  unfoldable pub reconcile : Store → String → ℕ → Result Error (Store × ReconciliationResult)
  reconcile s event_id now =
      if not (s.mission.status == active) && not (s.mission.status == verifying)
      then ok (s, unchanged s)
      else elim (terminal_cause s now) [
        | none ↦ ok (s, unchanged s)
        | some cause ↦ terminate s cause event_id now
      ]
