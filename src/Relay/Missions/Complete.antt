-- ===== src/Relay/Missions/Complete.antt =====
-- relay/src/services/delivery-ledger.ts: `completeDelivery` for a new completion, from the assertion of
-- a runnable context on, and `cancelSupersededSiblings`.
use Prim.Native.String.{◌++◌ as concat}
use agent_relay.Prelude.{
  ℕ, suc, String, Bool, not, ◌&&◌, ◌||◌, Option, none, some, List, [], ◌∷◌, ◌++◌, ◌==◌, nat_eq,
  string_eq, some_in, any, if◌then◌else◌, Result, ok, err, ◌>>=◌, ◌>>◌, throw_if,
}
use agent_relay.Protocol.Schemas.{
  Texts, DeliveryStatus, stored, executing, acknowledged, delivery_status_eq,
}
use agent_relay.Protocol.Receipts.{Operation, is_some, is_active}
use agent_relay.Protocol.Snapshot.{Delivery}
use agent_relay.Protocol.Coordinator.Events.{Payload}
use agent_relay.Protocol.Coordinator.Apply.{Shapes}
use agent_relay.Relay.Errors.{Error, relay_error, internal, invalid_transition}
use agent_relay.Relay.Ledger.Row.{Row}
use agent_relay.Relay.Ledger.Rules.{
  Context, parse_row, has_passed, assert_runnable, assert_lease_authority,
}
use agent_relay.Relay.Ledger.Receipts.{ReceiptRow, relay, performed, cancel_input, delivery_output}
use agent_relay.Relay.Missions.Store.{Store}
use agent_relay.Relay.Missions.Reconcile.{token_of}
use agent_relay.Relay.Missions.Append.{AppendInput, append_result}
use agent_relay.Relay.Missions.Completion.{CompleteInput, build_completion_events}

-- The input of the append of one result.
abbrev pub append_input : CompleteInput → ℕ → ℕ → Payload → AppendInput
append_input input now index payload = record {
  actor_agent_id = input.agent_id;
  idempotency_key = input.event_keys index;
  payload = payload;
  authorization = record {
    status = executing;
    node_id = some input.node_id;
    lease_id = some input.authority.lease_id;
    fencing_token = some input.authority.fencing_token;
  };
  recorded_at = now;
  inserted_at = input.inserted_at;
  created_by_agent_id = input.created_by_agent_id;
  blocks = input.blocks;
  assignments = input.assignments;
  event_id = input.event_ids index;
  delivery_ids = input.delivery_ids index;
  next_cursor = input.next_cursors index;
}

-- The delivery to acknowledge is still leased to the Node, and the last result has settled it.
unfoldable pub is_published : Row → CompleteInput → String → ℕ → Row → Bool
is_published source input final_event_id now r =
    r.id == source.id
    && r.node_id == input.node_id
    && r.status == executing
    && some_in r.active_lease_id input.authority.lease_id
    && r.last_fencing_token == input.authority.fencing_token
    && some_in r.settled_by_event_id final_event_id
    && not (has_passed r.lease_expires_at now)

abbrev pub acknowledged_row : Row → ℕ → Row
acknowledged_row r now = record r {
  status = acknowledged;
  active_lease_id = none;
  lease_expires_at = none;
  acknowledged_at = some now;
  updated_at = now;
}

unfoldable pub acknowledge_rows : Row → CompleteInput → String → ℕ → List Row → List Row
acknowledge_rows source input final_event_id now [] = []
acknowledge_rows source input final_event_id now (r ∷ rows) =
    (if is_published source input final_event_id now r then acknowledged_row r now else r)
    ∷ acknowledge_rows source input final_event_id now rows

-- The siblings of `cancelSupersededSiblings`.
unfoldable pub is_superseded : Row → String → Row → Bool
is_superseded source event_id r =
    r.mission_id == source.mission_id
    && some_in r.settled_by_event_id event_id
    && not (r.id == source.id)
    && (r.status == stored || is_active r.status)

abbrev pub superseded_row : Row → ℕ → Row
superseded_row r now = record r {
  status = DeliveryStatus.cancelled;
  active_lease_id = none;
  lease_expires_at = none;
  cancelled_at = some now;
  cancellation_reason = some "work_superseded";
  updated_at = now;
}

abbrev pub superseded_receipt : Row → String → ℕ → Delivery → ReceiptRow
superseded_receipt r event_id now delivery = record {
  origin = relay;
  node_id = r.node_id;
  mission_id = r.mission_id;
  delivery_id = r.id;
  operation = performed Operation.cancel;
  idempotency_key = concat "cancel:" (concat r.id (concat ":" event_id));
  credential_id = none;
  attempt_count = r.attempt_count;
  lease_id = r.active_lease_id;
  fencing_token = token_of r.active_lease_id r.last_fencing_token;
  lease_expires_at = r.lease_expires_at;
  status_before = r.status;
  status_after = DeliveryStatus.cancelled;
  cancellation_reason = some "work_superseded";
  input = cancel_input "work_superseded" event_id;
  output = delivery_output delivery;
  recorded_at = now;
}

abbrev pub completed_store : Store → List Row × List ReceiptRow → Store
completed_store s rows = record s { deliveries = rows.0; receipts = s.receipts ++ rows.1 }

module _ (texts : Texts) (shapes : Shapes) (to_iso : ℕ → String) where
  -- `cancelSupersededSiblings`
  unfoldable pub cancel_siblings :
      Row → String → ℕ → List Row → Result Error (List Row × List ReceiptRow)
  cancel_siblings source event_id now [] = ok ([], [])
  cancel_siblings source event_id now (r ∷ rows) = do
    rest ← cancel_siblings source event_id now rows
    if is_superseded source event_id r
        then (do
          delivery ← parse_row texts to_iso (superseded_row r now)
          ok (superseded_row r now ∷ rest.0, superseded_receipt r event_id now delivery ∷ rest.1))
        else ok (r ∷ rest.0, rest.1)

  -- The loop over the results: the Mission that they leave, and the identifier of the last event.
  unfoldable pub publish :
      Store
      → CompleteInput
      → ℕ
      → ℕ
      → Option String
      → List Payload
      → Result Error (Store × Option String)
  publish s input now index last [] = ok (s, last)
  publish s input now index last (payload ∷ payloads) = do
    next ← append_result texts shapes to_iso s (append_input input now index payload)
    publish next input now (suc index) (some (input.event_ids index)) payloads

  -- The acknowledgement of the delivery, and the cancellation of its siblings.
  unfoldable pub acknowledge_source : Store → Row → CompleteInput → String → ℕ → Result Error Store
  acknowledge_source s source input final_event_id now = do
    throw_if (not (any (is_published source input final_event_id now) s.deliveries))
        (relay_error invalid_transition)
    rows ←
        cancel_siblings source final_event_id now
          (acknowledge_rows source input final_event_id now s.deliveries)
    ok (completed_store s rows)

  abbrev pub conclude_completion :
      Row → CompleteInput → ℕ → Store × Option String → Result Error Store
  conclude_completion source input now (s, none) = err (relay_error internal)
  conclude_completion source input now (s, some final_event_id) =
      acknowledge_source s source input final_event_id now

  -- `completeDelivery`; the context holds the delivery that the request has locked.
  unfoldable pub complete_delivery :
      (Payload → Bool) → Store → Context → CompleteInput → ℕ → Result Error Store
  complete_delivery has_append_shape s c input now = do
    assert_runnable c now
    throw_if (not (c.delivery.status == executing) || is_some c.delivery.settled_by_event_id)
        (relay_error invalid_transition)
    assert_lease_authority c.delivery input.authority now
    payloads ←
        build_completion_events shapes has_append_shape to_iso s.mission.state c.delivery input now
    published ← publish s input now 0 none payloads
    conclude_completion c.delivery input now published
