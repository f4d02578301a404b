-- ===== src/Relay/Missions/Append.antt =====
-- relay/src/services/mission-ledger.ts: `appendMissionEventInTransaction` for the result of a Node, which
-- is new: no event of the Mission has its key.
use Prim.Native.String.{◌++◌ as concat}
use agent_relay.Prelude.{
  ℕ, suc, ◌+◌, String, Bool, true, false, not, ◌&&◌, ◌||◌, Option, none, some, List, [], ◌∷◌, ◌++◌,
  ◌==◌, nat_eq, string_eq, option_beq, any, leb, if◌then◌else◌, Result, ok, err, ◌>>=◌, ◌>>◌,
  throw_if,
}
use agent_relay.Protocol.Schemas.{
  Texts, active, failed, mission_status_eq, DeliveryKind, turn, verification,
  contract_acknowledgement, stored, delivery_status_eq,
}
use agent_relay.Protocol.Receipts.{is_some}
use agent_relay.Protocol.Coordinator.Events.{Event, Payload}
use agent_relay.Protocol.Coordinator.State as Coordinator
use agent_relay.Protocol.Coordinator.State.{State}
use agent_relay.Protocol.Coordinator.Apply.{Shapes}
use agent_relay.Protocol.Coordinator.Reduce.{
  reduce_mission_coordinator_event, replay_mission_coordinator_events,
}
use agent_relay.Relay.Errors.{
  Error, relay_error, schema_error, internal, invalid_transition, not_authorized_transition,
}
use agent_relay.Relay.Ledger.Row.{Row, is_valid_row}
use agent_relay.Relay.Ledger.Guards.{assert_mission_trust}
use agent_relay.Relay.Missions.Store.{Store, state_eq}
use agent_relay.Relay.Missions.Reconcile.{lifted}
use agent_relay.Relay.Missions.Sources.{
  Assignment, Authorization, Source, source_of, same_kind, assert_source,
}
use agent_relay.Relay.Missions.Targets.{Target, derive_targets, should_settle_source}

-- The input of an append. The fresh ids, the next cursor and the database's `now()`, which a new row
-- gets, are arguments.
pub record AppendInput : Type 0 where
  pub actor_agent_id : String
  pub idempotency_key : String
  pub payload : Payload
  pub authorization : Authorization
  pub recorded_at : ℕ
  pub inserted_at : ℕ
  pub created_by_agent_id : String
  pub blocks : List (String × String)
  pub assignments : List Assignment
  pub event_id : String
  pub delivery_ids : ℕ → String
  pub next_cursor : ℕ

-- The rows that an event settles: its source, or all of a round that has failed.
abbrev pub settles : String → Source → Bool → Row → Bool
settles mission_id source whole_round r =
    r.mission_id == mission_id
    && not (is_some r.settled_by_event_id)
    && (if whole_round
        then same_kind r.kind verification
          && r.contract_version == source.contract_version
          && option_beq r.verification_round source.verification_round
        else r.id == source.delivery_id)

abbrev pub settled_row : Row → String → ℕ → Row
settled_row r event_id at = record r {
  settled_by_event_id = some event_id;
  settled_at = some at;
  updated_at = at;
}

unfoldable pub settle_rows : String → Source → Bool → String → ℕ → List Row → List Row
settle_rows mission_id source whole_round event_id at [] = []
settle_rows mission_id source whole_round event_id at (r ∷ rows) =
    (if settles mission_id source whole_round r then settled_row r event_id at else r)
    ∷ settle_rows mission_id source whole_round event_id at rows

abbrev pub is_verification : Payload → Bool
is_verification (Payload.verification_recorded v) = true
is_verification payload = false

-- The settlement of the source delivery.
unfoldable pub settle_source :
    String → List Row → Source → State → Event → ℕ → Result Error (List Row)
settle_source mission_id rows source next event at =
    if should_settle_source next event
    then (do
      let whole_round : Bool =
          is_verification event.payload && (next.status == active || next.status == failed)
      throw_if
          (not
            (any (λ r. settles mission_id source whole_round r && r.id == source.delivery_id) rows))
          (relay_error invalid_transition)
      ok (settle_rows mission_id source whole_round event.event_id at rows))
    else ok rows

-- `participantRows.find(…)`
unfoldable pub node_of : List Assignment → String → Option String
node_of [] agent_id = none
node_of (x ∷ xs) agent_id = if x.agent_id == agent_id then some x.node_id else node_of xs agent_id

-- The last delivery of the Mission to a Node, which causes the next.
unfoldable pub last_delivery : String → String → List Row → Option String
last_delivery mission_id node_id [] = none
last_delivery mission_id node_id (r ∷ rows) = latest (last_delivery mission_id node_id rows)
  where
    latest : Option String → Option String
    latest (some later) = some later
    latest none = if r.mission_id == mission_id && r.node_id == node_id then some r.id else none

abbrev kind_text : DeliveryKind → String
kind_text turn = "turn"
kind_text verification = "verification"
kind_text contract_acknowledgement = "contract_acknowledgement"

-- The row of a derived delivery, with the defaults of the table.
abbrev pub derived_row : String → Event → Target → String → Option String → String → ℕ → ℕ → Row
derived_row mission_id event target node_id parent id cursor now = record {
  id = id;
  node_id = node_id;
  mission_id = mission_id;
  mission_event_id = event.event_id;
  kind = target.kind;
  cursor = cursor;
  status = stored;
  attempt_count = 0;
  max_attempts = 5;
  last_fencing_token = "0";
  active_lease_id = none;
  lease_expires_at = none;
  contract_version = target.contract_version;
  verification_round = target.verification_round;
  idempotency_key =
      concat "event:"
        (concat event.event_id (concat ":" (concat (kind_text target.kind) (concat ":" node_id))));
  causal_parent_delivery_id = parent;
  settled_by_event_id = none;
  settled_at = none;
  available_at = now;
  acknowledged_at = none;
  cancelled_at = none;
  cancellation_reason = none;
  dead_lettered_at = none;
  created_at = now;
  updated_at = now;
}

-- One derived delivery, which the table checks, behind the rows before it.
unfoldable pub insert_target :
    String → AppendInput → Event → ℕ → Target → List Row → Result Error (List Row)
insert_target mission_id input event index target rows =
    elim (node_of input.assignments target.agent_id) [
      | none ↦ err (relay_error internal)
      | some node_id ↦ do
        let row : Row =
            derived_row mission_id event target node_id (last_delivery mission_id node_id rows)
              (input.delivery_ids index) (input.next_cursor + index) input.inserted_at
        throw_if (not (is_valid_row row)) schema_error
        ok (rows ++ (row ∷ []))
    ]

-- The loop over the targets.
unfoldable pub insert_targets :
    String → AppendInput → Event → ℕ → List Target → List Row → Result Error (List Row)
insert_targets mission_id input event index [] rows = ok rows
insert_targets mission_id input event index (target ∷ targets) rows = do
  more ← insert_target mission_id input event index target rows
  insert_targets mission_id input event (suc index) targets more

-- An error of the coordinator is an invalid transition; the others go through.
abbrev pub reduced {ℓ} : {A : Type ℓ} → Result Coordinator.Error A → Result Error A
reduced (ok a) = ok a
reduced (err (Coordinator.invalid_event reason)) = err (relay_error invalid_transition)
reduced (err fault) = err schema_error

-- The event of a result.
abbrev pub new_event : (ℕ → String) → Store → AppendInput → State → Event
new_event to_iso s input current = record {
  event_id = input.event_id;
  idempotency_key = input.idempotency_key;
  mission_id = s.mission.id;
  sequence_no = current.sequence_no + 1;
  created_at = to_iso input.recorded_at;
  payload = input.payload;
}

-- The rows that an append writes.
abbrev pub appended_store : Store → State → Event → List Row → Store
appended_store s next event rows = record {
  mission = record s.mission {
    state = next;
    status = next.status;
    last_event_sequence = next.sequence_no;
    contract_version = next.contract_version;
  };
  events = s.events ++ (event ∷ []);
  deliveries = rows;
  receipts = s.receipts;
}

module _ (texts : Texts) (shapes : Shapes) (to_iso : ℕ → String) where
  -- The stored state, which the events of the Mission give again.
  unfoldable pub current_state : Store → Result Error State
  current_state s = do
    current ← lifted (replay_mission_coordinator_events texts shapes s.mission.config s.events)
    throw_if
        (not (current.sequence_no == s.mission.last_event_sequence)
          || not (current == s.mission.state))
        (relay_error internal)
    ok current

  -- The end of an append: the event, the settlement and the derived deliveries.
  unfoldable pub write_result : Store → AppendInput → Source → State → Event → Result Error Store
  write_result s input source current event = do
    next ← reduced (reduce_mission_coordinator_event shapes current event)
    settled ← settle_source s.mission.id s.deliveries source next event input.recorded_at
    targets ← derive_targets current next event
    rows ← insert_targets s.mission.id input event 0 targets settled
    ok (appended_store s next event rows)

  -- The result of a participant, once the Mission is known to be open.
  unfoldable pub append_from : Store → AppendInput → Source → Result Error Store
  append_from s input source = do
    throw_if (not (source.participant_agent_id == input.actor_agent_id))
        (relay_error not_authorized_transition)
    current ← current_state s
    assert_source s.mission.id s.deliveries input.assignments input.actor_agent_id source
        input.authorization
    write_result s input source current (new_event to_iso s input current)

  -- `appendMissionEventInTransaction`, from `recordedAt` on, where no acceptance is derived. The types
  -- leave out the end of a Mission as an input.
  unfoldable pub append_result : Store → AppendInput → Result Error Store
  append_result s input = do
    throw_if (leb s.mission.expires_at input.recorded_at) (relay_error invalid_transition)
    assert_mission_trust input.created_by_agent_id
        s.mission.config.mission_context.manifest.participants input.blocks
    elim (source_of input.payload) [
      | none ↦ err (relay_error not_authorized_transition)
      | some source ↦ append_from s input source
    ]
