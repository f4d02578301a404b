-- ===== src/Relay/Missions/Acknowledged.antt =====
-- relay/src/services/delivery-ledger.ts: the rows that `completeDelivery` leaves.
use agent_relay.Prelude.{
  ℕ, ◌≡◌, refl, String, Bool, true, false, not, ◌&&◌, ◌||◌, List, [], ◌∷◌, arith, ◌==◌, string_eq,
  nat_eq, some_in, every, any,
}
use agent_relay.Protocol.Schemas.{
  executing, acknowledged, stored, leased, delivery_status_eq, is_cancellation_reason,
}
use agent_relay.Relay.Ledger.Row.{
  Row, has_valid_kind, has_valid_attempts, has_valid_lease, has_valid_end, is_valid_row,
  is_valid_row_iff,
}
use agent_relay.Relay.Missions.Completion.{CompleteInput}
use agent_relay.Relay.Missions.Complete.{
  is_published, acknowledged_row, acknowledge_rows, is_superseded, superseded_row,
}

-- The delivery is acknowledged, and an event has settled it.
unfoldable pub is_done : Row → String → Row → Bool
is_done source event_id r =
    r.id == source.id && r.status == acknowledged && some_in r.settled_by_event_id event_id

-- Another delivery that the event has settled is not left to do.
unfoldable pub is_over : Row → String → Row → Bool
is_over source event_id r =
    not (r.mission_id == source.mission_id)
    || not (some_in r.settled_by_event_id event_id)
    || r.id == source.id
    || not (r.status == stored || r.status == leased || r.status == executing)

pub acknowledged_row-is_valid_row :
    (source : Row) (input : CompleteInput) (event_id : String) (now : ℕ) (r : Row)
    → is_valid_row r ≡ true
    → is_published source input event_id now r ≡ true
    → is_valid_row (acknowledged_row r now) ≡ true
unfolding has_valid_kind has_valid_attempts has_valid_lease has_valid_end is_published
acknowledged_row-is_valid_row source input event_id now r h published =
    let (kind, attempts, lease, end) = (is_valid_row_iff r).0 h in
    (is_valid_row_iff (acknowledged_row r now)).1 (kind, attempts, ground arith, ground arith)

pub superseded_row-is_valid_row :
    (source : Row) (event_id : String) (now : ℕ) (r : Row)
    → is_valid_row r ≡ true
    → is_superseded source event_id r ≡ true
    → is_valid_row (superseded_row r now) ≡ true
unfolding has_valid_kind has_valid_attempts has_valid_lease has_valid_end is_superseded
    is_cancellation_reason
superseded_row-is_valid_row source event_id now r h work =
    let (kind, attempts, lease, end) = (is_valid_row_iff r).0 h in
    (is_valid_row_iff (superseded_row r now)).1 (kind, attempts, ground arith, ground arith)

pub acknowledged_row-is_done :
    (source : Row) (input : CompleteInput) (event_id : String) (now : ℕ) (r : Row)
    → is_published source input event_id now r ≡ true
    → is_done source event_id (acknowledged_row r now) ≡ true
unfolding is_published is_done
acknowledged_row-is_done source input event_id now r published = ground arith

pub superseded_row-is_over :
    (source : Row) (event_id : String) (now : ℕ) (r : Row)
    → is_over source event_id (superseded_row r now) ≡ true
unfolding is_over
superseded_row-is_over source event_id now r = ground arith

pub kept_row-is_over :
    (source : Row) (event_id : String) (r : Row)
    → is_superseded source event_id r ≡ false
    → is_over source event_id r ≡ true
unfolding is_superseded is_over
kept_row-is_over source event_id r kept = ground arith

pub superseded-is_done :
    (source : Row) (event_id : String) (r : Row)
    → is_superseded source event_id r ≡ true
    → is_done source event_id r ≡ false
unfolding is_superseded is_done
superseded-is_done source event_id r work = ground arith

pub acknowledge_rows-is_valid_row :
    (source : Row) (input : CompleteInput) (event_id : String) (now : ℕ) (rows : List Row)
    → every is_valid_row rows ≡ true
    → every is_valid_row (acknowledge_rows source input event_id now rows) ≡ true
unfolding acknowledge_rows
acknowledge_rows-is_valid_row source input event_id now [] valid = refl
acknowledge_rows-is_valid_row source input event_id now (r ∷ rows) valid = ground (
  arith,
  acknowledged_row-is_valid_row source input event_id now r (ground arith),
  acknowledge_rows-is_valid_row source input event_id now rows (ground arith),
)

pub acknowledge_rows-is_done :
    (source : Row) (input : CompleteInput) (event_id : String) (now : ℕ) (rows : List Row)
    → any (is_published source input event_id now) rows ≡ true
    → any (is_done source event_id) (acknowledge_rows source input event_id now rows) ≡ true
unfolding acknowledge_rows
acknowledge_rows-is_done source input event_id now [] found = ground arith
acknowledge_rows-is_done source input event_id now (r ∷ rows) found = ground (
  arith,
  acknowledged_row-is_done source input event_id now r,
  acknowledge_rows-is_done source input event_id now rows,
)
