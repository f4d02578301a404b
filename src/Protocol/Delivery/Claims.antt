-- ===== src/Protocol/Delivery/Claims.antt =====
-- What an accepted transition of a delivery has checked, event by event
-- (protocol/src/state-machines.ts).
use agent_relay.Prelude.{
  ◌+◌, ◌<◌, ◌≡◌, String, true, false, ◌||◌, Option, none, some, arith, ◌==◌, string_eq,
  if◌then◌else◌, ok, beq→eq, beq_refl, leb, ◌⊎◌, >>=-eq-ok,
}
use agent_relay.Prelude.Decimal.{to_decimal}
use agent_relay.Protocol.Schemas.{
  Texts, DeliveryStatus, stored, leased, executing, acknowledged, dead_lettered, delivery_status_eq,
  is_cancellation_reason, is_release_classification,
}
use agent_relay.Protocol.Delivery.{
  State, Event, Claim, EventType, partial_claim, differs, is_active, is_timestamp,
  is_timestamp_before, assert_matching_claim, assert_active_claim,
}

-- The claim names the lease and the fencing token of the state.
pub record Matches (s : State) (c : Claim) : Type 0 where
  pub lease_matches : s.active_lease_id ≡ some c.lease_id
  pub token_matches : s.active_fencing_token ≡ some c.fencing_token

differs-some : (o : Option String) (x : String) → differs (some x) o ≡ false → o ≡ some x
differs-some none x h = cc
differs-some (some y) x h = grind (arith, beq→eq y x)

pub assert_matching_claim-Matches :
    (texts : Texts) (s : State) (c : Claim) (type : EventType) {r : Unit {0}}
    → assert_matching_claim texts s (partial_claim c) type ≡ ok r
    → Matches s c
unfolding assert_matching_claim is_timestamp
assert_matching_claim-Matches texts s c type h = ground (
  arith,
  differs-some s.active_lease_id c.lease_id,
  differs-some s.active_fencing_token c.fencing_token,
)

pub assert_active_claim-ok :
    (texts : Texts) (s : State) (c : Claim) (type : EventType) {r : Unit {0}}
    → assert_active_claim texts s (partial_claim c) type ≡ ok r
    → Matches s c × (is_timestamp_before texts (some c.now) s.lease_expires_at ≡ true)
unfolding assert_active_claim
assert_active_claim-ok texts s c type h =
    let (u, p, q) = >>=-eq-ok (assert_matching_claim texts s (partial_claim c) type) _ h in
    (assert_matching_claim-Matches texts s c type p, ground arith)

pub assert_matching_claim-timestamps :
    (texts : Texts) (s : State) (c : Claim) (type : EventType) {r : Unit {0}}
    → assert_matching_claim texts s (partial_claim c) type ≡ ok r
    → (texts.is_iso_timestamp c.now ≡ true) × (is_timestamp texts s.lease_expires_at ≡ true)
unfolding assert_matching_claim is_timestamp
assert_matching_claim-timestamps texts s c type h = ground arith

pub assert_matching_claim-accepts :
    (texts : Texts) (s : State) (c : Claim) (type : EventType)
    → is_active s.status ≡ true
    → Matches s c
    → texts.is_iso_timestamp c.now ≡ true
    → is_timestamp texts s.lease_expires_at ≡ true
    → assert_matching_claim texts s (partial_claim c) type ≡ ok tt
unfolding assert_matching_claim is_timestamp
assert_matching_claim-accepts texts s c type a m h k =
    ground (arith, beq_refl c.lease_id, beq_refl c.fencing_token)

pub before-is_timestamp :
    (texts : Texts) (left right : Option String)
    → is_timestamp_before texts left right ≡ true
    → is_timestamp texts left ≡ true
unfolding is_timestamp_before is_timestamp
before-is_timestamp texts left right h = ground arith

pub assert_active_claim-accepts :
    (texts : Texts) (s : State) (c : Claim) (type : EventType)
    → is_active s.status ≡ true
    → Matches s c
    → is_timestamp_before texts (some c.now) s.lease_expires_at ≡ true
    → assert_active_claim texts s (partial_claim c) type ≡ ok tt
unfolding assert_active_claim assert_matching_claim is_timestamp_before is_timestamp
assert_active_claim-accepts texts s c type a m h =
    ground (arith, beq_refl c.lease_id, beq_refl c.fencing_token)

-- What the machine demands of an event, read off the state.
abbrev pub IsAuthorised : Texts → State → Event → Type 0
IsAuthorised texts s (Event.lease c expires_at) =
    (s.status ≡ stored)
    × (s.logically_settled ≡ false)
    × (s.attempt_count < s.max_attempts)
    × (c.fencing_token ≡ to_decimal (s.attempt_count + 1))
    × (is_timestamp_before texts (some c.now) (some expires_at) ≡ true)
    × (texts.is_uuid c.lease_id ≡ true)
IsAuthorised texts s (Event.renew_lease c expires_at) =
    (is_active s.status ≡ true)
    × Matches s c
    × (s.logically_settled ≡ false)
    × (is_timestamp_before texts (some c.now) s.lease_expires_at ≡ true)
    × (is_timestamp_before texts (some c.now) (some expires_at) ≡ true)
    × (is_timestamp_before texts s.lease_expires_at (some expires_at) ≡ true)
IsAuthorised texts s (Event.start_execution c) =
    (s.status ≡ leased)
    × Matches s c
    × (s.logically_settled ≡ false)
    × (is_timestamp_before texts (some c.now) s.lease_expires_at ≡ true)
IsAuthorised texts s (Event.acknowledge c) =
    (s.status ≡ executing)
    × Matches s c
    × (s.logically_settled ≡ true)
    × (is_timestamp_before texts (some c.now) s.lease_expires_at ≡ true)
IsAuthorised texts s (Event.release c class) =
    (is_active s.status ≡ true)
    × Matches s c
    × (s.logically_settled ≡ false)
    × (is_timestamp_before texts (some c.now) s.lease_expires_at ≡ true)
    × (is_release_classification class ≡ true)
IsAuthorised texts s (Event.lease_expired c) =
    (is_active s.status ≡ true)
    × Matches s c
    × (s.logically_settled ≡ false)
    × (texts.is_iso_timestamp c.now ≡ true)
    × (is_timestamp texts s.lease_expires_at ≡ true)
    × (is_timestamp_before texts (some c.now) s.lease_expires_at ≡ false)
IsAuthorised texts s (Event.cancel reason now) =
    ((s.status ≡ stored) ⊎ (is_active s.status ≡ true))
    × (texts.is_iso_timestamp now ≡ true)
    × (is_cancellation_reason reason ≡ true)

-- The state without its lease, at a new status.
abbrev unleased : State → DeliveryStatus → State
unleased s status = record s {
  status = status;
  active_lease_id = none;
  active_fencing_token = none;
  lease_expires_at = none;
}

-- The state that an authorised event leads to.
abbrev pub after : State → Event → State
after s (Event.lease c expires_at) = record s {
  status = leased;
  attempt_count = s.attempt_count + 1;
  last_fencing_token = c.fencing_token;
  active_lease_id = some c.lease_id;
  active_fencing_token = some c.fencing_token;
  lease_expires_at = some expires_at;
}
after s (Event.renew_lease c expires_at) = record s { lease_expires_at = some expires_at }
after s (Event.start_execution c) = record s { status = executing }
after s (Event.acknowledge c) = unleased s acknowledged
after s (Event.release c class) = unleased s (
    if leb s.max_attempts s.attempt_count || class == "permanent" || class == "policy_denied"
    then dead_lettered
    else stored)
after s (Event.lease_expired c) =
    unleased s (if leb s.max_attempts s.attempt_count then dead_lettered else stored)
after s (Event.cancel reason now) = unleased s DeliveryStatus.cancelled
