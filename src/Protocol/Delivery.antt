-- ===== src/Protocol/Delivery.antt =====
-- protocol/src/state-machines.ts: the life of a delivery under leases and fencing tokens.
pub mod Claims
pub mod Accepts
pub mod Invariant
pub mod Runs
mod Tests
use agent_relay.Prelude.{
  ℕ, ◌+◌, String, Bool, true, false, not, ◌&&◌, ◌||◌, Option, none, some, ◌==◌, string_eq, leb,
  if◌then◌else◌, some_in, Result, ok, err, ◌>>=◌, ◌>>◌, throw_if,
}
use agent_relay.Prelude.Decimal.{to_decimal}
use agent_relay.Protocol.Schemas.{
  Texts, date_before, DeliveryStatus, stored, leased, executing, acknowledged, dead_lettered,
  delivery_status_eq, is_cancellation_reason, is_release_classification,
}

-- `DeliveryClaim`
pub record Claim : Type 0 where
  pub lease_id : String
  pub fencing_token : String
  pub now : String

-- `Partial<DeliveryClaim>`
pub record PartialClaim : Type 0 where
  pub lease_id : Option String
  pub fencing_token : Option String
  pub now : Option String

abbrev pub partial_claim : Claim → PartialClaim
partial_claim c = record {
  lease_id = some c.lease_id;
  fencing_token = some c.fencing_token;
  now = some c.now;
}

-- `DeliveryTransitionEvent`. The reason of a cancellation and the class of a release are texts,
-- since the code checks them at run time.
pub data Event : Type 0 where
  lease renew_lease : Claim → String → Event
  start_execution acknowledge lease_expired : Claim → Event
  release : Claim → String → Event
  cancel : String → String → Event

pub data EventType : Type 0 where
  lease renew_lease start_execution acknowledge release lease_expired cancel : EventType

abbrev pub event_type : Event → EventType
event_type (Event.lease c x) = EventType.lease
event_type (Event.renew_lease c x) = EventType.renew_lease
event_type (Event.start_execution c) = EventType.start_execution
event_type (Event.acknowledge c) = EventType.acknowledge
event_type (Event.release c x) = EventType.release
event_type (Event.lease_expired c) = EventType.lease_expired
event_type (Event.cancel reason now) = EventType.cancel

-- `DeliveryTransitionState`
pub record State : Type 0 where
  pub status : DeliveryStatus
  pub attempt_count : ℕ
  pub max_attempts : ℕ
  pub last_fencing_token : String
  pub active_lease_id : Option String
  pub active_fencing_token : Option String
  pub lease_expires_at : Option String
  pub logically_settled : Bool

pub data ClaimFault : Type 0 where
  inactive lease_mismatch expired invalid_time : ClaimFault

-- `InvalidTransitionError`, `InvalidFencingTokenError` and `InvalidLeaseClaimError`
pub data Error : Type 0 where
  invalid_transition : DeliveryStatus → EventType → Error
  invalid_fencing_token : DeliveryStatus → EventType → Option String → Option String → Error
  invalid_lease_claim : DeliveryStatus → EventType → ClaimFault → Error

-- `deliveryTransitions`
abbrev pub delivery_transitions : DeliveryStatus → EventType → Option DeliveryStatus
delivery_transitions stored EventType.lease = some leased
delivery_transitions stored EventType.cancel = some DeliveryStatus.cancelled
delivery_transitions leased EventType.renew_lease = some leased
delivery_transitions leased EventType.start_execution = some executing
delivery_transitions leased EventType.release = some stored
delivery_transitions leased EventType.lease_expired = some stored
delivery_transitions leased EventType.cancel = some DeliveryStatus.cancelled
delivery_transitions executing EventType.renew_lease = some executing
delivery_transitions executing EventType.acknowledge = some acknowledged
delivery_transitions executing EventType.release = some stored
delivery_transitions executing EventType.lease_expired = some stored
delivery_transitions executing EventType.cancel = some DeliveryStatus.cancelled
delivery_transitions _ _ = none

-- `isTimestamp`
unfoldable pub is_timestamp : Texts → Option String → Bool
is_timestamp texts none = false
is_timestamp texts (some value) = texts.is_iso_timestamp value

-- `isTimestampBefore`
unfoldable pub is_timestamp_before : Texts → Option String → Option String → Bool
unfolding is_timestamp
is_timestamp_before texts none right = false
is_timestamp_before texts (some left) none = false
is_timestamp_before texts (some left) (some right) =
    is_timestamp texts (some left)
    && is_timestamp texts (some right)
    && date_before texts left right

-- `received !== current`, where an absent value never matches
abbrev pub differs : Option String → Option String → Bool
differs none current = true
differs (some received) current = not (some_in current received)

-- `current.status === "leased" || current.status === "executing"`
abbrev pub is_active : DeliveryStatus → Bool
is_active status = status == leased || status == executing

-- `assertMatchingDeliveryClaim`
pub assert_matching_claim : Texts → State → PartialClaim → EventType → Result Error (Unit {0})
unfolding is_timestamp
assert_matching_claim texts s c type = do
  throw_if (not (is_active s.status)) (invalid_lease_claim s.status type inactive)
  throw_if (differs c.lease_id s.active_lease_id) (invalid_lease_claim s.status type lease_mismatch)
  throw_if (differs c.fencing_token s.active_fencing_token)
      (invalid_fencing_token s.status type s.active_fencing_token c.fencing_token)
  throw_if (not (is_timestamp texts c.now) || not (is_timestamp texts s.lease_expires_at))
      (invalid_lease_claim s.status type invalid_time)

-- `assertActiveDeliveryClaim`
pub assert_active_claim : Texts → State → PartialClaim → EventType → Result Error (Unit {0})
assert_active_claim texts s c type = do
  assert_matching_claim texts s c type
  throw_if (not (is_timestamp_before texts c.now s.lease_expires_at))
      (invalid_lease_claim s.status type expired)

abbrev is_acknowledge : Event → Bool
is_acknowledge (Event.acknowledge c) = true
is_acknowledge _ = false

abbrev is_lease_expired : Event → Bool
is_lease_expired (Event.lease_expired c) = true
is_lease_expired _ = false

-- The classification of a release, which the other events lack.
abbrev pub classification : Event → Option String
classification (Event.release c class) = some class
classification _ = none

-- `attemptsExhausted || terminalRelease`
abbrev pub is_final_attempt : State → Event → Bool
is_final_attempt s e =
    (is_release_or_expiry e && leb s.max_attempts s.attempt_count)
    || some_in (classification e) "permanent"
    || some_in (classification e) "policy_denied"
  where
    is_release_or_expiry : Event → Bool
    is_release_or_expiry (Event.release c class) = true
    is_release_or_expiry (Event.lease_expired c) = true
    is_release_or_expiry _ = false

abbrev is_known_class : Option String → Bool
is_known_class none = true
is_known_class (some class) = is_release_classification class

-- The part of `transitionDeliveryState` behind the check of the claim.
settle : Texts → State → DeliveryStatus → Event → Result Error State
settle texts s next (Event.renew_lease c expires_at) = do
  throw_if
      (not (is_timestamp_before texts (some c.now) (some expires_at))
        || not (is_timestamp texts s.lease_expires_at)
        || not (is_timestamp_before texts s.lease_expires_at (some expires_at)))
      (invalid_lease_claim s.status EventType.renew_lease invalid_time)
  ok (record s { lease_expires_at = some expires_at })
settle texts s next e = do
  throw_if (is_acknowledge e && not s.logically_settled)
      (invalid_transition s.status (event_type e))
  throw_if (not (is_known_class (classification e))) (invalid_transition s.status (event_type e))
  ok (record s {
    status = if is_final_attempt s e then dead_lettered else next;
    active_lease_id = if next == executing then s.active_lease_id else none;
    active_fencing_token = if next == executing then s.active_fencing_token else none;
    lease_expires_at = if next == executing then s.lease_expires_at else none;
  })

-- The check of the claim of an event that is no lease and no cancellation.
check_claim : Texts → State → Event → Claim → Result Error (Unit {0})
check_claim texts s e c =
    if is_active s.status
    then (if is_lease_expired e
        then (do
          assert_matching_claim texts s (partial_claim c) (event_type e)
          throw_if (is_timestamp_before texts (some c.now) s.lease_expires_at)
              (invalid_lease_claim s.status (event_type e) invalid_time))
        else assert_active_claim texts s (partial_claim c) (event_type e))
    else ok tt

owned_step : Texts → State → DeliveryStatus → Event → Claim → Result Error State
owned_step texts s next e c = do
  throw_if (s.logically_settled && not (is_acknowledge e))
      (invalid_transition s.status (event_type e))
  check_claim texts s e c
  settle texts s next e

step : Texts → State → DeliveryStatus → Event → Result Error State
step texts s next (Event.lease c expires_at) = do
  throw_if
      (s.logically_settled
        || leb s.max_attempts s.attempt_count
        || not (c.fencing_token == to_decimal (s.attempt_count + 1)))
      (invalid_transition s.status EventType.lease)
  throw_if (not (is_timestamp_before texts (some c.now) (some expires_at)))
      (invalid_lease_claim s.status EventType.lease invalid_time)
  throw_if (not (texts.is_uuid c.lease_id))
      (invalid_lease_claim s.status EventType.lease lease_mismatch)
  ok (record s {
    status = next;
    attempt_count = s.attempt_count + 1;
    last_fencing_token = c.fencing_token;
    active_lease_id = some c.lease_id;
    active_fencing_token = some c.fencing_token;
    lease_expires_at = some expires_at;
  })
step texts s next (Event.cancel reason now) = do
  throw_if (not (texts.is_iso_timestamp now) || not (is_cancellation_reason reason))
      (invalid_transition s.status EventType.cancel)
  ok (record s {
    status = next;
    active_lease_id = none;
    active_fencing_token = none;
    lease_expires_at = none;
  })
step texts s next (Event.renew_lease c x) = owned_step texts s next (Event.renew_lease c x) c
step texts s next (Event.start_execution c) = owned_step texts s next (Event.start_execution c) c
step texts s next (Event.acknowledge c) = owned_step texts s next (Event.acknowledge c) c
step texts s next (Event.release c x) = owned_step texts s next (Event.release c x) c
step texts s next (Event.lease_expired c) = owned_step texts s next (Event.lease_expired c) c

-- `transitionDeliveryState`
pub transition_delivery_state : Texts → State → Event → Result Error State
transition_delivery_state texts s e = elim (delivery_transitions s.status (event_type e)) [
  | none ↦ err (invalid_transition s.status (event_type e))
  | some next ↦ step texts s next e
]
