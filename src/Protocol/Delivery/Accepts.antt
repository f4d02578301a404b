-- ===== src/Protocol/Delivery/Accepts.antt =====
-- `transitionDeliveryState` against its declarative description (protocol/src/state-machines.ts).
use agent_relay.Prelude.{◌+◌, ◌≡◌, ◌↔◌, some, arith, string_eq, ok, beq→eq, beq_refl}
use agent_relay.Prelude.Decimal.{to_decimal}
use agent_relay.Protocol.Schemas.{Texts}
use agent_relay.Protocol.Delivery.{
  State, Event, EventType, check_claim, settle, owned_step, step, transition_delivery_state,
}
use agent_relay.Protocol.Delivery.Claims.{
  IsAuthorised, after, assert_matching_claim-Matches, assert_active_claim-ok,
  assert_active_claim-accepts, assert_matching_claim-timestamps, assert_matching_claim-accepts,
  before-is_timestamp,
}

transition-IsAuthorised :
    (texts : Texts) (s : State) (e : Event) {t : State}
    → transition_delivery_state texts s e ≡ ok t
    → IsAuthorised texts s e
unfolding transition_delivery_state step owned_step settle check_claim
transition-IsAuthorised texts s (Event.lease c x) h =
    ground (arith, beq→eq c.fencing_token (to_decimal (s.attempt_count + 1)))
transition-IsAuthorised texts s (Event.renew_lease c x) h =
    ground (arith, assert_active_claim-ok texts s c EventType.renew_lease {r = tt})
transition-IsAuthorised texts s (Event.start_execution c) h =
    ground (arith, assert_active_claim-ok texts s c EventType.start_execution {r = tt})
transition-IsAuthorised texts s (Event.acknowledge c) h =
    ground (arith, assert_active_claim-ok texts s c EventType.acknowledge {r = tt})
transition-IsAuthorised texts s (Event.release c x) h =
    ground (arith, assert_active_claim-ok texts s c EventType.release {r = tt})
transition-IsAuthorised texts s (Event.lease_expired c) h = ground (
  arith,
  assert_matching_claim-Matches texts s c EventType.lease_expired {r = tt},
  assert_matching_claim-timestamps texts s c EventType.lease_expired {r = tt},
)
transition-IsAuthorised texts s (Event.cancel x y) h = ground arith

transition-after :
    (texts : Texts) (s : State) (e : Event) {t : State}
    → transition_delivery_state texts s e ≡ ok t
    → t ≡ after s e
unfolding transition_delivery_state step owned_step settle
transition-after texts s (Event.lease c x) h = ground arith
transition-after texts s (Event.renew_lease c x) h = ground arith
transition-after texts s (Event.start_execution c) h = ground arith
transition-after texts s (Event.acknowledge c) h = ground arith
transition-after texts s (Event.release c x) h = ground arith
transition-after texts s (Event.lease_expired c) h = ground arith
transition-after texts s (Event.cancel x y) h = ground arith

IsAuthorised-transition :
    (texts : Texts) (s : State) (e : Event)
    → IsAuthorised texts s e
    → transition_delivery_state texts s e ≡ ok (after s e)
unfolding transition_delivery_state step owned_step settle check_claim
IsAuthorised-transition texts s (Event.lease c x) h = ground (arith, beq_refl c.fencing_token)
IsAuthorised-transition texts s (Event.renew_lease c x) h = ground (
  arith,
  assert_active_claim-accepts texts s c EventType.renew_lease,
  before-is_timestamp texts s.lease_expires_at (some x),
)
IsAuthorised-transition texts s (Event.start_execution c) h =
    ground (arith, assert_active_claim-accepts texts s c EventType.start_execution)
IsAuthorised-transition texts s (Event.acknowledge c) h =
    ground (arith, assert_active_claim-accepts texts s c EventType.acknowledge)
IsAuthorised-transition texts s (Event.release c x) h =
    ground (arith, assert_active_claim-accepts texts s c EventType.release)
IsAuthorised-transition texts s (Event.lease_expired c) h =
    ground (arith, assert_matching_claim-accepts texts s c EventType.lease_expired)
IsAuthorised-transition texts s (Event.cancel x y) h = ground arith

-- A transition succeeds exactly when its event is authorised in the state: the status allows it, the
-- claim names the active lease and token, the times are in order, and the attempts are not used up;
-- and its result is then the described state and no other.
pub transition_iff :
    (texts : Texts) (s t : State) (e : Event)
    → (transition_delivery_state texts s e ≡ ok t) ↔ (IsAuthorised texts s e × (t ≡ after s e))
transition_iff texts s t e = (
  λ h. (transition-IsAuthorised texts s e h, transition-after texts s e h),
  λ (a, same). rw same (IsAuthorised-transition texts s e a),
)
