-- ===== src/Protocol/Delivery/Invariant.antt =====
-- What holds of a delivery between two transitions (protocol/src/state-machines.ts).
use agent_relay.Prelude.{
  ◌+◌, ◌≤◌, ◌<◌, ◌≡◌, Bool, true, false, Option, none, some, arith, string_eq, if◌then◌else◌, ok,
  beq→eq,
}
use agent_relay.Prelude.Decimal.{to_decimal}
use agent_relay.Protocol.Schemas.{Texts, acknowledged, delivery_status_eq}
use agent_relay.Protocol.Delivery.{
  State, Event, is_active, owned_step, settle, step, transition_delivery_state,
}

abbrev pub is_some {ℓ} : {A : Type ℓ} → Option A → Bool
is_some none = false
is_some (some a) = true

pub record IsValid (s : State) : Type 0 where
  pub attempts_bounded : s.attempt_count ≤ s.max_attempts
  pub token_counts : s.last_fencing_token ≡ to_decimal s.attempt_count
  pub lease_held : is_some s.active_lease_id ≡ is_active s.status
  pub expiry_held : is_some s.lease_expires_at ≡ is_active s.status
  pub token_held :
      s.active_fencing_token ≡ (if is_active s.status then some s.last_fencing_token else none)
  pub attempted : is_active s.status ≡ true → 0 < s.attempt_count
  pub settled : s.status ≡ acknowledged → s.logically_settled ≡ true

-- An accepted transition keeps the invariant.
pub transition-IsValid :
    (texts : Texts) (s : State) (e : Event) {t : State}
    → IsValid s
    → transition_delivery_state texts s e ≡ ok t
    → IsValid t
unfolding transition_delivery_state step owned_step settle
transition-IsValid texts s (Event.lease c x) v h =
    grind (arith, beq→eq c.fencing_token (to_decimal (s.attempt_count + 1)))
transition-IsValid texts s (Event.renew_lease c x) v h = ground arith
transition-IsValid texts s (Event.start_execution c) v h = ground arith
transition-IsValid texts s (Event.acknowledge c) v h = ground arith
transition-IsValid texts s (Event.release c x) v h = ground arith
transition-IsValid texts s (Event.lease_expired c) v h = ground arith
transition-IsValid texts s (Event.cancel x y) v h = ground arith
