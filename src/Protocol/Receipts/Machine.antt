-- ===== src/Protocol/Receipts/Machine.antt =====
-- protocol/src/delivery-operations.ts: the receipts and the machine of protocol/src/state-machines.ts.
use agent_relay.Prelude.{
  inl, inr, ◌⊎◌, beq→eq, beq_refl, ◌≡◌, String, true, not, ◌&&◌, ◌||◌, Option, none, some, arith,
  ok, bool_eq, string_eq, nat_eq,
}
use agent_relay.Protocol.Schemas.{
  Texts, DeliveryStatus, stored, is_release_classification, delivery_status_eq,
}
use agent_relay.Protocol.Delivery.{State, Event, transition_delivery_state}
use agent_relay.Protocol.Delivery.Accepts.{transition_iff}
use agent_relay.Protocol.Receipts.{
  is_claim, is_release, is_cancel, Operation, ClaimOutcome, Release, Receipt, has_valid_status_pair,
  is_valid_receipt, is_some, is_active,
}

-- The operation by which a transition is recorded, from its event and the status that it leads to. A
-- lease that runs out is recorded by the claim that finds it, and only where no attempt is left.
abbrev pub operation_of : Event → DeliveryStatus → Option (Operation × Option ClaimOutcome)
operation_of (Event.lease c x) after = some (Operation.claim, some ClaimOutcome.claimed)
operation_of (Event.renew_lease c x) after = some (Operation.renew, none)
operation_of (Event.start_execution c) after = some (Operation.start, none)
operation_of (Event.acknowledge c) after = some (Operation.complete, none)
operation_of (Event.release c x) after = some (Operation.release, none)
operation_of (Event.cancel x y) after = some (Operation.cancel, none)
operation_of (Event.lease_expired c) DeliveryStatus.dead_lettered =
    some (Operation.claim, some ClaimOutcome.dead_lettered)
operation_of (Event.lease_expired c) after = none

-- What a release records.
abbrev pub release_of : Event → Option Release
release_of (Event.release c classification) =
    some (record { classification = classification; summary = "" })
release_of e = none

-- The statuses that an operation may be recorded with; what has no record leaves a stored delivery.
abbrev pub IsRecorded :
    Event → DeliveryStatus → DeliveryStatus → Option (Operation × Option ClaimOutcome) → Type 0
IsRecorded e before after none = after ≡ stored
IsRecorded e before after (some recorded) =
    has_valid_status_pair recorded.0 recorded.1 (release_of e) before after ≡ true

pub classification-cases :
    (x : String)
    → is_release_classification x ≡ true
    → (x ≡ "transient") ⊎ (x ≡ "permanent") ⊎ (x ≡ "policy_denied")
unfolding is_release_classification
classification-cases x h =
    ground (arith, beq→eq "transient" x, beq→eq "permanent" x, beq→eq "policy_denied" x)

-- Every transition that the machine accepts is recorded by an operation whose receipt may state that
-- pair of statuses, but for a lease that has run out and leaves an attempt: that puts the delivery
-- back to `stored`.
pub transition-status_pair :
    (texts : Texts) (s : State) (e : Event) {t : State}
    → transition_delivery_state texts s e ≡ ok t
    → IsRecorded e s.status t.status (operation_of e t.status)
unfolding has_valid_status_pair is_release_classification
transition-status_pair texts s (Event.lease c x) {t} h =
    ground (arith, (transition_iff texts s t (Event.lease c x)).0 h)
transition-status_pair texts s (Event.renew_lease c x) {t} h =
    ground (arith, (transition_iff texts s t (Event.renew_lease c x)).0 h)
transition-status_pair texts s (Event.start_execution c) {t} h =
    ground (arith, (transition_iff texts s t (Event.start_execution c)).0 h)
transition-status_pair texts s (Event.acknowledge c) {t} h =
    ground (arith, (transition_iff texts s t (Event.acknowledge c)).0 h)
transition-status_pair texts s (Event.release c x) {t} h =
    let made = (transition_iff texts s t (Event.release c x)).0 h in
    elim (classification-cases x (ground (arith, made))) [
      | inl transient ↦ ground (arith, made, transient, beq_refl x)
      | inr (inl permanent) ↦ ground (arith, made, permanent, beq_refl x)
      | inr (inr denied) ↦ ground (arith, made, denied, beq_refl x)
    ]
transition-status_pair texts s (Event.lease_expired c) {t} h =
    ground (arith, (transition_iff texts s t (Event.lease_expired c)).0 h)
transition-status_pair texts s (Event.cancel x y) {t} h =
    ground (arith, (transition_iff texts s t (Event.cancel x y)).0 h)

-- A valid receipt carries a lease, and its deadline, exactly where the delivery is active after the
-- operation, or was active before it and the operation is no claim: a claim that finds the attempts
-- used up carries none. It then says what only its operation says.
pub is_valid_receipt-lease :
    (texts : Texts) (r : Receipt)
    → is_valid_receipt texts r ≡ true
    → (is_some r.lease
        ≡ (is_active r.status_after || (is_active r.status_before && not (is_claim r.operation))))
      × (is_some r.lease_expires_at ≡ is_some r.lease)
      × (is_some r.claim_outcome ≡ is_claim r.operation)
      × (is_some r.release ≡ is_release r.operation)
      × (is_some r.cancellation_reason ≡ is_cancel r.operation)
unfolding is_valid_receipt has_valid_status_pair
is_valid_receipt-lease texts r h =
    (ground arith, ground arith, ground arith, ground arith, ground arith)
