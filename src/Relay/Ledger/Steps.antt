-- ===== src/Relay/Ledger/Steps.antt =====
-- relay/src/services/delivery-ledger.ts: starting, renewing and releasing are transitions of the
-- machine of protocol/src/state-machines.ts.
use agent_relay.Prelude.{
  ℕ, ◌+◌, ◌≡◌, ◌≢◌, sym, ◌∙◌, Bool-cases, ◌⊎◌, inl, inr, ap, refl, String, Bool, true, false, not,
  ◌&&◌, ◌||◌, Option, none, some, ltb, leb, arith, ok, ◌==◌, string_eq, bool_eq, if◌then◌else◌,
  >>=-eq-ok, throw_if-ok,
}
use agent_relay.Protocol.Schemas.{
  Texts, stored, dead_lettered, leased, acknowledged, delivery_status_eq, DeliveryStatus,
  is_release_classification,
}
use agent_relay.Protocol.Receipts.{Operation, LeaseAuthority, is_some, is_active}
use agent_relay.Protocol.Delivery.{State, Event, is_timestamp_before, transition_delivery_state}
use agent_relay.Protocol.Delivery.Claims.{Matches}
use agent_relay.Protocol.Receipts.Machine.{classification-cases}
use agent_relay.Protocol.Delivery.Accepts.{transition_iff}
use agent_relay.Protocol.Snapshot.{Delivery}
use agent_relay.Relay.Errors.{relay_error, invalid_transition}
use agent_relay.Relay.Ledger.Row.{Row, printed}
use agent_relay.Relay.Ledger.Rules.{
  Context, ReceiptInput, assert_active_status, assert_lease_authority, bounded_lease_expiry,
  operation_receipt, parse_row, retry_backoff_ms,
}
use agent_relay.Relay.Ledger.Operations.{
  NodeCredential, LeaseInput, ReleaseInput, Mutation, parse_result, conclude, start_delivery,
  renew_delivery, release_delivery, started_row, renewed_row, released_row, is_dead_letter,
  moves_backwards,
}
use agent_relay.Relay.Ledger.Machine.{
  Prints, machine_state, presented, lease_authority-Matches, printed_before, parse_row-unsettled,
}

-- The columns of a settlement are set together.
abbrev pub IsPaired : Row → Type 0
IsPaired r = is_some r.settled_by_event_id == is_some r.settled_at ≡ true

pub assert_active_status-ok :
    (r : Row) {u : Unit {0}} → assert_active_status r ≡ ok u → is_active r.status ≡ true
unfolding assert_active_status
assert_active_status-ok r h = ground arith

bounded_lease_expiry-later :
    (now mission_expires_at deadline : ℕ)
    → bounded_lease_expiry now mission_expires_at ≡ ok deadline
    → ltb now deadline ≡ true
unfolding bounded_lease_expiry
bounded_lease_expiry-later now mission_expires_at deadline h = ground arith

active-not_acknowledged :
    (status : DeliveryStatus) → is_active status ≡ true → status ≢ acknowledged
active-not_acknowledged status h = ground arith

active-not_cancelled :
    (status : DeliveryStatus) → is_active status ≡ true → status ≢ DeliveryStatus.cancelled
active-not_cancelled status h = ground arith

released-status :
    (dead_letter : Bool)
    → ((if dead_letter then dead_lettered else stored) ≢ acknowledged)
      × ((if dead_letter then dead_lettered else stored) ≢ DeliveryStatus.cancelled)
released-status true = (λ h. cc, λ h. cc)
released-status false = (λ h. cc, λ h. cc)

-- The classification that the machine sees: a retry that would fall behind the Mission's deadline
-- is given up, which the machine knows as a permanent failure.
abbrev pub effective : Bool → String → String
effective too_late classification =
    if classification == "transient" && too_late then "permanent" else classification

abbrev pub is_too_late : Context → ℕ → Bool
is_too_late c now = leb c.mission_expires_at (now + retry_backoff_ms c.delivery.attempt_count)

-- The state without its lease, given up or put back.
abbrev left_at : State → Bool → State
left_at s given_up = record s {
  status = if given_up then dead_lettered else stored;
  active_lease_id = none;
  active_fencing_token = none;
  lease_expires_at = none;
}

IsGivenUp : Bool → Bool → String → Type 0
IsGivenUp too_late exhausted class =
    (is_release_classification (effective too_late class) ≡ true)
    × ((exhausted
          || effective too_late class == "permanent"
          || effective too_late class == "policy_denied")
        ≡ (not (class == "transient") || exhausted || too_late))

effective-IsGivenUp :
    (too_late exhausted : Bool) (class : String)
    → is_release_classification class ≡ true
    → IsGivenUp too_late exhausted class
unfolding is_release_classification IsGivenUp
effective-IsGivenUp too_late exhausted class known = elim (classification-cases class known) [
  | inl transient ↦ rw transient (at_transient too_late exhausted)
  | inr (inl permanent) ↦ rw permanent (refl, ground arith)
  | inr (inr denied) ↦ rw denied (refl, ground arith)
]
  where
    at_transient : (late used : Bool) → IsGivenUp late used "transient"
    at_transient true true = (refl, refl)
    at_transient true false = (refl, refl)
    at_transient false true = (refl, refl)
    at_transient false false = (refl, refl)

module _ (texts : Texts) (to_iso : ℕ → String) (prints : Prints texts to_iso)
    (auth : NodeCredential) where
  -- What concluding an operation has checked.
  pub conclude-ok :
      (operation : Operation) (row : Row) (receipt_id : String) (input : ReceiptInput)
      {m : Mutation}
      → conclude texts to_iso auth operation row receipt_id input ≡ ok m
      → (delivery : Delivery) × (parse_row texts to_iso row ≡ ok delivery) × (m.row ≡ row)
  unfolding conclude parse_result
  conclude-ok operation row receipt_id input h =
      let (receipt, p, q) = >>=-eq-ok (operation_receipt texts to_iso receipt_id input) _ h in
      let (delivery, shown, rest) = >>=-eq-ok (parse_row texts to_iso row) _ q in
      (delivery, shown, ground arith)

  unsettled :
      (operation : Operation) (row : Row) (receipt_id : String) (input : ReceiptInput)
      {m : Mutation}
      → IsPaired row
      → row.status ≢ acknowledged
      → row.status ≢ DeliveryStatus.cancelled
      → conclude texts to_iso auth operation row receipt_id input ≡ ok m
      → (is_some row.settled_by_event_id ≡ false) × (m.row ≡ row)
  unsettled operation row receipt_id input paired a b h =
      let (delivery, shown, same) = conclude-ok operation row receipt_id input h in
      (parse_row-unsettled texts to_iso prints row shown paired a b, same)

  -- What a presented lease has checked, with the parts of the row that a settlement needs.
  abbrev pub IsHeld : Row → LeaseAuthority → ℕ → Type 0
  IsHeld r input now =
      Matches (machine_state to_iso r) (presented to_iso input now)
      × (is_some r.settled_by_event_id ≡ false)
      × (is_timestamp_before texts (some (to_iso now)) (printed to_iso r.lease_expires_at) ≡ true)

  pub start-ok :
      (c : Context) (input : LeaseInput) (receipt_id : String) (now : ℕ) {m : Mutation}
      → IsPaired c.delivery
      → start_delivery texts to_iso auth c input receipt_id now ≡ ok m
      → (c.delivery.status ≡ leased)
        × IsHeld c.delivery input.authority now
        × (m.row ≡ started_row c.delivery now)
  unfolding start_delivery
  start-ok c input receipt_id now paired h =
      let (is_leased, rest) =
        throw_if-ok (not (c.delivery.status == leased)) (relay_error invalid_transition) _ h in
      let (u, held, concluded) =
        >>=-eq-ok (assert_lease_authority c.delivery input.authority now) _ rest in
      let (unsettled_yet, same) =
        unsettled Operation.start (started_row c.delivery now) receipt_id _ paired (ground arith)
          (ground arith) concluded in
      let (matches, unexpired) =
        lease_authority-Matches texts to_iso prints c.delivery input.authority now held in
      (ground arith, (matches, unsettled_yet, unexpired), same)

  pub start-transition :
      (c : Context) (input : LeaseInput) (receipt_id : String) (now : ℕ) {m : Mutation}
      → IsPaired c.delivery
      → start_delivery texts to_iso auth c input receipt_id now ≡ ok m
      → transition_delivery_state texts
          (machine_state to_iso c.delivery)
          (Event.start_execution (presented to_iso input.authority now))
        ≡ ok (machine_state to_iso m.row)
  unfolding machine_state
  start-transition c input receipt_id now {m} paired h =
      let (is_leased, held, same) = start-ok c input receipt_id now paired h in
      (transition_iff texts (machine_state to_iso c.delivery) (machine_state to_iso m.row)
          (Event.start_execution (presented to_iso input.authority now))).1
        ((is_leased, held.0, held.1, held.2), ap (machine_state to_iso) same)

  later-or_same :
      (o : Option ℕ) (deadline : ℕ)
      → moves_backwards o deadline ≡ false
      → (o ≡ some deadline)
        ⊎ (is_timestamp_before texts (printed to_iso o) (some (to_iso deadline)) ≡ true)
  later-or_same none deadline h = cc
  later-or_same (some date) deadline h = elim (Bool-cases (ltb date deadline)) [
    | inl later ↦ inr (printed_before texts to_iso prints date deadline ∙ later)
    | inr not_later ↦ inl (ap some (ground arith))
  ]

  -- What a renewal has checked.
  pub renew-ok :
      (c : Context) (input : LeaseInput) (receipt_id : String) (now : ℕ) {m : Mutation}
      → IsPaired c.delivery
      → renew_delivery texts to_iso auth c input receipt_id now ≡ ok m
      → (deadline : ℕ) × (is_active c.delivery.status ≡ true)
        × IsHeld c.delivery input.authority now
        × (ltb now deadline ≡ true)
        × (moves_backwards c.delivery.lease_expires_at deadline ≡ false)
        × (m.row ≡ renewed_row c.delivery deadline now)
  unfolding renew_delivery
  renew-ok c input receipt_id now paired h =
      let (u, held, rest) = >>=-eq-ok (assert_active_status c.delivery) _ h in
      let (v, owned, rest) =
        >>=-eq-ok (assert_lease_authority c.delivery input.authority now) _ rest in
      let (deadline, bounded, rest) =
        >>=-eq-ok (bounded_lease_expiry now c.mission_expires_at) _ rest in
      let (forwards, concluded) =
        throw_if-ok (moves_backwards c.delivery.lease_expires_at deadline)
          (relay_error invalid_transition) _ rest in
      let is_held = assert_active_status-ok c.delivery held in
      let (unsettled_yet, same) =
        unsettled Operation.renew (renewed_row c.delivery deadline now) receipt_id _ paired
          (active-not_acknowledged _ is_held) (active-not_cancelled _ is_held) concluded in
      let (matches, unexpired) =
        lease_authority-Matches texts to_iso prints c.delivery input.authority now owned in
      (
        deadline,
        is_held,
        (matches, unsettled_yet, unexpired),
        bounded_lease_expiry-later now c.mission_expires_at deadline bounded,
        forwards,
        same,
      )

  -- A renewal is a renewal of the machine, or leaves its state as it was where the deadline is the
  -- same: the Mission's.
  pub renew-transition :
      (c : Context) (input : LeaseInput) (receipt_id : String) (now : ℕ) {m : Mutation}
      → IsPaired c.delivery
      → renew_delivery texts to_iso auth c input receipt_id now ≡ ok m
      → (machine_state to_iso c.delivery ≡ machine_state to_iso m.row)
        ⊎ ((deadline : ℕ) × (transition_delivery_state texts
                (machine_state to_iso c.delivery)
                (Event.renew_lease (presented to_iso input.authority now) (to_iso deadline))
              ≡ ok (machine_state to_iso m.row)))
  unfolding machine_state
  renew-transition c input receipt_id now {m} paired h =
      let (deadline, active, (matches, unsettled_yet, unexpired), later, forwards, same) =
        renew-ok c input receipt_id now paired h in
      let renewal : Event =
        Event.renew_lease (presented to_iso input.authority now) (to_iso deadline) in
      elim (later-or_same c.delivery.lease_expires_at deadline forwards) [
        | inl kept ↦ inl cc
        | inr moved ↦ inr (
          deadline,
          (transition_iff texts (machine_state to_iso c.delivery) (machine_state to_iso m.row)
                renewal).1
              (
                (
                  active,
                  matches,
                  unsettled_yet,
                  unexpired,
                  printed_before texts to_iso prints now deadline ∙ later,
                  moved,
                ),
                ap (machine_state to_iso) same,
              ),
        )
      ]

  pub release-ok :
      (c : Context) (input : ReleaseInput) (receipt_id : String) (now : ℕ) {m : Mutation}
      → IsPaired c.delivery
      → release_delivery texts to_iso auth c input receipt_id now ≡ ok m
      → (is_active c.delivery.status ≡ true)
        × IsHeld c.delivery input.lease_input.authority now
        × (m.row ≡ released_row c.delivery (is_dead_letter c input.details now) now)
  unfolding release_delivery
  release-ok c input receipt_id now paired h =
      let (u, held, rest) = >>=-eq-ok (assert_active_status c.delivery) _ h in
      let (v, owned, concluded) =
        >>=-eq-ok (assert_lease_authority c.delivery input.lease_input.authority now) _ rest in
      let dead_letter : Bool = is_dead_letter c input.details now in
      let (unsettled_yet, same) =
        unsettled Operation.release (released_row c.delivery dead_letter now) receipt_id _ paired
          (released-status dead_letter).0 (released-status dead_letter).1 concluded in
      let (matches, unexpired) =
        lease_authority-Matches texts to_iso prints c.delivery input.lease_input.authority now
          owned in
      (assert_active_status-ok c.delivery held, (matches, unsettled_yet, unexpired), same)

  -- A release is one of the machine, of the classification that it sees.
  pub release-transition :
      (c : Context) (input : ReleaseInput) (receipt_id : String) (now : ℕ) {m : Mutation}
      → IsPaired c.delivery
      → is_release_classification input.details.classification ≡ true
      → release_delivery texts to_iso auth c input receipt_id now ≡ ok m
      → transition_delivery_state texts (machine_state to_iso c.delivery) (
          Event.release
            (presented to_iso input.lease_input.authority now)
            (effective (is_too_late c now) input.details.classification))
        ≡ ok (machine_state to_iso m.row)
  unfolding machine_state IsGivenUp
  release-transition c input receipt_id now {m} paired known h =
      let (active, (matches, unsettled_yet, unexpired), same) =
        release-ok c input receipt_id now paired h in
      let (allowed, given_up) =
        effective-IsGivenUp (is_too_late c now)
          (leb c.delivery.max_attempts c.delivery.attempt_count) input.details.classification
          known in
      let released : Event =
        Event.release (presented to_iso input.lease_input.authority now)
          (effective (is_too_late c now) input.details.classification) in
      (transition_iff texts (machine_state to_iso c.delivery) (machine_state to_iso m.row)
          released).1
        (
          (active, matches, unsettled_yet, unexpired, allowed),
          ap (machine_state to_iso) same
              ∙ ap (left_at (machine_state to_iso c.delivery)) (sym given_up),
        )
