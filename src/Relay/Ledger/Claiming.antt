-- ===== src/Relay/Ledger/Claiming.antt =====
-- relay/src/services/delivery-ledger.ts: a claim is a run of the machine of
-- protocol/src/state-machines.ts.
use mathlib.Core.Path.{subst}
use agent_relay.Prelude.{
  ℕ, ◌+◌, ◌≡◌, sym, ◌∙◌, ap, refl, String, true, false, not, ◌||◌, Option, none, some, [], ◌∷◌, ltb,
  leb, arith, ok, ◌==◌, string_eq, bool_eq, >>=-eq-ok, throw_if-ok,
}
use agent_relay.Prelude.Decimal.{to_decimal}
use agent_relay.Protocol.Schemas.{Texts, stored, delivery_status_eq}
use agent_relay.Protocol.Receipts.{ClaimOutcome, LeaseAuthority, is_some, is_active}
use agent_relay.Protocol.Delivery.{Claim, Event, is_timestamp, transition_delivery_state}
use agent_relay.Protocol.Delivery.Claims.{after}
use agent_relay.Protocol.Delivery.Accepts.{transition_iff}
use agent_relay.Protocol.Delivery.Runs.{run}
use agent_relay.Protocol.Snapshot.{Delivery}
use agent_relay.Relay.Errors.{relay_error, invalid_transition, state_changed, internal}
use agent_relay.Relay.Ledger.Row.{Row}
use agent_relay.Relay.Ledger.Rules.{
  ReceiptInput, bounded_lease_expiry, operation_receipt, parse_row, min, lease_duration_ms,
}
use agent_relay.Relay.Ledger.Operations.{NodeCredential}
use agent_relay.Relay.Ledger.Receipts.{ReceiptRow}
use agent_relay.Relay.Ledger.Claim.{
  ClaimMutation, claimed_row, expired_row, dead_row, parse_claim_result, conclude_claim,
  dead_letter_expired, expire_held, expire_lease, give_lease, recover,
}
use agent_relay.Relay.Ledger.Machine.{
  Prints, machine_state, presented, token_of, printed_before, parse_row-unsettled,
}
use agent_relay.Relay.Ledger.Steps.{IsPaired}

-- The deadline of a lease given now.
abbrev pub deadline_of : ℕ → ℕ → ℕ
deadline_of now mission_expires_at = min (now + lease_duration_ms) mission_expires_at

-- The claim by which the machine gives a delivery its next lease.
abbrev pub next_claim : (ℕ → String) → Row → String → ℕ → Claim
next_claim to_iso r lease_id now = record {
  lease_id = lease_id;
  fencing_token = to_decimal (r.attempt_count + 1);
  now = to_iso now;
}

-- The lease of a row that has run out.
abbrev pub held_lease : Row → String → LeaseAuthority
held_lease r lease_id = record { lease_id = lease_id; fencing_token = r.last_fencing_token }

pub bounded_lease_expiry-ok :
    (now mission_expires_at deadline : ℕ)
    → bounded_lease_expiry now mission_expires_at ≡ ok deadline
    → (deadline ≡ deadline_of now mission_expires_at) × (ltb now deadline ≡ true)
unfolding bounded_lease_expiry
bounded_lease_expiry-ok now mission_expires_at deadline h = (ground arith, ground arith)

module _ (texts : Texts) (to_iso : ℕ → String) (prints : Prints texts to_iso)
    (auth : NodeCredential) where
  pub conclude_claim-ok :
      (outcome : ClaimOutcome) (recovered : Option ReceiptRow) (row : Row) (receipt_id : String)
      (input : ReceiptInput) {m : ClaimMutation}
      → conclude_claim texts to_iso auth outcome recovered row receipt_id input ≡ ok m
      → (delivery : Delivery) × (parse_row texts to_iso row ≡ ok delivery)
        × (m.row ≡ row)
        × (m.recovered ≡ recovered)
  unfolding conclude_claim parse_claim_result
  conclude_claim-ok outcome recovered row receipt_id input h =
      let (receipt, p, q) = >>=-eq-ok (operation_receipt texts to_iso receipt_id input) _ h in
      let (delivery, shown, rest) = >>=-eq-ok (parse_row texts to_iso row) _ q in
      (delivery, shown, ground arith, ground arith)

  -- What the part of a claim that gives a lease has checked.
  pub give_lease-ok :
      (recovered : Option ReceiptRow) (r : Row) (mission_expires_at : ℕ)
      (key lease_id receipt_id : String) (now : ℕ) {m : ClaimMutation}
      → give_lease texts to_iso auth recovered r mission_expires_at key lease_id receipt_id now
        ≡ ok m
      → (r.status ≡ stored)
        × (is_some r.settled_by_event_id ≡ false)
        × (leb r.max_attempts r.attempt_count ≡ false)
        × (ltb now (deadline_of now mission_expires_at) ≡ true)
        × (m.row ≡ claimed_row r lease_id (deadline_of now mission_expires_at) now)
  unfolding give_lease
  give_lease-ok recovered r mission_expires_at key lease_id receipt_id now h =
      let (is_available, rest) =
        throw_if-ok
          (not (r.status == stored)
            || is_some r.settled_by_event_id
            || leb r.max_attempts r.attempt_count)
          (relay_error invalid_transition) _ h in
      let (is_due, rest) =
        throw_if-ok (ltb now r.available_at) (relay_error state_changed) _ rest in
      let (deadline, bounded, concluded) =
        >>=-eq-ok (bounded_lease_expiry now mission_expires_at) _ rest in
      let (delivery, shown, same, kept) =
        conclude_claim-ok ClaimOutcome.claimed recovered (claimed_row r lease_id deadline now)
          receipt_id _ concluded in
      let (is_bound, later) = bounded_lease_expiry-ok now mission_expires_at deadline bounded in
      (
        ground arith,
        ground arith,
        ground arith,
        rw (sym is_bound) later,
        same ∙ ap (λ date. claimed_row r lease_id date now) is_bound,
      )

  -- Giving a lease is a lease of the machine.
  pub give_lease-transition :
      (recovered : Option ReceiptRow) (r : Row) (mission_expires_at : ℕ)
      (key lease_id receipt_id : String) (now : ℕ) {m : ClaimMutation}
      → texts.is_uuid lease_id ≡ true
      → give_lease texts to_iso auth recovered r mission_expires_at key lease_id receipt_id now
        ≡ ok m
      → transition_delivery_state texts (machine_state to_iso r) (
          Event.lease
            (next_claim to_iso r lease_id now)
            (to_iso (deadline_of now mission_expires_at)))
        ≡ ok (machine_state to_iso m.row)
  unfolding machine_state
  give_lease-transition recovered r mission_expires_at key lease_id receipt_id now {m} is_id h =
      let (is_stored, unsettled, attempts, later, same) =
        give_lease-ok recovered r mission_expires_at key lease_id receipt_id now h in
      (transition_iff texts (machine_state to_iso r) (machine_state to_iso m.row) (
          Event.lease (next_claim to_iso r lease_id now)
            (to_iso (deadline_of now mission_expires_at)))).1
        (
          (
            is_stored,
            unsettled,
            ground arith,
            refl,
            printed_before texts to_iso prints now (deadline_of now mission_expires_at) ∙ later,
            is_id,
          ),
          ap (machine_state to_iso) same,
        )

  IsRunOut : Row → String → ℕ → ℕ → Type 0
  IsRunOut r lease_id date now =
      (is_active r.status ≡ true)
      × (r.active_lease_id ≡ some lease_id)
      × (is_some r.settled_by_event_id ≡ false)
      × (r.lease_expires_at ≡ some date)
      × (ltb now date ≡ false)

  -- A lease that has run out is one that the machine lets expire.
  lease_expired-transition :
      (r : Row) (lease_id : String) (date now : ℕ)
      → IsRunOut r lease_id date now
      → transition_delivery_state texts
          (machine_state to_iso r)
          (Event.lease_expired (presented to_iso (held_lease r lease_id) now))
        ≡ ok (
            after
              (machine_state to_iso r)
              (Event.lease_expired (presented to_iso (held_lease r lease_id) now)))
  unfolding machine_state IsRunOut is_timestamp
  lease_expired-transition r lease_id date now (held, same, unsettled, expires, passed) =
      let expired : Event = Event.lease_expired (presented to_iso (held_lease r lease_id) now) in
      (transition_iff texts (machine_state to_iso r) (after (machine_state to_iso r) expired)
          expired).1
        (
          (
            held,
            record {
              lease_matches = same;
              token_matches = ap (λ o. token_of o r.last_fencing_token) same;
            },
            unsettled,
            prints.is_date now,
            rw expires (prints.is_date date),
            rw expires (printed_before texts to_iso prints now date ∙ passed),
          ),
          refl,
        )

  pub dead_letter_expired-ok :
      (r : Row) (key receipt_id : String) (now : ℕ) {m : ClaimMutation}
      → dead_letter_expired texts to_iso auth r key receipt_id now ≡ ok m
      → IsPaired r
      → (is_some r.settled_by_event_id ≡ false) × (m.row ≡ dead_row r now)
  unfolding dead_letter_expired
  dead_letter_expired-ok r key receipt_id now h paired =
      let (held, concluded) = throw_if-ok (not (is_active r.status)) (relay_error internal) _ h in
      let (delivery, shown, same, kept) =
        conclude_claim-ok ClaimOutcome.dead_lettered none (dead_row r now) receipt_id _ concluded in
      (
        parse_row-unsettled texts to_iso prints (dead_row r now) shown paired (λ p. cc) (λ p. cc),
        same,
      )

  pub expire_lease-ok :
      (r : Row) (lease_id : String) (now : ℕ) {out : Row × ReceiptRow}
      → r.active_lease_id ≡ some lease_id
      → IsPaired r
      → expire_lease texts to_iso auth r now ≡ ok out
      → (is_some r.settled_by_event_id ≡ false) × (out.0 ≡ expired_row r now)
  unfolding expire_lease expire_held
  expire_lease-ok r lease_id now {out} named paired h =
      let run_out : expire_held texts to_iso auth r lease_id now ≡ ok out = ground arith in
      let (held, rest) =
        throw_if-ok (not (is_active r.status) || not (is_some r.lease_expires_at))
          (relay_error internal) _ run_out in
      let (delivery, shown, same) = >>=-eq-ok (parse_row texts to_iso (expired_row r now)) _ rest in
      (
        parse_row-unsettled texts to_iso prints (expired_row r now) shown paired (λ p. cc)
            (λ p. cc),
        cc,
      )

  -- The end of a held lease whose attempts are used up is that of the machine.
  pub dead_letter-run :
      (r : Row) (lease_id : String) (date : ℕ) (key receipt_id : String) (now : ℕ)
      {m : ClaimMutation}
      → IsPaired r
      → is_active r.status ≡ true
      → r.active_lease_id ≡ some lease_id
      → r.lease_expires_at ≡ some date
      → ltb now date ≡ false
      → leb r.max_attempts r.attempt_count ≡ true
      → dead_letter_expired texts to_iso auth r key receipt_id now ≡ ok m
      → run texts
          (machine_state to_iso r)
          (Event.lease_expired (presented to_iso (held_lease r lease_id) now) ∷ [])
        ≡ ok (machine_state to_iso m.row)
  unfolding run IsRunOut machine_state
  dead_letter-run r lease_id date key receipt_id now {m} paired held named expires passed used h =
      let (unsettled, same) = dead_letter_expired-ok r key receipt_id now h paired in
      rw (lease_expired-transition r lease_id date now (held, named, unsettled, expires, passed))
        (ap ok (rw used (sym (ap (machine_state to_iso) same))))

  -- A lease that has run out and the one that follows it.
  pub recover-run :
      (r : Row) (lease_id : String) (date mission_expires_at : ℕ) (key next_id receipt_id : String)
      (now : ℕ) {m : ClaimMutation}
      → texts.is_uuid next_id ≡ true
      → IsPaired r
      → is_active r.status ≡ true
      → r.active_lease_id ≡ some lease_id
      → r.lease_expires_at ≡ some date
      → ltb now date ≡ false
      → leb r.max_attempts r.attempt_count ≡ false
      → recover texts to_iso auth r mission_expires_at key next_id receipt_id now ≡ ok m
      → run texts (machine_state to_iso r) (
          Event.lease_expired (presented to_iso (held_lease r lease_id) now)
          ∷ Event.lease
              (next_claim to_iso r next_id now)
              (to_iso (deadline_of now mission_expires_at))
          ∷ [])
        ≡ ok (machine_state to_iso m.row)
  unfolding run IsRunOut recover machine_state
  recover-run r lease_id date mission_expires_at key next_id receipt_id now {m} is_id paired held
        named expires passed left h =
      let (out, expired, rest) = >>=-eq-ok (expire_lease texts to_iso auth r now) _ h in
      let (unsettled, same) = expire_lease-ok r lease_id now named paired expired in
      let given : transition_delivery_state texts (machine_state to_iso (expired_row r now)) (
            Event.lease (next_claim to_iso (expired_row r now) next_id now)
              (to_iso (deadline_of now mission_expires_at)))
          ≡ ok (machine_state to_iso m.row) =
        give_lease-transition (some out.1) (expired_row r now) mission_expires_at key next_id
          receipt_id now is_id
          (subst
            (λ row.
              give_lease texts to_iso auth (some out.1) row mission_expires_at key next_id
                receipt_id now
              ≡ ok m)
            same rest) in
      rw (lease_expired-transition r lease_id date now (held, named, unsettled, expires, passed))
        (rw left (rw given refl))
