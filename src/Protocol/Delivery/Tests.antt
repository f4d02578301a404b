-- ===== src/Protocol/Delivery/Tests.antt =====
-- Deliveries at concrete inputs. Times are decimal texts here.
use agent_relay.Prelude.{
  ◌≡◌, ◌≢◌, ◌↔◌, ◌≤◌, ◌+◌, refl, true, false, none, some, [], ◌∷◌, List, arith, ok, String,
}
use agent_relay.Prelude.Decimal.{of_decimal, to_decimal}
use agent_relay.Protocol.Schemas.{Texts, stored, dead_lettered, is_release_classification}
use agent_relay.Protocol.Delivery.{
  State, Event, Claim, transition_delivery_state, step, owned_step, check_claim, settle,
  assert_matching_claim, assert_active_claim, is_timestamp, is_timestamp_before,
}
use agent_relay.Protocol.Delivery.Claims.{IsAuthorised, after}
use agent_relay.Protocol.Delivery.Accepts.{transition_iff}
use agent_relay.Protocol.Delivery.Invariant.{IsValid, transition-IsValid}
use agent_relay.Protocol.Delivery.Runs.{
  run, run-fences_old_tokens, leases, run-attempts, run-after_final,
}
use agent_relay.Protocol.Receipts.{Operation}
use agent_relay.Protocol.Receipts.Machine.{IsRecorded, transition-status_pair}

abbrev texts : Texts
texts = record {
  is_uuid = λ s. true;
  is_iso_timestamp = λ s. true;
  date_parse = λ s. some (of_decimal s);
}

abbrev new_delivery : State
new_delivery = record {
  status = stored;
  attempt_count = 0;
  max_attempts = 2;
  last_fencing_token = "0";
  active_lease_id = none;
  active_fencing_token = none;
  lease_expires_at = none;
  logically_settled = false;
}

abbrev claim : String → String → String → Claim
claim id token now = record { lease_id = id; fencing_token = token; now = now }

abbrev first_claim : Claim
first_claim = claim "x" "1" "10"

abbrev first_lease : Event
first_lease = Event.lease first_claim "20"

abbrev held : State
held = after new_delivery first_lease

abbrev second_attempt : List Event
second_attempt = Event.release first_claim "transient" ∷ Event.lease (claim "y" "2" "30") "40" ∷ []

abbrev held_again : State
held_again =
    after (after held (Event.release first_claim "transient"))
      (Event.lease (claim "y" "2" "30") "40")

new_delivery-IsValid : IsValid new_delivery
unfolding to_decimal
new_delivery-IsValid = ground arith

held-IsValid : IsValid held
unfolding to_decimal
held-IsValid = ground arith

first_lease_ok : transition_delivery_state texts new_delivery first_lease ≡ ok held
unfolding transition_delivery_state step is_timestamp_before is_timestamp to_decimal of_decimal
first_lease_ok = refl

second_attempt_ok : run texts held second_attempt ≡ ok held_again
unfolding run transition_delivery_state step owned_step check_claim settle assert_active_claim
    assert_matching_claim is_timestamp_before is_timestamp to_decimal of_decimal
    is_release_classification
second_attempt_ok = refl

-- The second failure uses up the attempts.
exhausted :
    (transition_delivery_state texts held_again (Event.release (claim "y" "2" "31") "transient"))
    ≡ ok (after held_again (Event.release (claim "y" "2" "31") "transient"))
unfolding transition_delivery_state step owned_step check_claim settle assert_active_claim
    assert_matching_claim is_timestamp_before is_timestamp of_decimal is_release_classification
exhausted = refl

exhausted_status :
    (after held_again (Event.release (claim "y" "2" "31") "transient")).status ≡ dead_lettered
exhausted_status = refl

transition_iff_example :
    (transition_delivery_state texts new_delivery first_lease ≡ ok held)
    ↔ (IsAuthorised texts new_delivery first_lease × (held ≡ after new_delivery first_lease))
transition_iff_example = transition_iff texts new_delivery held first_lease

transition-IsValid_example : IsValid held
transition-IsValid_example =
    transition-IsValid texts new_delivery first_lease {t = held} new_delivery-IsValid first_lease_ok

run-fences_old_tokens_example :
    transition_delivery_state texts held_again (Event.start_execution first_claim) ≢ ok held
run-fences_old_tokens_example =
    run-fences_old_tokens texts held held_again second_attempt (Event.start_execution first_claim)
      first_claim held-IsValid second_attempt_ok (omega arith) refl refl held

run-attempts_example :
    (held_again.attempt_count ≡ leases second_attempt + held.attempt_count)
    × (held_again.attempt_count ≤ held.max_attempts)
run-attempts_example =
    run-attempts texts held second_attempt {t = held_again} held-IsValid second_attempt_ok

abbrev cancelled_delivery : State
cancelled_delivery = after held (Event.cancel "node_revoked" "12")

abbrev no_events : List Event
no_events = []

nothing_ok : run texts cancelled_delivery [] ≡ ok cancelled_delivery
unfolding run
nothing_ok = refl

run-after_final_example : (no_events ≡ []) × (cancelled_delivery ≡ cancelled_delivery)
run-after_final_example =
    run-after_final texts cancelled_delivery [] cancelled_delivery refl nothing_ok

transition-status_pair_example :
    IsRecorded
      (Event.release (claim "y" "2" "31") "transient")
      held_again.status
      dead_lettered
      (some (Operation.release, none))
transition-status_pair_example =
    transition-status_pair texts held_again (Event.release (claim "y" "2" "31") "transient")
      {t = after held_again (Event.release (claim "y" "2" "31") "transient")} exhausted
