-- ===== src/Relay/Ledger/ClaimRuns.antt =====
-- relay/src/services/delivery-ledger.ts: a claim is a run of the machine of
-- protocol/src/state-machines.ts.
use agent_relay.Prelude.{
  ℕ, ◌≡◌, refl, ◌⊎◌, inl, inr, String, true, false, Option, none, some, List, [], ◌∷◌, ltb, leb,
  arith, ok, string_eq, bool_eq, if◌then◌else◌, Bool-cases, Option-cases, &&-right,
}
use agent_relay.Protocol.Schemas.{Texts, delivery_status_eq}
use agent_relay.Protocol.Receipts.{is_active}
use agent_relay.Protocol.Delivery.{Event}
use agent_relay.Protocol.Delivery.Runs.{run}
use agent_relay.Relay.Ledger.Row.{
  Row, has_valid_lease, has_valid_end, is_valid_row, is_valid_row_iff,
}
use agent_relay.Relay.Ledger.Rules.{Context}
use agent_relay.Relay.Ledger.Operations.{NodeCredential}
use agent_relay.Relay.Ledger.Claim.{
  ClaimMutation, dead_letter_expired, give_lease, recover, claim_delivery,
}
use agent_relay.Relay.Ledger.Machine.{Prints, machine_state, presented}
use agent_relay.Relay.Ledger.Steps.{IsPaired}
use agent_relay.Relay.Ledger.Claiming.{
  deadline_of, next_claim, held_lease, give_lease-transition, dead_letter-run, recover-run,
}

pub is_valid_row-IsPaired : (r : Row) → is_valid_row r ≡ true → IsPaired r
unfolding has_valid_end
is_valid_row-IsPaired r h = &&-right _ _ ((is_valid_row_iff r).0 h).3

pub is_valid_row-held :
    (r : Row)
    → is_valid_row r ≡ true
    → is_active r.status ≡ true
    → (lease_id : String) × (date : ℕ) × (r.active_lease_id ≡ some lease_id)
      × (r.lease_expires_at ≡ some date)
unfolding has_valid_lease
is_valid_row-held r h held = elim (Option-cases r.active_lease_id) [
  | inl missing ↦ absurd (ground (arith, ((is_valid_row_iff r).0 h).2))
  | inr (lease_id, named) ↦ elim (Option-cases r.lease_expires_at) [
    | inl missing ↦ absurd (ground (arith, ((is_valid_row_iff r).0 h).2))
    | inr (date, expires) ↦ (lease_id, date, named, expires)
  ]
]

-- What the machine does in a claim.
abbrev pub claim_events : (ℕ → String) → Context → String → ℕ → List Event
claim_events to_iso c lease_id now =
    if is_active c.delivery.status then expiry c.delivery.active_lease_id else next ∷ []
  where
    next : Event
    next =
        Event.lease (next_claim to_iso c.delivery lease_id now)
          (to_iso (deadline_of now c.mission_expires_at))

    expiry : Option String → List Event
    expiry none = []
    expiry (some held) =
        Event.lease_expired (presented to_iso (held_lease c.delivery held) now)
        ∷ (if leb c.delivery.max_attempts c.delivery.attempt_count then [] else next ∷ [])

claim_events-held :
    (to_iso : ℕ → String) (c : Context) (held lease_id : String) (now : ℕ)
    → is_active c.delivery.status ≡ true
    → c.delivery.active_lease_id ≡ some held
    → claim_events to_iso c lease_id now ≡ (
        Event.lease_expired (presented to_iso (held_lease c.delivery held) now)
        ∷ (if leb c.delivery.max_attempts c.delivery.attempt_count
            then []
            else Event.lease
                (next_claim to_iso c.delivery lease_id now)
                (to_iso (deadline_of now c.mission_expires_at))
              ∷ []))
claim_events-held to_iso c held lease_id now a b = ground arith

module _ (texts : Texts) (to_iso : ℕ → String) (prints : Prints texts to_iso)
    (auth : NodeCredential) where
  pub claim_delivery-held :
      (c : Context) (key lease_id receipt_id : String) (date now : ℕ) {m : ClaimMutation}
      → is_active c.delivery.status ≡ true
      → c.delivery.lease_expires_at ≡ some date
      → claim_delivery texts to_iso auth c key lease_id receipt_id now ≡ ok m
      → (ltb now date ≡ false)
        × (((leb c.delivery.max_attempts c.delivery.attempt_count ≡ true)
              × (dead_letter_expired texts to_iso auth c.delivery key receipt_id now ≡ ok m))
            ⊎ ((leb c.delivery.max_attempts c.delivery.attempt_count ≡ false)
                × (recover texts to_iso auth c.delivery c.mission_expires_at key lease_id receipt_id
                      now
                    ≡ ok m)))
  unfolding claim_delivery
  claim_delivery-held c key lease_id receipt_id date now {m} held expires h =
      (ground arith, ground arith)

  pub claim_delivery-free :
      (c : Context) (key lease_id receipt_id : String) (now : ℕ) {m : ClaimMutation}
      → is_active c.delivery.status ≡ false
      → claim_delivery texts to_iso auth c key lease_id receipt_id now ≡ ok m
      → give_lease texts to_iso auth none c.delivery c.mission_expires_at key lease_id receipt_id
          now
        ≡ ok m
  unfolding claim_delivery
  claim_delivery-free c key lease_id receipt_id now {m} free h = ground arith

  -- A claim that is granted or gives up is a run of the machine: a lease; or the expiry of the lease
  -- before it and then, while attempts are left, a lease.
  pub claim-run :
      (c : Context) (key lease_id receipt_id : String) (now : ℕ) {m : ClaimMutation}
      → is_valid_row c.delivery ≡ true
      → texts.is_uuid lease_id ≡ true
      → claim_delivery texts to_iso auth c key lease_id receipt_id now ≡ ok m
      → run texts (machine_state to_iso c.delivery) (claim_events to_iso c lease_id now)
        ≡ ok (machine_state to_iso m.row)
  unfolding run
  claim-run c key lease_id receipt_id now {m} valid is_id h =
      elim (Bool-cases (is_active c.delivery.status)) [
        | inl held ↦
            let (old, date, named, expires) = is_valid_row-held c.delivery valid held in
            let (passed, found) =
              claim_delivery-held c key lease_id receipt_id date now held expires h in
            elim found [
              | inl (used, dead) ↦ rw (claim_events-held to_iso c old lease_id now held named) (
                  rw used (
                    dead_letter-run texts to_iso prints auth c.delivery old date key receipt_id now
                      (is_valid_row-IsPaired c.delivery valid) held named expires passed used dead))
              | inr (left, recovered) ↦
                  rw (claim_events-held to_iso c old lease_id now held named) (
                    rw left (
                      recover-run texts to_iso prints auth c.delivery old date c.mission_expires_at
                        key lease_id receipt_id now is_id (is_valid_row-IsPaired c.delivery valid)
                        held named expires passed left recovered))
            ]
        | inr free ↦ rw free (
            rw
              (give_lease-transition texts to_iso prints auth none c.delivery c.mission_expires_at
                key lease_id receipt_id now is_id
                (claim_delivery-free c key lease_id receipt_id now free h))
              refl)
      ]
