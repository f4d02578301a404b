-- ===== src/Relay/Ledger/Kept.antt =====
-- relay/src/services/delivery-ledger.ts: every operation keeps the checks of the table.
use agent_relay.Prelude.{
  ℕ, ◌+◌, ◌≡◌, ◌∙◌, ap, sym, inl, inr, >>=-eq-ok, ok-inj, Bool-cases, String, Bool, true, false,
  Option, none, some, arith, ok, leb, string_eq, beq_refl,
}
use agent_relay.Prelude.Decimal.{to_decimal}
use agent_relay.Protocol.Schemas.{Texts, stored, leased, delivery_status_eq}
use agent_relay.Protocol.Receipts.{is_active}
use agent_relay.Relay.Ledger.Row.{
  Row, has_valid_kind, has_valid_attempts, has_valid_lease, has_valid_end, is_valid_row,
  is_valid_row_iff,
}
use agent_relay.Relay.Ledger.Rules.{Context}
use agent_relay.Relay.Ledger.Receipts.{ReceiptRow}
use agent_relay.Relay.Ledger.Operations.{
  NodeCredential, started_row, renewed_row, released_row, is_dead_letter, start_delivery,
  renew_delivery, release_delivery,
}
use agent_relay.Relay.Ledger.Claim.{
  ClaimMutation, claimed_row, expired_row, dead_row, expire_lease, give_lease, recover,
  claim_delivery,
}
use agent_relay.Relay.Ledger.Calls.{Call, perform}
use agent_relay.Relay.Ledger.Machine.{Prints}
use agent_relay.Relay.Ledger.Steps.{start-ok, renew-ok, release-ok}
use agent_relay.Relay.Ledger.Claiming.{
  deadline_of, give_lease-ok, expire_lease-ok, dead_letter_expired-ok,
}
use agent_relay.Relay.Ledger.ClaimRuns.{
  is_valid_row-IsPaired, is_valid_row-held, claim_delivery-held, claim_delivery-free,
}

started_row-is_valid_row :
    (r : Row) (now : ℕ)
    → is_valid_row r ≡ true
    → r.status ≡ leased
    → is_valid_row (started_row r now) ≡ true
unfolding has_valid_kind has_valid_attempts has_valid_lease has_valid_end
started_row-is_valid_row r now h held =
    let (kind, attempts, lease, end) = (is_valid_row_iff r).0 h in
    (is_valid_row_iff (started_row r now)).1 (kind, attempts, ground arith, ground arith)

renewed_row-is_valid_row :
    (r : Row) (date now : ℕ)
    → is_valid_row r ≡ true
    → is_active r.status ≡ true
    → is_valid_row (renewed_row r date now) ≡ true
unfolding has_valid_kind has_valid_attempts has_valid_lease has_valid_end
renewed_row-is_valid_row r date now h held =
    let (kind, attempts, lease, end) = (is_valid_row_iff r).0 h in
    (is_valid_row_iff (renewed_row r date now)).1 (kind, attempts, ground arith, end)

released_row-is_valid_row :
    (r : Row) (dead_letter : Bool) (now : ℕ)
    → is_valid_row r ≡ true
    → is_active r.status ≡ true
    → (leb r.max_attempts r.attempt_count ≡ true → dead_letter ≡ true)
    → is_valid_row (released_row r dead_letter now) ≡ true
unfolding has_valid_kind has_valid_attempts has_valid_lease has_valid_end
released_row-is_valid_row r true now h held final =
    let (kind, attempts, lease, end) = (is_valid_row_iff r).0 h in
    (is_valid_row_iff (released_row r true now)).1 (kind, attempts, ground arith, ground arith)
released_row-is_valid_row r false now h held final =
    let (kind, attempts, lease, end) = (is_valid_row_iff r).0 h in
    (is_valid_row_iff (released_row r false now)).1 (kind, attempts, ground arith, ground arith)

claimed_row-is_valid_row :
    (r : Row) (lease_id : String) (date now : ℕ)
    → is_valid_row r ≡ true
    → r.status ≡ stored
    → leb r.max_attempts r.attempt_count ≡ false
    → is_valid_row (claimed_row r lease_id date now) ≡ true
unfolding has_valid_kind has_valid_attempts has_valid_lease has_valid_end
claimed_row-is_valid_row r lease_id date now h waiting left =
    let (kind, attempts, lease, end) = (is_valid_row_iff r).0 h in
    (is_valid_row_iff (claimed_row r lease_id date now)).1 (
      kind,
      ground (arith, beq_refl (to_decimal (r.attempt_count + 1))),
      ground arith,
      ground arith,
    )

expired_row-is_valid_row :
    (r : Row) (now : ℕ)
    → is_valid_row r ≡ true
    → is_active r.status ≡ true
    → leb r.max_attempts r.attempt_count ≡ false
    → is_valid_row (expired_row r now) ≡ true
unfolding has_valid_kind has_valid_attempts has_valid_lease has_valid_end
expired_row-is_valid_row r now h held left =
    let (kind, attempts, lease, end) = (is_valid_row_iff r).0 h in
    (is_valid_row_iff (expired_row r now)).1 (kind, attempts, ground arith, ground arith)

dead_row-is_valid_row :
    (r : Row) (now : ℕ)
    → is_valid_row r ≡ true
    → is_active r.status ≡ true
    → is_valid_row (dead_row r now) ≡ true
unfolding has_valid_kind has_valid_attempts has_valid_lease has_valid_end
dead_row-is_valid_row r now h held =
    let (kind, attempts, lease, end) = (is_valid_row_iff r).0 h in
    (is_valid_row_iff (dead_row r now)).1 (kind, attempts, ground arith, ground arith)

module _ (texts : Texts) (to_iso : ℕ → String) (prints : Prints texts to_iso)
    (auth : NodeCredential) where
  give_lease-is_valid_row :
      (recovered : Option ReceiptRow) (r : Row) (mission_expires_at : ℕ)
      (key lease_id receipt_id : String) (now : ℕ) {m : ClaimMutation}
      → is_valid_row r ≡ true
      → give_lease texts to_iso auth recovered r mission_expires_at key lease_id receipt_id now
        ≡ ok m
      → is_valid_row m.row ≡ true
  give_lease-is_valid_row recovered r mission_expires_at key lease_id receipt_id now valid h =
      let (is_stored, unsettled, left, later, same) =
        give_lease-ok texts to_iso prints auth recovered r mission_expires_at key lease_id
          receipt_id now h in
      ap is_valid_row same
      ∙ claimed_row-is_valid_row r lease_id (deadline_of now mission_expires_at) now valid is_stored
          left

  recover-is_valid_row :
      (r : Row) (mission_expires_at : ℕ) (held key lease_id receipt_id : String) (now : ℕ)
      {m : ClaimMutation}
      → is_valid_row r ≡ true
      → is_active r.status ≡ true
      → r.active_lease_id ≡ some held
      → leb r.max_attempts r.attempt_count ≡ false
      → recover texts to_iso auth r mission_expires_at key lease_id receipt_id now ≡ ok m
      → is_valid_row m.row ≡ true
  unfolding recover
  recover-is_valid_row r mission_expires_at held key lease_id receipt_id now valid active named left
        h =
      let (out, expired, rest) = >>=-eq-ok (expire_lease texts to_iso auth r now) _ h in
      let (unsettled, same) =
        expire_lease-ok texts to_iso prints auth r held now named (is_valid_row-IsPaired r valid)
          expired in
      give_lease-is_valid_row (some out.1) out.0 mission_expires_at key lease_id receipt_id now
        (ap is_valid_row same ∙ expired_row-is_valid_row r now valid active left) rest

  claim-is_valid_row :
      (c : Context) (key lease_id receipt_id : String) (now : ℕ) {m : ClaimMutation}
      → is_valid_row c.delivery ≡ true
      → claim_delivery texts to_iso auth c key lease_id receipt_id now ≡ ok m
      → is_valid_row m.row ≡ true
  claim-is_valid_row c key lease_id receipt_id now {m} valid h =
      elim (Bool-cases (is_active c.delivery.status)) [
        | inl active ↦
            let (held, date, named, expires) = is_valid_row-held c.delivery valid active in
            let (passed, found) =
              claim_delivery-held texts to_iso prints auth c key lease_id receipt_id date now active
                expires h in
            elim found [
              | inl (used, dead) ↦
                  ap is_valid_row
                    (dead_letter_expired-ok texts to_iso prints auth c.delivery key receipt_id now
                      dead (is_valid_row-IsPaired c.delivery valid)).1
                  ∙ dead_row-is_valid_row c.delivery now valid active
              | inr (left, recovered) ↦
                  recover-is_valid_row c.delivery c.mission_expires_at held key lease_id receipt_id
                    now valid active named left recovered
            ]
        | inr free ↦
            give_lease-is_valid_row none c.delivery c.mission_expires_at key lease_id receipt_id now
              valid
              (claim_delivery-free texts to_iso prints auth c key lease_id receipt_id now free h)
      ]

  -- Every call that is accepted keeps the checks of the table.
  pub perform-is_valid_row :
      (c : Context) (call : Call) (now : ℕ) {r : Row}
      → is_valid_row c.delivery ≡ true
      → perform texts to_iso auth c call now ≡ ok r
      → is_valid_row r ≡ true
  unfolding perform
  perform-is_valid_row c (Call.claim key lease_id receipt_id) now {r} valid h =
      let (m, done, same) =
        >>=-eq-ok (claim_delivery texts to_iso auth c key lease_id receipt_id now) _ h in
      ap is_valid_row (sym (ok-inj m.row r same))
      ∙ claim-is_valid_row c key lease_id receipt_id now valid done
  perform-is_valid_row c (Call.start input receipt_id) now {r} valid h =
      let (m, done, same) =
        >>=-eq-ok (start_delivery texts to_iso auth c input receipt_id now) _ h in
      let (is_leased, held, changed) =
        start-ok texts to_iso prints auth c input receipt_id now
          (is_valid_row-IsPaired c.delivery valid) done in
      ap is_valid_row (sym (ok-inj m.row r same) ∙ changed)
      ∙ started_row-is_valid_row c.delivery now valid is_leased
  perform-is_valid_row c (Call.renew input receipt_id) now {r} valid h =
      let (m, done, same) =
        >>=-eq-ok (renew_delivery texts to_iso auth c input receipt_id now) _ h in
      let (deadline, active, held, later, forwards, changed) =
        renew-ok texts to_iso prints auth c input receipt_id now
          (is_valid_row-IsPaired c.delivery valid) done in
      ap is_valid_row (sym (ok-inj m.row r same) ∙ changed)
      ∙ renewed_row-is_valid_row c.delivery deadline now valid active
  perform-is_valid_row c (Call.release input receipt_id) now {r} valid h =
      let (m, done, same) =
        >>=-eq-ok (release_delivery texts to_iso auth c input receipt_id now) _ h in
      let (active, held, changed) =
        release-ok texts to_iso prints auth c input receipt_id now
          (is_valid_row-IsPaired c.delivery valid) done in
      ap is_valid_row (sym (ok-inj m.row r same) ∙ changed)
      ∙ released_row-is_valid_row c.delivery (is_dead_letter c input.details now) now valid active
          (λ used. ground arith)
