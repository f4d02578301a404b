-- ===== src/Relay/Ledger/Answering.antt =====
-- relay/src/services/delivery-ledger.ts: the answer of each operation passes the schemas, and is about
-- the delivery, the operation and the key of its request.
use agent_relay.Prelude.{
  ℕ, ◌≡◌, ap, ◌∙◌, String, true, not, ◌||◌, Option, none, some, arith, ok, ◌==◌, string_eq, leb,
  ltb, >>=-eq-ok, throw_if-ok,
}
use agent_relay.Protocol.Schemas.{Texts, stored, leased, delivery_status_eq}
use agent_relay.Protocol.Receipts.{Operation, ClaimOutcome, is_some, is_active}
use agent_relay.Protocol.Results.{is_valid_result, is_valid_claim_result}
use agent_relay.Relay.Errors.{relay_error, invalid_transition, state_changed, internal}
use agent_relay.Relay.Ledger.Row.{Row}
use agent_relay.Relay.Ledger.Rules.{
  Context, assert_active_status, assert_lease_authority, bounded_lease_expiry,
}
use agent_relay.Relay.Ledger.Operations.{
  NodeCredential, LeaseInput, ReleaseInput, Mutation, moves_backwards, started_row, renewed_row,
  released_row, is_dead_letter, start_delivery, renew_delivery, release_delivery,
}
use agent_relay.Relay.Ledger.Receipts.{ReceiptRow}
use agent_relay.Relay.Ledger.Claim.{
  ClaimMutation, claimed_row, dead_row, dead_letter_expired, expire_held, expire_lease, give_lease,
  recover, claim_delivery,
}
use agent_relay.Relay.Ledger.Answers.{IsAnswer, conclude-IsAnswer, conclude_claim-IsAnswer}

module _ (texts : Texts) (to_iso : ℕ → String) (auth : NodeCredential) where
  -- The answer of an operation on a row.
  abbrev pub IsAnswered : Operation → String → Row → Mutation → Type 0
  IsAnswered operation key r m =
      IsAnswer texts to_iso auth operation key m.result.delivery m.result.receipt
      × (is_valid_result operation m.result ≡ true)
      × (m.row.id ≡ r.id)

  pub start-IsAnswered :
      (c : Context) (input : LeaseInput) (receipt_id : String) (now : ℕ) {m : Mutation}
      → start_delivery texts to_iso auth c input receipt_id now ≡ ok m
      → IsAnswered Operation.start input.idempotency_key c.delivery m
  unfolding start_delivery
  start-IsAnswered c input receipt_id now h =
      let (is_leased, rest) =
        throw_if-ok (not (c.delivery.status == leased)) (relay_error invalid_transition) _ h in
      let (u, held, concluded) =
        >>=-eq-ok (assert_lease_authority c.delivery input.authority now) _ rest in
      let (answer, valid, same) =
        conclude-IsAnswer texts to_iso auth Operation.start (started_row c.delivery now) receipt_id
          _ concluded in
      (answer, valid, ap (λ r. r.id) same)

  pub renew-IsAnswered :
      (c : Context) (input : LeaseInput) (receipt_id : String) (now : ℕ) {m : Mutation}
      → renew_delivery texts to_iso auth c input receipt_id now ≡ ok m
      → IsAnswered Operation.renew input.idempotency_key c.delivery m
  unfolding renew_delivery
  renew-IsAnswered c input receipt_id now h =
      let (u, held, rest) = >>=-eq-ok (assert_active_status c.delivery) _ h in
      let (v, owned, rest) =
        >>=-eq-ok (assert_lease_authority c.delivery input.authority now) _ rest in
      let (deadline, bounded, rest) =
        >>=-eq-ok (bounded_lease_expiry now c.mission_expires_at) _ rest in
      let (forwards, concluded) =
        throw_if-ok (moves_backwards c.delivery.lease_expires_at deadline)
          (relay_error invalid_transition) _ rest in
      let (answer, valid, same) =
        conclude-IsAnswer texts to_iso auth Operation.renew (renewed_row c.delivery deadline now)
          receipt_id _ concluded in
      (answer, valid, ap (λ r. r.id) same)

  pub release-IsAnswered :
      (c : Context) (input : ReleaseInput) (receipt_id : String) (now : ℕ) {m : Mutation}
      → release_delivery texts to_iso auth c input receipt_id now ≡ ok m
      → IsAnswered Operation.release input.lease_input.idempotency_key c.delivery m
  unfolding release_delivery
  release-IsAnswered c input receipt_id now h =
      let (u, held, rest) = >>=-eq-ok (assert_active_status c.delivery) _ h in
      let (v, owned, concluded) =
        >>=-eq-ok (assert_lease_authority c.delivery input.lease_input.authority now) _ rest in
      let (answer, valid, same) =
        conclude-IsAnswer texts to_iso auth Operation.release
          (released_row c.delivery (is_dead_letter c input.details now) now) receipt_id _
          concluded in
      (answer, valid, ap (λ r. r.id) same)

  abbrev pub IsClaimAnswered : String → Row → ClaimMutation → Type 0
  IsClaimAnswered key r m =
      IsAnswer texts to_iso auth Operation.claim key m.result.delivery m.result.receipt
      × (is_valid_claim_result m.result ≡ true)
      × (m.row.id ≡ r.id)

  give_lease-IsAnswered :
      (recovered : Option ReceiptRow) (r : Row) (mission_expires_at : ℕ)
      (key lease_id receipt_id : String) (now : ℕ) {m : ClaimMutation}
      → give_lease texts to_iso auth recovered r mission_expires_at key lease_id receipt_id now
        ≡ ok m
      → IsClaimAnswered key r m
  unfolding give_lease
  give_lease-IsAnswered recovered r mission_expires_at key lease_id receipt_id now h =
      let (is_available, rest) =
        throw_if-ok
          (not (r.status == stored)
            || is_some r.settled_by_event_id
            || leb r.max_attempts r.attempt_count)
          (relay_error invalid_transition) _ h in
      let (is_due, rest) =
        throw_if-ok (ltb now r.available_at) (relay_error state_changed) _ rest in
      let (deadline, bounded, concluded) =
        >>=-eq-ok (bounded_lease_expiry now mission_expires_at) _ rest in
      let (answer, valid, same) =
        conclude_claim-IsAnswer texts to_iso auth ClaimOutcome.claimed recovered
          (claimed_row r lease_id deadline now) receipt_id _ concluded in
      (answer, valid, ap (λ row. row.id) same)

  dead_letter-IsAnswered :
      (r : Row) (key receipt_id : String) (now : ℕ) {m : ClaimMutation}
      → dead_letter_expired texts to_iso auth r key receipt_id now ≡ ok m
      → IsClaimAnswered key r m
  unfolding dead_letter_expired
  dead_letter-IsAnswered r key receipt_id now h =
      let (held, concluded) = throw_if-ok (not (is_active r.status)) (relay_error internal) _ h in
      let (answer, valid, same) =
        conclude_claim-IsAnswer texts to_iso auth ClaimOutcome.dead_lettered none (dead_row r now)
          receipt_id _ concluded in
      (answer, valid, ap (λ row. row.id) same)

  expire_lease-id :
      (r : Row) (now : ℕ) {out : Row × ReceiptRow}
      → expire_lease texts to_iso auth r now ≡ ok out
      → out.0.id ≡ r.id
  unfolding expire_lease expire_held
  expire_lease-id r now h = ground arith

  recover-IsAnswered :
      (r : Row) (mission_expires_at : ℕ) (key lease_id receipt_id : String) (now : ℕ)
      {m : ClaimMutation}
      → recover texts to_iso auth r mission_expires_at key lease_id receipt_id now ≡ ok m
      → IsClaimAnswered key r m
  unfolding recover
  recover-IsAnswered r mission_expires_at key lease_id receipt_id now h =
      let (out, expired, rest) = >>=-eq-ok (expire_lease texts to_iso auth r now) _ h in
      let (answer, valid, same) =
        give_lease-IsAnswered (some out.1) out.0 mission_expires_at key lease_id receipt_id now
          rest in
      (answer, valid, same ∙ expire_lease-id r now expired)

  pub claim-IsAnswered :
      (c : Context) (key lease_id receipt_id : String) (now : ℕ) {m : ClaimMutation}
      → claim_delivery texts to_iso auth c key lease_id receipt_id now ≡ ok m
      → IsClaimAnswered key c.delivery m
  unfolding claim_delivery
  claim-IsAnswered c key lease_id receipt_id now {m} h = ground (
    arith,
    dead_letter-IsAnswered c.delivery key receipt_id now {m = m},
    recover-IsAnswered c.delivery c.mission_expires_at key lease_id receipt_id now {m = m},
    give_lease-IsAnswered none c.delivery c.mission_expires_at key lease_id receipt_id now {m = m},
  )
