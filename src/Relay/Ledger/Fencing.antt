-- ===== src/Relay/Ledger/Fencing.antt =====
-- relay/src/services/delivery-ledger.ts: a Node that lost its lease cannot act under it.
use agent_relay.Prelude.{
  ℕ, ◌<◌, ◌≡◌, ◌≢◌, sym, ap, ◌∙◌, String, true, Option, none, some, List, arith, ok, string_eq,
  beq→eq, >>=-eq-ok,
}
use agent_relay.Prelude.Decimal.{to_decimal, to_decimal-inj}
use agent_relay.Protocol.Schemas.{Texts}
use agent_relay.Protocol.Receipts.{LeaseAuthority}
use agent_relay.Relay.Ledger.Row.{Row, has_valid_attempts, is_valid_row, is_valid_row_iff}
use agent_relay.Relay.Ledger.Operations.{
  NodeCredential, start_delivery, renew_delivery, release_delivery,
}
use agent_relay.Relay.Ledger.Rules.{Context}
use agent_relay.Relay.Ledger.Receipts.{Output}
use agent_relay.Relay.Ledger.Calls.{Call, perform}
use agent_relay.Relay.Ledger.Requests.{Locked, Tables, context_of, key_of, find_receipt, request}
use agent_relay.Relay.Ledger.Machine.{Prints, machine_state, token_of}
use agent_relay.Relay.Ledger.Steps.{start-ok, renew-ok, release-ok}
use agent_relay.Relay.Ledger.ClaimRuns.{is_valid_row-IsPaired}
use agent_relay.Relay.Ledger.Replays.{new_request-mutate}
use agent_relay.Relay.Ledger.Refines.{AreParsed, mutate-perform, run_requests, run_requests-refines}

-- The lease that a call presents; a claim presents none.
abbrev pub authority_of : Call → Option LeaseAuthority
authority_of (Call.claim key lease_id receipt_id) = none
authority_of (Call.start input receipt_id) = some input.authority
authority_of (Call.renew input receipt_id) = some input.authority
authority_of (Call.release input receipt_id) = some input.lease_input.authority

abbrev token_in : Option LeaseAuthority → String
token_in none = ""
token_in (some authority) = authority.fencing_token

last_token : (r : Row) → is_valid_row r ≡ true → r.last_fencing_token ≡ to_decimal r.attempt_count
unfolding has_valid_attempts
last_token r valid =
    beq→eq r.last_fencing_token (to_decimal r.attempt_count)
      (ground (arith, ((is_valid_row_iff r).0 valid).1))

token_of-last :
    (o : Option String) (last token : String) → token_of o last ≡ some token → last ≡ token
token_of-last none last token h = cc
token_of-last (some lease_id) last token h = cc

module _ (texts : Texts) (to_iso : ℕ → String) (prints : Prints texts to_iso)
    (auth : NodeCredential) where
  -- A call under a lease presents the last token.
  perform-last_token :
      (c : Context) (call : Call) (authority : LeaseAuthority) (now : ℕ) {r : Row}
      → is_valid_row c.delivery ≡ true
      → authority_of call ≡ some authority
      → perform texts to_iso auth c call now ≡ ok r
      → c.delivery.last_fencing_token ≡ authority.fencing_token
  unfolding perform machine_state
  perform-last_token c (Call.claim key x y) authority now valid presents h = cc
  perform-last_token c (Call.start input x) authority now valid presents h =
      let (m, done, same) = >>=-eq-ok (start_delivery texts to_iso auth c input x now) _ h in
      let (is_leased, held, changed) =
        start-ok texts to_iso prints auth c input x now (is_valid_row-IsPaired c.delivery valid)
          done in
      token_of-last c.delivery.active_lease_id _ _ held.0.token_matches ∙ ap token_in presents
  perform-last_token c (Call.renew input x) authority now valid presents h =
      let (m, done, same) = >>=-eq-ok (renew_delivery texts to_iso auth c input x now) _ h in
      let (deadline, active, held, later, forwards, changed) =
        renew-ok texts to_iso prints auth c input x now (is_valid_row-IsPaired c.delivery valid)
          done in
      token_of-last c.delivery.active_lease_id _ _ held.0.token_matches ∙ ap token_in presents
  perform-last_token c (Call.release input x) authority now valid presents h =
      let (m, done, same) = >>=-eq-ok (release_delivery texts to_iso auth c input x now) _ h in
      let (active, held, changed) =
        release-ok texts to_iso prints auth c input x now (is_valid_row-IsPaired c.delivery valid)
          done in
      token_of-last c.delivery.active_lease_id _ _ held.0.token_matches ∙ ap token_in presents

  -- Once a delivery has been claimed again, a Node that held it before is refused: no start, renewal
  -- or release under an earlier attempt's token is accepted after any requests, but for the answer
  -- again of one that was accepted under the same key.
  pub run_requests-fences :
      (t : Tables) (entries : List (Locked × Call)) (l : Locked) (call : Call)
      (authority : LeaseAuthority)
      → is_valid_row t.delivery ≡ true
      → AreParsed texts to_iso prints auth entries
      → t.delivery.attempt_count
        < (run_requests texts to_iso prints auth t entries).delivery.attempt_count
      → authority_of call ≡ some authority
      → authority.fencing_token ≡ t.delivery.last_fencing_token
      → find_receipt auth.node_id
          (key_of call)
          (run_requests texts to_iso prints auth t entries).receipts
        ≡ none
      → (left : Tables) (given : Output)
      → request texts to_iso auth l (run_requests texts to_iso prints auth t entries) call
        ≢ ok (left, given)
  run_requests-fences t entries l call authority valid parsed more presents old unused left given
        h =
      let later : Tables = run_requests texts to_iso prints auth t entries in
      let kept : is_valid_row later.delivery ≡ true =
        (run_requests-refines texts to_iso prints auth t entries valid parsed).0 in
      let done =
        mutate-perform texts to_iso prints auth l later call
          (new_request-mutate texts to_iso auth l later call unused h) in
      let last =
        perform-last_token (context_of l later.delivery) call authority l.now kept presents done in
      omega (
        arith,
        more,
        to_decimal-inj later.delivery.attempt_count t.delivery.attempt_count
            (sym (last_token later.delivery kept) ∙ last ∙ old ∙ last_token t.delivery valid),
      )
