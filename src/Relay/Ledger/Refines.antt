-- ===== src/Relay/Ledger/Refines.antt =====
-- relay/src/services/delivery-ledger.ts: any requests on a delivery are a run of the machine of
-- protocol/src/state-machines.ts.
use mathlib.Core.Path.{subst}
use agent_relay.Prelude.{
  ℕ, ◌≡◌, ◌⊎◌, inl, inr, refl, ap, sym, ◌∙◌, String, true, Option, none, some, List, [], ◌∷◌, ◌++◌,
  arith, Result, ok, err, Result-cases, >>=-eq-ok, ok-inj,
}
use agent_relay.Protocol.Schemas.{Texts, is_release_classification}
use agent_relay.Protocol.Delivery.{State, Event, transition_delivery_state}
use agent_relay.Protocol.Delivery.Runs.{run}
use agent_relay.Relay.Errors.{Error}
use agent_relay.Relay.Ledger.Row.{Row, is_valid_row}
use agent_relay.Relay.Ledger.Rules.{Context}
use agent_relay.Relay.Ledger.Guards.{assert_routing}
use agent_relay.Relay.Ledger.Operations.{
  NodeCredential, start_delivery, renew_delivery, release_delivery,
}
use agent_relay.Relay.Ledger.Receipts.{Output, ReceiptRow}
use agent_relay.Relay.Ledger.Claim.{claim_delivery}
use agent_relay.Relay.Ledger.Calls.{Call, perform}
use agent_relay.Relay.Ledger.Requests.{
  Locked, Tables, context_of, persist, persist_mutation, mutate, answer_new, replay, answer,
  request, load_replay,
}
use agent_relay.Relay.Ledger.Machine.{Prints, machine_state}
use agent_relay.Relay.Ledger.Steps.{start-transition, renew-transition, release-transition}
use agent_relay.Relay.Ledger.ClaimRuns.{is_valid_row-IsPaired, claim_events, claim-run}
use agent_relay.Relay.Ledger.Kept.{perform-is_valid_row}

-- What the input schema has checked of a call, and that a fresh lease id is one.
abbrev pub IsParsed : Texts → Call → Type 0
IsParsed texts (Call.claim key lease_id receipt_id) = texts.is_uuid lease_id ≡ true
IsParsed texts (Call.release input receipt_id) =
    is_release_classification input.details.classification ≡ true
IsParsed texts call = Unit {0}

-- The machine gets from one state to the other.
abbrev pub Reaches : Texts → State → State → Type 0
Reaches texts s t = (events : List Event) × (run texts s events ≡ ok t)

run-++ :
    (texts : Texts) (s : State) (es fs : List Event) {t : State}
    → run texts s es ≡ ok t
    → run texts s (es ++ fs) ≡ run texts t fs
unfolding run
run-++ texts s [] fs h = ap (λ x. run texts x fs) (ok-inj s _ h)
run-++ texts s (e ∷ es) fs h =
    let (u, first, rest) = >>=-eq-ok (transition_delivery_state texts s e) _ h in
    rw first (run-++ texts u es fs rest)

Reaches-trans :
    (texts : Texts) (s t u : State) → Reaches texts s t → Reaches texts t u → Reaches texts s u
Reaches-trans texts s t u (es, p) (fs, q) = (es ++ fs, run-++ texts s es fs p ∙ q)

Reaches-same : (texts : Texts) (s t : State) → s ≡ t → Reaches texts s t
unfolding run
Reaches-same texts s t h = ([], ap ok h)

Reaches-step :
    (texts : Texts) (s t : State) (e : Event)
    → transition_delivery_state texts s e ≡ ok t
    → Reaches texts s t
unfolding run
Reaches-step texts s t e h = (e ∷ [], rw h refl)

-- The tables that a request leaves: those before it where it is refused.
abbrev pub left_by : Tables → Result Error (Tables × Output) → Tables
left_by t (err fault) = t
left_by t (ok answered) = answered.0

module _ (texts : Texts) (to_iso : ℕ → String) (prints : Prints texts to_iso)
    (auth : NodeCredential) where
  -- A call that is accepted is a run of the machine.
  perform-Reaches :
      (c : Context) (call : Call) (now : ℕ) {r : Row}
      → is_valid_row c.delivery ≡ true
      → IsParsed texts call
      → perform texts to_iso auth c call now ≡ ok r
      → Reaches texts (machine_state to_iso c.delivery) (machine_state to_iso r)
  unfolding perform
  perform-Reaches c (Call.claim key lease_id receipt_id) now {r} valid parsed h =
      let (m, done, same) =
        >>=-eq-ok (claim_delivery texts to_iso auth c key lease_id receipt_id now) _ h in
      (
        claim_events to_iso c lease_id now,
        claim-run texts to_iso prints auth c key lease_id receipt_id now valid parsed done
            ∙ ap (λ x. ok (machine_state to_iso x)) (ok-inj m.row r same),
      )
  perform-Reaches c (Call.start input receipt_id) now {r} valid parsed h =
      let (m, done, same) =
        >>=-eq-ok (start_delivery texts to_iso auth c input receipt_id now) _ h in
      Reaches-step texts _ _ _ (
        start-transition texts to_iso prints auth c input receipt_id now
          (is_valid_row-IsPaired c.delivery valid) done
        ∙ ap (λ x. ok (machine_state to_iso x)) (ok-inj m.row r same))
  perform-Reaches c (Call.renew input receipt_id) now {r} valid parsed h =
      let (m, done, same) =
        >>=-eq-ok (renew_delivery texts to_iso auth c input receipt_id now) _ h in
      elim (renew-transition texts to_iso prints auth c input receipt_id now
        (is_valid_row-IsPaired c.delivery valid) done) [
          | inl kept ↦
              Reaches-same texts _ _ (kept ∙ ap (machine_state to_iso) (ok-inj m.row r same))
          | inr (deadline, renewed) ↦
              Reaches-step texts _ _ _
                (renewed ∙ ap (λ x. ok (machine_state to_iso x)) (ok-inj m.row r same))
        ]
  perform-Reaches c (Call.release input receipt_id) now {r} valid parsed h =
      let (m, done, same) =
        >>=-eq-ok (release_delivery texts to_iso auth c input receipt_id now) _ h in
      Reaches-step texts _ _ _ (
        release-transition texts to_iso prints auth c input receipt_id now
          (is_valid_row-IsPaired c.delivery valid) parsed done
        ∙ ap (λ x. ok (machine_state to_iso x)) (ok-inj m.row r same))

  replay-kept :
      (l : Locked) (t : Tables) (call : Call) (row : ReceiptRow) {left : Tables} {given : Output}
      → replay texts to_iso auth l t call row ≡ ok (left, given)
      → left ≡ t
  unfolding replay
  replay-kept l t call row h = ground arith

  pub mutate-perform :
      (l : Locked) (t : Tables) (call : Call) {left : Tables} {given : Output}
      → mutate texts to_iso auth l t call ≡ ok (left, given)
      → perform texts to_iso auth (context_of l t.delivery) call l.now ≡ ok left.delivery
  unfolding mutate perform persist_mutation persist
  mutate-perform l t (Call.claim key lease_id receipt_id) h = ground arith
  mutate-perform l t (Call.start input receipt_id) h = ground arith
  mutate-perform l t (Call.renew input receipt_id) h = ground arith
  mutate-perform l t (Call.release input receipt_id) h = ground arith

  -- A request is a call, or leaves the delivery as it is.
  pub request-perform :
      (l : Locked) (t : Tables) (call : Call) {left : Tables} {given : Output}
      → request texts to_iso auth l t call ≡ ok (left, given)
      → (left ≡ t)
        ⊎ (perform texts to_iso auth (context_of l t.delivery) call l.now ≡ ok left.delivery)
  unfolding request answer_new
  request-perform l t call {left} {given} h =
      let (u, routed, rest) = >>=-eq-ok (assert_routing l.participants l.routes) _ h in
      let (found, loaded, answered) =
        >>=-eq-ok (load_replay t.receipts auth.node_id t.delivery.id call) _ rest in
      go found answered
    where
      go :
          (found : Option ReceiptRow)
          → answer texts to_iso auth l t call found ≡ ok (left, given)
          → (left ≡ t)
            ⊎ (perform texts to_iso auth (context_of l t.delivery) call l.now ≡ ok left.delivery)
      go (some row) answered = inl (replay-kept l t call row answered)
      go none answered = inr (mutate-perform l t call {left = left} {given = given} (ground arith))

  -- The row satisfies the table, and the machine gets from the one delivery to the other.
  abbrev pub IsRefined : Tables → Tables → Type 0
  IsRefined t left =
      (is_valid_row left.delivery ≡ true)
      × Reaches texts (machine_state to_iso t.delivery) (machine_state to_iso left.delivery)

  pub request-refines :
      (l : Locked) (t : Tables) (call : Call) {left : Tables} {given : Output}
      → is_valid_row t.delivery ≡ true
      → IsParsed texts call
      → request texts to_iso auth l t call ≡ ok (left, given)
      → IsRefined t left
  request-refines l t call {left} valid parsed h = elim (request-perform l t call h) [
    | inl same ↦ (
      ap (λ x. is_valid_row x.delivery) same ∙ valid,
      Reaches-same texts _ _ (ap (λ x. machine_state to_iso x.delivery) (sym same)),
    )
    | inr done ↦ (
      perform-is_valid_row texts to_iso prints auth (context_of l t.delivery) call l.now valid done,
      perform-Reaches (context_of l t.delivery) call l.now valid parsed done,
    )
  ]

  -- Requests one after the other; one that is refused changes nothing.
  unfoldable pub run_requests : Tables → List (Locked × Call) → Tables
  run_requests t [] = t
  run_requests t (entry ∷ entries) =
      run_requests (left_by t (request texts to_iso auth entry.0 t entry.1)) entries

  -- Every call of a list has passed the input schemas.
  abbrev pub AreParsed : List (Locked × Call) → Type 0
  AreParsed [] = Unit {0}
  AreParsed (entry ∷ entries) = IsParsed texts entry.1 × AreParsed entries

  -- Over any requests, accepted and refused, the row keeps the checks of the table, and what happens
  -- to the delivery is a run of transitions that the machine accepts.
  pub run_requests-refines :
      (t : Tables) (entries : List (Locked × Call))
      → is_valid_row t.delivery ≡ true
      → AreParsed entries
      → IsRefined t (run_requests t entries)
  unfolding run_requests
  run_requests-refines t [] valid parsed = (valid, Reaches-same texts _ _ refl)
  run_requests-refines t (entry ∷ entries) valid (first, others) =
      elim (Result-cases (request texts to_iso auth entry.0 t entry.1)) [
        | inl (fault, refused) ↦
            subst (λ r. IsRefined t (run_requests (left_by t r) entries)) (sym refused)
              (run_requests-refines t entries valid others)
        | inr (answered, accepted) ↦
            let (kept, reached) = request-refines entry.0 t entry.1 valid first accepted in
            let (kept_on, reached_on) = run_requests-refines answered.0 entries kept others in
            subst (λ r. IsRefined t (run_requests (left_by t r) entries)) (sym accepted)
              (kept_on, Reaches-trans texts _ _ _ reached reached_on)
      ]
