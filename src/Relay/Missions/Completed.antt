-- ===== src/Relay/Missions/Completed.antt =====
-- relay/src/services/delivery-ledger.ts: what `completeDelivery` leaves.
use mathlib.Core.List.{append_assoc, append-nil}
use mathlib.Core.Path.{subst}
use agent_relay.Prelude.{
  ℕ, suc, ◌≡◌, refl, ap, sym, ◌∙◌, String, Bool, true, not, ◌||◌, Option, none, some, List, [], ◌∷◌,
  ◌++◌, arith, ok, ◌==◌, string_eq, nat_eq, every, any, map, last?, >>=-eq-ok, throw_if-ok, ok-inj,
  not-false,
}
use agent_relay.Protocol.Schemas.{Texts, executing, delivery_status_eq}
use agent_relay.Protocol.Receipts.{is_some}
use agent_relay.Protocol.Coordinator.Events.{Event, Payload}
use agent_relay.Protocol.Coordinator.Apply.{Shapes}
use agent_relay.Relay.Errors.{relay_error, invalid_transition}
use agent_relay.Relay.Ledger.Row.{Row, is_valid_row}
use agent_relay.Relay.Ledger.Receipts.{ReceiptRow}
use agent_relay.Relay.Ledger.Rules.{Context, assert_runnable, assert_lease_authority}
use agent_relay.Relay.Missions.Store.{Store}
use agent_relay.Relay.Missions.Ends.{IsProjected, AreValid}
use agent_relay.Relay.Missions.Append.{append_result}
use agent_relay.Relay.Missions.Appended.{append_result-projected}
use agent_relay.Relay.Missions.Acknowledged.{
  is_done, is_over, superseded_row-is_valid_row, superseded_row-is_over, kept_row-is_over,
  superseded-is_done, acknowledge_rows-is_valid_row, acknowledge_rows-is_done,
}
use agent_relay.Relay.Missions.Completion.{CompleteInput, build_completion_events}
use agent_relay.Relay.Missions.Complete.{
  append_input, is_published, acknowledge_rows, completed_store, cancel_siblings, publish,
  acknowledge_source, conclude_completion, complete_delivery,
}

abbrev pub payload_of : Event → Payload
payload_of event = event.payload

abbrev pub id_of : Event → String
id_of event = event.event_id

-- The identifier of the last of some events, and otherwise of the event before them.
abbrev latest_id : Option String → List Event → Option String
latest_id last [] = last
latest_id last (event ∷ events) = latest_id (some event.event_id) events

latest_id-last? :
    (id : String) (events : List Event) → latest_id (some id) events ≡ last? (id ∷ map id_of events)
latest_id-last? id [] = refl
latest_id-last? id (event ∷ events) = latest_id-last? event.event_id events

latest_id-some :
    (events : List Event) {id : String}
    → latest_id none events ≡ some id
    → last? (map id_of events) ≡ some id
latest_id-some [] h = cc
latest_id-some (event ∷ events) h = sym (latest_id-last? event.event_id events) ∙ h

module _ (texts : Texts) (shapes : Shapes) (to_iso : ℕ → String) where
  -- What the cancellation of siblings leaves.
  abbrev AreSettled : Row → String → List Row → List Row → Type 0
  AreSettled source event_id rows out =
      (every is_valid_row rows ≡ true → every is_valid_row out ≡ true)
      × (any (is_done source event_id) rows ≡ true → any (is_done source event_id) out ≡ true)
      × (every (is_over source event_id) out ≡ true)

  cancel_siblings-AreSettled :
      (source : Row) (event_id : String) (now : ℕ) (rows : List Row)
      {out : List Row × List ReceiptRow}
      → cancel_siblings texts shapes to_iso source event_id now rows ≡ ok out
      → AreSettled source event_id rows out.0
  unfolding cancel_siblings
  cancel_siblings-AreSettled source event_id now [] h = (ground arith, ground arith, ground arith)
  cancel_siblings-AreSettled source event_id now (r ∷ rows) h =
      let (rest, before, after) =
        >>=-eq-ok (cancel_siblings texts shapes to_iso source event_id now rows) _ h in
      let (valid_on, done_on, over) = cancel_siblings-AreSettled source event_id now rows before in
      (
        λ valid. ground (arith, valid_on, superseded_row-is_valid_row source event_id now r),
        λ done. ground (arith, done_on, superseded-is_done source event_id r),
        ground (
          arith,
          over,
          superseded_row-is_over source event_id now r,
          kept_row-is_over source event_id r,
        ),
      )

  abbrev IsPublished : Store → List Payload → Option String → Store × Option String → Type 0
  IsPublished s payloads last out =
      IsProjected texts shapes out.0
      × AreValid out.0
      × ((added : List Event) × (out.0.events ≡ s.events ++ added)
          × (map payload_of added ≡ payloads)
          × (out.1 ≡ latest_id last added))

  publish-IsPublished :
      (s : Store) (input : CompleteInput) (now index : ℕ) (last : Option String)
      (payloads : List Payload) {out : Store × Option String}
      → IsProjected texts shapes s
      → AreValid s
      → publish texts shapes to_iso s input now index last payloads ≡ ok out
      → IsPublished s payloads last out
  unfolding publish
  publish-IsPublished s input now index last [] {out} projected valid h =
      subst (IsPublished s [] last) (ok-inj (s, last) out h)
        (projected, valid, ([], sym (append-nil s.events), refl, refl))
  publish-IsPublished s input now index last (payload ∷ payloads) {out} projected valid h =
      let (next, step, rest) =
        >>=-eq-ok (append_result texts shapes to_iso s (append_input input now index payload)) _
          h in
      let (in_time, trusted, (source, found, appended)) =
        append_result-projected texts shapes to_iso s (append_input input now index payload)
          {left = next} valid step in
      let (projected_on, valid_on, config_on, (event, one_more, same, named, numbered), own, held) =
        appended in
      let (projected_out, valid_out, (added, all, payloads_of, latest)) =
        publish-IsPublished next input now (suc index) (some (input.event_ids index)) payloads
          projected_on valid_on rest in
      (
        projected_out,
        valid_out,
        (
          event ∷ added,
          all ∙ ap (λ es. es ++ added) one_more ∙ append_assoc s.events (event ∷ []) added,
          ap (λ p. p ∷ map payload_of added) same
              ∙ ap (λ (ps : List Payload). payload ∷ ps) payloads_of,
          latest ∙ ap (λ id. latest_id (some id) added) (sym named),
        ),
      )

  acknowledge_source-kept :
      (s : Store) (source : Row) (input : CompleteInput) (event_id : String) (now : ℕ) {t : Store}
      → AreValid s
      → acknowledge_source texts shapes to_iso s source input event_id now ≡ ok t
      → (t.mission ≡ s.mission)
        × (t.events ≡ s.events)
        × AreValid t
        × (any (is_done source event_id) t.deliveries ≡ true)
        × (every (is_over source event_id) t.deliveries ≡ true)
  unfolding acknowledge_source
  acknowledge_source-kept s source input event_id now {t} valid h =
      let (found, rest) =
        throw_if-ok (not (any (is_published source input event_id now) s.deliveries))
          (relay_error invalid_transition) _ h in
      let (rows, cancelled, same) =
        >>=-eq-ok
          (cancel_siblings texts shapes to_iso source event_id now
            (acknowledge_rows source input event_id now s.deliveries))
          _ rest in
      let (valid_on, done_on, over) =
        cancel_siblings-AreSettled source event_id now
          (acknowledge_rows source input event_id now s.deliveries) cancelled in
      subst
        (λ u.
          (u.mission ≡ s.mission)
          × (u.events ≡ s.events)
          × AreValid u
          × (any (is_done source event_id) u.deliveries ≡ true)
          × (every (is_over source event_id) u.deliveries ≡ true))
        (ok-inj (completed_store s rows) t same)
        (
          refl,
          refl,
          valid_on (acknowledge_rows-is_valid_row source input event_id now s.deliveries valid),
          done_on (
              acknowledge_rows-is_done source input event_id now s.deliveries
                (not-false (any (is_published source input event_id now) s.deliveries) found)),
          over,
        )

  -- What a completion leaves: its results in the log, its delivery acknowledged, no sibling to do.
  abbrev pub IsCompleted : Store → Row → List Payload → Store → Type 0
  IsCompleted s source payloads t =
      IsProjected texts shapes t
      × AreValid t
      × ((added : List Event) × (event_id : String) × (t.events ≡ s.events ++ added)
          × (map payload_of added ≡ payloads)
          × (last? (map id_of added) ≡ some event_id)
          × (any (is_done source event_id) t.deliveries ≡ true)
          × (every (is_over source event_id) t.deliveries ≡ true))

  projection-kept :
      (u t : Store)
      → t.mission ≡ u.mission
      → t.events ≡ u.events
      → IsProjected texts shapes u
      → IsProjected texts shapes t
  projection-kept u t same same_events projected = rw same (rw same_events projected)

  conclude_completion-IsCompleted :
      (s : Store) (payloads : List Payload) (source : Row) (input : CompleteInput) (now : ℕ)
      (published : Store × Option String) {t : Store}
      → IsPublished s payloads none published
      → conclude_completion texts shapes to_iso source input now published ≡ ok t
      → IsCompleted s source payloads t
  conclude_completion-IsCompleted s payloads source input now (u, none) held h = cc
  conclude_completion-IsCompleted s payloads source input now (u, some event_id) {t} held h =
      let (projected, valid, (added, all, logged, latest)) = held in
      let (same, same_events, valid_on, done, over) =
        acknowledge_source-kept u source input event_id now {t = t} valid h in
      (
        projection-kept u t same same_events projected,
        valid_on,
        (added, event_id, same_events ∙ all, logged, latest_id-some added (sym latest), done, over),
      )

  -- A completion that is accepted came from the holder of the delivery's lease. It adds its results to
  -- the log of the Mission, one event each and in their order, keeps the Mission what its events reduce
  -- to and the deliveries within the checks of their table, acknowledges the delivery, which the
  -- event of the last result has settled, and leaves no other delivery to do that this event has
  -- settled.
  pub complete_delivery-completes :
      (has_append_shape : Payload → Bool) (s : Store) (c : Context) (input : CompleteInput)
      (now : ℕ) {t : Store}
      → IsProjected texts shapes s
      → AreValid s
      → complete_delivery texts shapes to_iso has_append_shape s c input now ≡ ok t
      → (assert_lease_authority c.delivery input.authority now ≡ ok tt)
        × ((payloads : List Payload) × (build_completion_events shapes has_append_shape to_iso
                s.mission.state c.delivery input now
              ≡ ok payloads)
            × IsCompleted s c.delivery payloads t)
  unfolding complete_delivery
  complete_delivery-completes has_append_shape s c input now {t} projected valid h =
      let (runnable, is_runnable, rest) = >>=-eq-ok (assert_runnable c now) _ h in
      let (working, rest) =
        throw_if-ok (not (c.delivery.status == executing) || is_some c.delivery.settled_by_event_id)
          (relay_error invalid_transition) _ rest in
      let (authority, holds_lease, rest) =
        >>=-eq-ok (assert_lease_authority c.delivery input.authority now) _ rest in
      let (payloads, built, rest) =
        >>=-eq-ok
          (build_completion_events shapes has_append_shape to_iso s.mission.state c.delivery input
            now)
          _ rest in
      let (published, publishing, concluding) =
        >>=-eq-ok (publish texts shapes to_iso s input now 0 none payloads) _ rest in
      (
        holds_lease,
        (
          payloads,
          built,
          conclude_completion-IsCompleted s payloads c.delivery input now published
              (publish-IsPublished s input now 0 none payloads projected valid publishing)
              concluding,
        ),
      )
