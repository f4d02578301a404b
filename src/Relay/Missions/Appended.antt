-- ===== src/Relay/Missions/Appended.antt =====
-- relay/src/services/mission-ledger.ts: what `appendMissionEventInTransaction` leaves.
use mathlib.Core.Path.{subst}
use agent_relay.Prelude.{
  ℕ, suc, ◌+◌, ◌≡◌, refl, ap, String, Bool, true, false, not, ◌&&◌, ◌||◌, some, List, [], ◌∷◌, ◌++◌,
  arith, ok, err, Result, ◌==◌, string_eq, nat_eq, every, leb, >>=-eq-ok, throw_if-ok, ok-inj,
  Bool-cases, inl, inr, Option-cases, every-append, beq→eq,
}
use agent_relay.Protocol.Schemas.{Texts, active, failed, mission_status_eq}
use agent_relay.Protocol.Coordinator.Events.{Event}
use agent_relay.Protocol.Coordinator.State as Coordinator
use agent_relay.Protocol.Coordinator.State.{State}
use agent_relay.Protocol.Coordinator.Apply.{Shapes}
use agent_relay.Protocol.Coordinator.Reduce.{
  reduce_mission_coordinator_event, replay_mission_coordinator_events,
}
use agent_relay.Relay.Errors.{relay_error, internal, invalid_transition, not_authorized_transition}
use agent_relay.Relay.Ledger.Row.{
  Row, has_valid_kind, has_valid_attempts, has_valid_lease, has_valid_end, is_valid_row,
  is_valid_row_iff,
}
use agent_relay.Relay.Ledger.Guards.{assert_mission_trust}
use agent_relay.Relay.Missions.Store.{Store, state_eq}
use agent_relay.Relay.Missions.Reconcile.{lifted}
use agent_relay.Relay.Missions.Ends.{IsProjected, AreValid, lifted-ok, replay-extended}
use agent_relay.Relay.Missions.Targets.{Target, derive_targets, should_settle_source}
use agent_relay.Relay.Missions.Sources.{Source, source_of, assert_source}
use agent_relay.Relay.Missions.Append.{
  AppendInput, settled_row, settle_rows, settle_source, node_of, last_delivery, derived_row,
  insert_target, insert_targets, reduced, new_event, appended_store, current_state, write_result,
  append_from, append_result, is_verification,
}

settled_row-is_valid_row :
    (r : Row) (event_id : String) (at : ℕ)
    → is_valid_row r ≡ true
    → is_valid_row (settled_row r event_id at) ≡ true
unfolding has_valid_kind has_valid_attempts has_valid_lease has_valid_end
settled_row-is_valid_row r event_id at h =
    let (kind, attempts, lease, end) = (is_valid_row_iff r).0 h in
    (is_valid_row_iff (settled_row r event_id at)).1 (kind, attempts, ground arith, ground arith)

settle_rows-is_valid_row :
    (mission_id : String) (source : Source) (whole : Bool) (event_id : String) (at : ℕ)
    (rows : List Row)
    → every is_valid_row rows ≡ true
    → every is_valid_row (settle_rows mission_id source whole event_id at rows) ≡ true
unfolding settle_rows
settle_rows-is_valid_row mission_id source whole event_id at [] valid = refl
settle_rows-is_valid_row mission_id source whole event_id at (r ∷ rows) valid = ground (
  arith,
  settled_row-is_valid_row r event_id at (ground arith),
  settle_rows-is_valid_row mission_id source whole event_id at rows (ground arith),
)

settle_source-is_valid_row :
    (mission_id : String) (rows : List Row) (source : Source) (next : State) (event : Event)
    (at : ℕ) {out : List Row}
    → every is_valid_row rows ≡ true
    → settle_source mission_id rows source next event at ≡ ok out
    → every is_valid_row out ≡ true
unfolding settle_source
settle_source-is_valid_row mission_id rows source next event at {out} valid h =
    elim (Bool-cases (should_settle_source next event)) [
      | inr open_still ↦ ground (arith, valid)
      | inl settled ↦
          let whole : Bool =
            is_verification event.payload && (next.status == active || next.status == failed) in
          ground
            (arith, settle_rows-is_valid_row mission_id source whole event.event_id at rows valid)
    ]

insert_target-is_valid_row :
    (mission_id : String) (input : AppendInput) (event : Event) (index : ℕ) (target : Target)
    (rows : List Row) {out : List Row}
    → every is_valid_row rows ≡ true
    → insert_target mission_id input event index target rows ≡ ok out
    → every is_valid_row out ≡ true
unfolding insert_target
insert_target-is_valid_row mission_id input event index target rows {out} valid h =
    elim (Option-cases (node_of input.assignments target.agent_id)) [
      | inl nobody ↦ ground arith
      | inr (node_id, found) ↦
          let row : Row =
            derived_row mission_id event target node_id (last_delivery mission_id node_id rows)
              (input.delivery_ids index) (input.next_cursor + index) input.inserted_at in
          elim (Bool-cases (is_valid_row row)) [
            | inr invalid ↦ ground arith
            | inl checked ↦
                ground (arith, every-append is_valid_row rows (row ∷ []) valid (ground arith))
          ]
    ]

insert_targets-is_valid_row :
    (mission_id : String) (input : AppendInput) (event : Event) (index : ℕ) (targets : List Target)
    (rows : List Row) {out : List Row}
    → every is_valid_row rows ≡ true
    → insert_targets mission_id input event index targets rows ≡ ok out
    → every is_valid_row out ≡ true
unfolding insert_targets
insert_targets-is_valid_row mission_id input event index [] rows {out} valid h =
    subst (λ xs. every is_valid_row xs ≡ true) (ok-inj rows out h) valid
insert_targets-is_valid_row mission_id input event index (target ∷ targets) rows valid h =
    let (more, first, rest) =
      >>=-eq-ok (insert_target mission_id input event index target rows) _ h in
    insert_targets-is_valid_row mission_id input event (suc index) targets more
      (insert_target-is_valid_row mission_id input event index target rows valid first) rest

module _ (texts : Texts) (shapes : Shapes) (to_iso : ℕ → String) where
  -- What an accepted result leaves.
  abbrev pub IsAppended : Store → AppendInput → Source → Store → Type 0
  IsAppended s input source left =
      IsProjected texts shapes left
      × AreValid left
      × (left.mission.config ≡ s.mission.config)
      × ((event : Event) × (left.events ≡ s.events ++ (event ∷ []))
          × (event.payload ≡ input.payload)
          × (event.event_id ≡ input.event_id)
          × (event.sequence_no ≡ s.mission.last_event_sequence + 1))
      × (source.participant_agent_id ≡ input.actor_agent_id)
      × (assert_source s.mission.id s.deliveries input.assignments input.actor_agent_id source
            input.authorization
          ≡ ok tt)

  reduced-ok {κ} :
      {A : Type κ} (r : Result Coordinator.Error A) {a : A} → reduced r ≡ ok a → r ≡ ok a
  reduced-ok (ok b) {a} h = ap ok (ok-inj b a h)
  reduced-ok (err (Coordinator.invalid_event reason)) h = cc
  reduced-ok (err (Coordinator.invalid_transition fault)) h = cc
  reduced-ok (err Coordinator.schema_error) h = cc
  reduced-ok (err Coordinator.type_error) h = cc

  write_result-kept :
      (s : Store) (input : AppendInput) (source : Source) (current : State) (event : Event)
      {left : Store}
      → AreValid s
      → replay_mission_coordinator_events texts shapes s.mission.config s.events ≡ ok current
      → write_result texts shapes to_iso s input source current event ≡ ok left
      → IsProjected texts shapes left
        × AreValid left
        × (left.mission.config ≡ s.mission.config)
        × (left.events ≡ s.events ++ (event ∷ []))
  unfolding write_result
  write_result-kept s input source current event {left} valid replayed h =
      let (next, step, rest) =
        >>=-eq-ok (reduced (reduce_mission_coordinator_event shapes current event)) _ h in
      let (settled, settling, rest) =
        >>=-eq-ok (settle_source s.mission.id s.deliveries source next event input.recorded_at) _
          rest in
      let (targets, derived, rest) = >>=-eq-ok (derive_targets current next event) _ rest in
      let (rows, inserted, same) =
        >>=-eq-ok (insert_targets s.mission.id input event 0 targets settled) _ rest in
      subst
        (λ t.
          IsProjected texts shapes t
          × AreValid t
          × (t.mission.config ≡ s.mission.config)
          × (t.events ≡ s.events ++ (event ∷ [])))
        (ok-inj (appended_store s next event rows) left same)
        (
          (
            replay-extended texts shapes s.mission.config s.events event current next replayed
                (reduced-ok (reduce_mission_coordinator_event shapes current event) step),
            refl,
            refl,
          ),
          insert_targets-is_valid_row s.mission.id input event 0 targets settled
              (settle_source-is_valid_row s.mission.id s.deliveries source next event
                input.recorded_at valid settling)
              inserted,
          refl,
          refl,
        )

  current_state-ok :
      (s : Store) {current : State}
      → current_state texts shapes to_iso s ≡ ok current
      → (replay_mission_coordinator_events texts shapes s.mission.config s.events ≡ ok current)
        × (current.sequence_no ≡ s.mission.last_event_sequence)
  unfolding current_state
  current_state-ok s {current} h =
      let (stored_state, lifted_replay, rest) =
        >>=-eq-ok
          (lifted (replay_mission_coordinator_events texts shapes s.mission.config s.events)) _ h in
      let (agrees, same) =
        throw_if-ok
          (not (stored_state.sequence_no == s.mission.last_event_sequence)
            || not (stored_state == s.mission.state))
          (relay_error internal) _ rest in
      subst
        (λ t.
          (replay_mission_coordinator_events texts shapes s.mission.config s.events ≡ ok t)
          × (t.sequence_no ≡ s.mission.last_event_sequence))
        (ok-inj stored_state current same)
        (
          lifted-ok (replay_mission_coordinator_events texts shapes s.mission.config s.events)
              lifted_replay,
          ground arith,
        )

  append_from-IsAppended :
      (s : Store) (input : AppendInput) (source : Source) {left : Store}
      → AreValid s
      → append_from texts shapes to_iso s input source ≡ ok left
      → IsAppended s input source left
  unfolding append_from
  append_from-IsAppended s input source {left} valid h =
      let (own, rest) =
        throw_if-ok (not (source.participant_agent_id == input.actor_agent_id))
          (relay_error not_authorized_transition) _ h in
      let (current, at, rest) = >>=-eq-ok (current_state texts shapes to_iso s) _ rest in
      let (available, is_available, rest) =
        >>=-eq-ok
          (assert_source s.mission.id s.deliveries input.assignments input.actor_agent_id source
            input.authorization)
          _ rest in
      let (replayed, numbered) = current_state-ok s at in
      let event : Event = new_event to_iso s input current in
      let (projected, valid_on, same_config, logged) =
        write_result-kept s input source current event valid replayed rest in
      (
        projected,
        valid_on,
        same_config,
        (event, logged, refl, refl, ap (λ n. n + 1) numbered),
        ground (arith, beq→eq source.participant_agent_id input.actor_agent_id),
        is_available,
      )

  -- An accepted result of a Node adds one event to the log of its Mission, with the result, the
  -- identifier given for it and the next number, and leaves the Mission what its events reduce to and every delivery, the settled and the
  -- new ones included, within the checks of its table. It is accepted only before the Mission's
  -- deadline, without blocks among those involved, from the participant that it names, and for a
  -- delivery that the participant holds.
  pub append_result-projected :
      (s : Store) (input : AppendInput) {left : Store}
      → AreValid s
      → append_result texts shapes to_iso s input ≡ ok left
      → (leb s.mission.expires_at input.recorded_at ≡ false)
        × (assert_mission_trust input.created_by_agent_id
              s.mission.config.mission_context.manifest.participants input.blocks
            ≡ ok tt)
        × ((source : Source) × (source_of input.payload ≡ some source)
            × IsAppended s input source left)
  unfolding append_result
  append_result-projected s input {left} valid h =
      let (in_time, rest) =
        throw_if-ok (leb s.mission.expires_at input.recorded_at) (relay_error invalid_transition) _
          h in
      let (trusted, is_trusted, rest) =
        >>=-eq-ok
          (assert_mission_trust input.created_by_agent_id
            s.mission.config.mission_context.manifest.participants input.blocks)
          _ rest in
      (
        in_time,
        is_trusted,
        elim (Option-cases (source_of input.payload)) [
          | inl nothing ↦ ground (arith, rest)
          | inr (source, found) ↦ (
            source,
            found,
            append_from-IsAppended s input source {left = left} valid (ground (arith, rest)),
          )
        ],
      )
