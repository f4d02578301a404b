-- ===== src/Relay/Missions/Evidence.antt =====
-- relay/src/services/delivery-ledger.ts: the evidence that `buildCompletionEvents` takes.
use mathlib.Core.Path.{subst}
use agent_relay.Prelude.{
  ℕ, ◌≡◌, refl, ap, sym, ◌∙◌, String, Bool, true, false, not, ◌&&◌, ◌||◌, Option, none, some, List,
  [], ◌∷◌, ◌++◌, every, arith, ok, ◌==◌, string_eq, nat_eq, any, includes, length, map, >>=-eq-ok,
  throw_if-ok, ok-inj, Option-cases, inl, inr, beq→eq,
}
use agent_relay.Protocol.Records.{VerificationEvidence}
use agent_relay.Protocol.Coordinator.Events.{Payload, set_size, is_valid_payload}
use agent_relay.Protocol.Coordinator.State.{State, commands_of}
use agent_relay.Protocol.Coordinator.Apply.{Shapes}
use agent_relay.Protocol.Coordinator.Reduce.{are_valid_parts}
use agent_relay.Relay.Errors.{relay_error, invalid_params}
use agent_relay.Relay.Ledger.Row.{Row}
use agent_relay.Relay.Missions.Sources.{same_kind}
use agent_relay.Relay.Missions.Completion.{
  CompleteInput, verification_result, completed_kind, command_of, evidence_for, parse_completion,
  verification_payload, verification_payloads, required_events, verification_events, events_of,
  build_completion_events,
}

-- The result that records a piece of evidence.
abbrev pub records : Row → CompleteInput → ℕ → VerificationEvidence → Payload
records r input round evidence = Payload.verification_recorded (record {
  participant_agent_id = input.agent_id;
  delivery_id = r.id;
  contract_version = r.contract_version;
  verification_round = round;
  evidence = evidence;
})

evidence_for-command_of :
    (evidence : List VerificationEvidence) (command_id : String) {found : VerificationEvidence}
    → evidence_for evidence command_id ≡ some found
    → found.command_id ≡ command_id
unfolding evidence_for
evidence_for-command_of [] command_id h = ground arith
evidence_for-command_of (e ∷ es) command_id {found} h =
    elim (Option-cases (evidence_for es command_id)) [
      | inr (later, stands) ↦ ground (arith, evidence_for-command_of es command_id stands)
      | inl nothing ↦ ground (arith, beq→eq e.command_id command_id)
    ]

evidence_for-none :
    (evidence : List VerificationEvidence) (command_id : String)
    → evidence_for evidence command_id ≡ none
    → every (λ e. not (e.command_id == command_id)) evidence ≡ true
unfolding evidence_for
evidence_for-none [] command_id h = refl
evidence_for-none (e ∷ es) command_id h = elim (Option-cases (evidence_for es command_id)) [
  | inr (later, stands) ↦ ground arith
  | inl nothing ↦ ground (arith, evidence_for-none es command_id nothing)
]

-- A piece of the submitted evidence, the last one of its command.
abbrev pub IsSubmitted : List VerificationEvidence → VerificationEvidence → Type 0
IsSubmitted evidence found =
    (before after : List VerificationEvidence) × (evidence ≡ before ++ (found ∷ after))
    × (every (λ e. not (e.command_id == found.command_id)) after ≡ true)

evidence_for-IsSubmitted :
    (evidence : List VerificationEvidence) (command_id : String) {found : VerificationEvidence}
    → evidence_for evidence command_id ≡ some found
    → IsSubmitted evidence found
unfolding evidence_for
evidence_for-IsSubmitted [] command_id h = absurd (ground arith)
evidence_for-IsSubmitted (e ∷ es) command_id {found} h =
    elim (Option-cases (evidence_for es command_id)) [
      | inr (later, stands) ↦
          let (before, after, split, last) =
            evidence_for-IsSubmitted es command_id {found = found} (ground arith) in
          (e ∷ before, after, ap (λ (rest : List VerificationEvidence). e ∷ rest) split, last)
      | inl nothing ↦ subst (IsSubmitted (e ∷ es)) {x = e} {y = found} (ground arith) (
        [],
        es,
        refl,
        subst (λ id. every (λ x. not (x.command_id == id)) es ≡ true)
            (sym (beq→eq e.command_id command_id (ground arith)))
            (evidence_for-none es command_id nothing),
      )
    ]

abbrev pub AreSubmitted : List VerificationEvidence → List VerificationEvidence → Type 0
AreSubmitted evidence [] = Unit {0}
AreSubmitted evidence (found ∷ rest) = IsSubmitted evidence found × AreSubmitted evidence rest

module _ (shapes : Shapes) (has_append_shape : Payload → Bool) (to_iso : ℕ → String) where
  verification_payload-records :
      (r : Row) (input : CompleteInput) (round : ℕ) (stands : Option VerificationEvidence)
      {payload : Payload}
      → verification_payload shapes has_append_shape to_iso r input round stands ≡ ok payload
      → (found : VerificationEvidence) × (stands ≡ some found)
        × (payload ≡ records r input round found)
  unfolding parse_completion
  verification_payload-records r input round none h = cc
  verification_payload-records r input round (some found) {payload} h =
      let payload_of_found : Payload = records r input round found in
      let (accepted, same) =
        throw_if-ok
          (not (
            has_append_shape payload_of_found
            && are_valid_parts shapes payload_of_found
            && is_valid_payload payload_of_found))
          (relay_error invalid_params) _ h in
      (found, refl, sym (ok-inj payload_of_found payload same))

  verification_payloads-in_order :
      (r : Row) (input : CompleteInput) (round : ℕ) (evidence : List VerificationEvidence)
      (commands : List String) {payloads : List Payload}
      → verification_payloads shapes has_append_shape to_iso r input round evidence commands
        ≡ ok payloads
      → (ordered : List VerificationEvidence) × (payloads ≡ map (records r input round) ordered)
        × (map command_of ordered ≡ commands)
        × AreSubmitted evidence ordered
  unfolding verification_payloads
  verification_payloads-in_order r input round evidence [] {payloads} h =
      ([], sym (ok-inj [] payloads h), refl, tt)
  verification_payloads-in_order r input round evidence (command_id ∷ commands) {payloads} h =
      let (payload, first, rest) =
        >>=-eq-ok
          (verification_payload shapes has_append_shape to_iso r input round
            (evidence_for evidence command_id))
          _ h in
      let (more, later, same) =
        >>=-eq-ok
          (verification_payloads shapes has_append_shape to_iso r input round evidence commands) _
          rest in
      let (found, stands, records_found) =
        verification_payload-records r input round (evidence_for evidence command_id) first in
      let (ordered, records_more, in_order, submitted) =
        verification_payloads-in_order r input round evidence commands later in
      (
        found ∷ ordered,
        sym (ok-inj (payload ∷ more) payloads same)
            ∙ ap (λ p. p ∷ more) records_found
            ∙ ap (λ (ps : List Payload). records r input round found ∷ ps) records_more,
        ap (λ c. c ∷ map command_of ordered) (evidence_for-command_of evidence command_id stands)
            ∙ ap (λ (cs : List String). command_id ∷ cs) in_order,
        (evidence_for-IsSubmitted evidence command_id stands, submitted),
      )

  -- The results record the evidence of the required commands, in their order.
  abbrev pub AreExact :
      Row
      → CompleteInput
      → List VerificationEvidence
      → List Payload
      → Option ℕ
      → Option (List String)
      → Type 0
  AreExact r input evidence payloads on_round commands =
      (round : ℕ) × (required : List String) × (ordered : List VerificationEvidence) × (on_round
        ≡ some round)
      × (commands ≡ some required)
      × (payloads ≡ map (records r input round) ordered)
      × (map command_of ordered ≡ required)
      × AreSubmitted evidence ordered
      × (set_size (map command_of evidence) ≡ length required)

  required_events-AreExact :
      (r : Row) (input : CompleteInput) (evidence : List VerificationEvidence) (on_round : Option ℕ)
      (commands : Option (List String)) {payloads : List Payload}
      → required_events shapes has_append_shape to_iso r input evidence on_round commands
        ≡ ok payloads
      → AreExact r input evidence payloads on_round commands
  required_events-AreExact r input evidence none commands h = cc
  required_events-AreExact r input evidence (some round) none h = cc
  required_events-AreExact r input evidence (some round) (some required) {payloads} h =
      let as_many : Bool = set_size (map command_of evidence) == length required in
      let missing : Bool =
        any (λ command_id. not (includes (map command_of evidence) command_id)) required in
      let (exact, rest) = throw_if-ok (not as_many || missing) (relay_error invalid_params) _ h in
      let (ordered, recorded, in_order, submitted) =
        verification_payloads-in_order r input round evidence required rest in
      (
        round,
        required,
        ordered,
        refl,
        refl,
        recorded,
        in_order,
        submitted,
        beq→eq (set_size (map command_of evidence)) (length required)
            (neither as_many missing exact),
      )
    where
      neither : (a b : Bool) → (not a || b) ≡ false → a ≡ true
      neither a b h = ground arith

  -- A completion of a verification is accepted only with evidence of exactly the commands that the
  -- Mission requires of the participant: its results record, for each required command and in their
  -- order, the submitted evidence of the command as it was submitted, the last where there are several,
  -- in the delivery's round; and the submitted evidence is of as many commands as are required.
  pub build_completion_events-exact :
      (state : State) (r : Row) (input : CompleteInput) (now : ℕ)
      (evidence : List VerificationEvidence) {payloads : List Payload}
      → input.result ≡ verification_result evidence
      → build_completion_events shapes has_append_shape to_iso state r input now ≡ ok payloads
      → AreExact r input evidence payloads r.verification_round
          (commands_of state.required_verification_commands input.agent_id)
  unfolding build_completion_events verification_events
  build_completion_events-exact state r input now evidence {payloads} verified h =
      let (right_kind, rest) =
        throw_if-ok (not (same_kind r.kind (completed_kind input.result)))
          (relay_error invalid_params) _ h in
      required_events-AreExact r input evidence r.verification_round
        (commands_of state.required_verification_commands input.agent_id)
        (subst
          (λ result.
            events_of shapes has_append_shape to_iso state r input now result ≡ ok payloads)
          verified rest)
