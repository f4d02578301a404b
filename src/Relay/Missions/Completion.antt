-- ===== src/Relay/Missions/Completion.antt =====
-- relay/src/services/delivery-ledger.ts: `buildCompletionEvents`, the results that a completed delivery
-- gives its Mission.
use agent_relay.Prelude.{
  ℕ, ◌+◌, String, Bool, not, ◌&&◌, ◌||◌, Option, none, some, List, [], ◌∷◌, ◌==◌, nat_eq, string_eq,
  includes, any, length, map, if◌then◌else◌, Result, ok, err, ◌>>=◌, ◌>>◌, throw_if,
}
use agent_relay.Protocol.Schemas.{DeliveryKind, turn, verification, contract_acknowledgement}
use agent_relay.Protocol.Receipts.{LeaseAuthority}
use agent_relay.Protocol.Records.{ContractRevision, Message, VerificationEvidence, TurnDisposition}
use agent_relay.Protocol.Coordinator.Events.{Payload, set_size, is_valid_payload}
use agent_relay.Protocol.Coordinator.State.{State, commands_of}
use agent_relay.Protocol.Coordinator.Apply.{Shapes}
use agent_relay.Protocol.Coordinator.Reduce.{are_valid_parts}
use agent_relay.Relay.Errors.{Error, relay_error, invalid_params, invalid_transition}
use agent_relay.Relay.Ledger.Row.{Row}
use agent_relay.Relay.Missions.Reconcile.{or_else}
use agent_relay.Relay.Missions.Sources.{Assignment, same_kind}

-- `nodeDeliveryResultPayloadSchema`
pub data CompletionResult : Type 0 where
  turn_result : TurnDisposition → CompletionResult
  acknowledgement_result : CompletionResult
  verification_result : List VerificationEvidence → CompletionResult

-- A completion: the Node's input and credential, what the queries find, and the fresh identifiers. The
-- results of one completion are numbered from 0.
pub record CompleteInput : Type 0 where
  pub agent_id : String
  pub node_id : String
  pub authority : LeaseAuthority
  pub result : CompletionResult
  pub created_by_agent_id : String
  pub blocks : List (String × String)
  pub assignments : List Assignment
  pub message_id : String
  pub message_key : String
  pub revision_id : String
  pub revision_key : String
  pub event_keys : ℕ → String
  pub event_ids : ℕ → String
  pub delivery_ids : ℕ → ℕ → String
  pub next_cursors : ℕ → ℕ
  pub inserted_at : ℕ

-- The kind of delivery whose result this is.
abbrev pub completed_kind : CompletionResult → DeliveryKind
completed_kind (turn_result disposition) = turn
completed_kind acknowledgement_result = contract_acknowledgement
completed_kind (verification_result evidence) = verification

-- `state.messages.at(-1)?.message_id ?? null`
unfoldable pub last_message_id : List Message → Option String
last_message_id [] = none
last_message_id (m ∷ ms) = some (or_else (last_message_id ms) m.message_id)

module _ (to_iso : ℕ → String) where
  abbrev pub message_for : State → Row → CompleteInput → ℕ → TurnDisposition → Option Message
  message_for state r input now (TurnDisposition.reply type body artifacts) = some (record {
    message_id = input.message_id;
    mission_id = r.mission_id;
    sequence_no = length state.messages + 1;
    author_agent_id = input.agent_id;
    type = type;
    body = body;
    artifacts = or_else artifacts [];
    contract_version = r.contract_version;
    idempotency_key = input.message_key;
    causal_parent_message_id = last_message_id state.messages;
    created_at = to_iso now;
  })
  message_for state r input now disposition = none

  abbrev pub revision_for : Row → CompleteInput → ℕ → TurnDisposition → Option ContractRevision
  revision_for r input now (TurnDisposition.propose_contract artifact) = some (record {
    revision_id = input.revision_id;
    mission_id = r.mission_id;
    previous_version = r.contract_version;
    version = r.contract_version + 1;
    artifact = artifact;
    proposed_by_agent_id = input.agent_id;
    acknowledged_by_agent_ids = [];
    idempotency_key = input.revision_key;
    created_at = to_iso now;
  })
  revision_for r input now disposition = none

abbrev pub command_of : VerificationEvidence → String
command_of evidence = evidence.command_id

-- `evidenceByCommand.get(commandId)`: the last entry of a command stands in the Map.
unfoldable pub evidence_for : List VerificationEvidence → String → Option VerificationEvidence
evidence_for [] command_id = none
evidence_for (e ∷ es) command_id = latest (evidence_for es command_id)
  where
    latest : Option VerificationEvidence → Option VerificationEvidence
    latest (some later) = some later
    latest none = if e.command_id == command_id then some e else none

-- `has_append_shape` stands for the single-field checks of `missionCoordinatorAppendInputSchema`.
module _ (shapes : Shapes) (has_append_shape : Payload → Bool) (to_iso : ℕ → String) where
  -- `parseCompletionAppendInput`
  unfoldable pub parse_completion : Payload → Result Error Payload
  parse_completion payload = do
    throw_if
        (not
          (has_append_shape payload && are_valid_parts shapes payload && is_valid_payload payload))
        (relay_error invalid_params)
    ok payload

  -- The result of one command; an entry that is missing fails the checks.
  abbrev pub verification_payload :
      Row → CompleteInput → ℕ → Option VerificationEvidence → Result Error Payload
  verification_payload r input round none = err (relay_error invalid_params)
  verification_payload r input round (some found) = parse_completion (
      Payload.verification_recorded (record {
        participant_agent_id = input.agent_id;
        delivery_id = r.id;
        contract_version = r.contract_version;
        verification_round = round;
        evidence = found;
      }))

  -- `orderedEvidence.map(…)`
  unfoldable pub verification_payloads :
      Row
      → CompleteInput
      → ℕ
      → List VerificationEvidence
      → List String
      → Result Error (List Payload)
  verification_payloads r input round evidence [] = ok []
  verification_payloads r input round evidence (command_id ∷ commands) = do
    payload ← verification_payload r input round (evidence_for evidence command_id)
    rest ← verification_payloads r input round evidence commands
    ok (payload ∷ rest)

  -- The evidence of exactly the required commands.
  abbrev pub required_events :
      Row
      → CompleteInput
      → List VerificationEvidence
      → Option ℕ
      → Option (List String)
      → Result Error (List Payload)
  required_events r input evidence none commands = err (relay_error invalid_transition)
  required_events r input evidence (some round) none = err (relay_error invalid_transition)
  required_events r input evidence (some round) (some required) = do
    throw_if
        (not (set_size (map command_of evidence) == length required)
          || any (λ command_id. not (includes (map command_of evidence) command_id)) required)
        (relay_error invalid_params)
    verification_payloads r input round evidence required

  unfoldable pub verification_events :
      State → Row → CompleteInput → List VerificationEvidence → Result Error (List Payload)
  verification_events state r input evidence =
      required_events r input evidence r.verification_round
        (commands_of state.required_verification_commands input.agent_id)

  abbrev pub events_of :
      State → Row → CompleteInput → ℕ → CompletionResult → Result Error (List Payload)
  events_of state r input now (turn_result disposition) = do
    payload ← parse_completion (
        Payload.turn_completed (record {
          participant_agent_id = input.agent_id;
          delivery_id = r.id;
          contract_version = r.contract_version;
          disposition = disposition;
          message = message_for to_iso state r input now disposition;
          revision = revision_for to_iso r input now disposition;
        }))
    ok (payload ∷ [])
  events_of state r input now acknowledgement_result = elim (state.pending_revision) [
    | none ↦ err (relay_error invalid_transition)
    | some pending ↦ do
      payload ← parse_completion (
          Payload.contract_acknowledged (record {
            participant_agent_id = input.agent_id;
            delivery_id = r.id;
            revision_id = pending.revision_id;
            contract_version = r.contract_version;
            artifact = pending.artifact;
          }))
      ok (payload ∷ [])
  ]
  events_of state r input now (verification_result evidence) =
      verification_events state r input evidence

  -- `buildCompletionEvents`
  unfoldable pub build_completion_events :
      State → Row → CompleteInput → ℕ → Result Error (List Payload)
  build_completion_events state r input now = do
    throw_if (not (same_kind r.kind (completed_kind input.result))) (relay_error invalid_params)
    events_of state r input now input.result
