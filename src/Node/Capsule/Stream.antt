-- ===== src/Node/Capsule/Stream.antt =====
-- protocol/src/adapter.ts: `acceptHostEvent` under the default policy, on the kinds of events that a
-- stored turn of a Capsule holds.
use Prim.Native.String.{◌++◌ as text_append}
use agent_relay.Prelude.{
  ℕ, ◌+◌, String, Bool, true, false, not, ◌&&◌, ◌||◌, Option, none, some, List, [], ◌∷◌, ◌++◌, ◌==◌,
  Equatable, eq_of_discrete, nat_eq, string_eq, bool_eq, includes, some_in, ltb, length, Result, ok,
  ◌>>=◌, ◌>>◌, throw_if, if◌then◌else◌,
}
use agent_relay.Protocol.Records.{
  ArtifactRef, ArtifactRef-discrete, VerificationEvidence, TurnDisposition,
}
use agent_relay.Protocol.Receipts.{is_some}
use agent_relay.Node.Capsule.Types.{TurnRef, Usage, Outcome, EventKind, HostEvent, turn_ref_eq}

instance abbrev artifact_eq : Equatable ArtifactRef
artifact_eq = eq_of_discrete ArtifactRef-discrete

pub data StreamPhase : Type 0 where
  awaiting_acceptance active terminal : StreamPhase

-- The reasons of `InvalidHostEventStreamError`, those that the default policy can give.
pub data StreamError : Type 0 where
  sequence acceptance turn_mismatch terminal event_limit output_limit : StreamError
  artifact_limit usage_limit usage_regression usage_missing : StreamError

-- `HostEventStreamState`; a key stands for its artifact, and the expected turn has no identifier.
pub record Stream : Type 0 where
  pub phase : StreamPhase
  pub last_sequence : ℕ
  pub output_bytes : ℕ
  pub artifact_keys : List ArtifactRef
  pub artifact_bytes : ℕ
  pub usage : Option Usage
  pub turn : Option TurnRef
  pub expected_turn : TurnRef

-- `DEFAULT_HOST_EVENT_STREAM_POLICY`
abbrev pub max_events : ℕ
max_events = 256

abbrev pub max_output_bytes : ℕ
max_output_bytes = 262144

abbrev pub max_artifacts : ℕ
max_artifacts = 16

abbrev pub max_artifact_bytes : ℕ
max_artifact_bytes = 16777216

abbrev pub max_tokens : ℕ
max_tokens = 100000000

-- `createHostEventStreamState`
unfoldable pub create_stream : TurnRef → Stream
create_stream expected = record {
  phase = StreamPhase.awaiting_acceptance;
  last_sequence = 0;
  output_bytes = 0;
  artifact_keys = [];
  artifact_bytes = 0;
  usage = none;
  turn = none;
  expected_turn = expected;
}

abbrev pub is_awaiting : StreamPhase → Bool
is_awaiting StreamPhase.awaiting_acceptance = true
is_awaiting phase = false

abbrev pub is_ended : StreamPhase → Bool
is_ended StreamPhase.terminal = true
is_ended phase = false

abbrev pub is_acceptance : EventKind → Bool
is_acceptance EventKind.accepted = true
is_acceptance kind = false

abbrev pub is_end : EventKind → Bool
is_end (EventKind.terminal outcome) = true
is_end kind = false

-- `matchesExpectedHostTurn`, where no identifier is expected
unfoldable pub matches_expected : TurnRef → TurnRef → Bool
matches_expected expected received =
    expected.session_id == received.session_id
    && expected.mission_id == received.mission_id
    && expected.delivery_id == received.delivery_id
    && expected.execution_attempt == received.execution_attempt
    && expected.contract_version == received.contract_version

abbrev pub artifacts_of_all : List VerificationEvidence → List ArtifactRef
artifacts_of_all [] = []
artifacts_of_all (e ∷ es) = e.artifacts ++ artifacts_of_all es

abbrev pub listed : Option (List ArtifactRef) → List ArtifactRef
listed none = []
listed (some artifacts) = artifacts

-- `artifactsInHostEvent`
unfoldable pub artifacts_in : EventKind → List ArtifactRef
artifacts_in (EventKind.terminal (Outcome.completed disposition)) = elim disposition [
  | TurnDisposition.reply type body artifacts ↦ listed artifacts
  | TurnDisposition.propose_contract artifact ↦ artifact ∷ []
  | TurnDisposition.ready evidence ↦ artifacts_of_all evidence
  | _ ↦ []
]
artifacts_in kind = []

-- The loop over the artifacts: the keys that are known, and the bytes of their artifacts.
unfoldable pub add_artifacts : List ArtifactRef × ℕ → List ArtifactRef → List ArtifactRef × ℕ
add_artifacts known [] = known
add_artifacts known (a ∷ artifacts) =
    add_artifacts
      (if includes known.0 a then known else (known.0 ++ (a ∷ []), known.1 + a.byte_size)) artifacts

-- `byte_length` is `Buffer.byteLength`.
module _ (byte_length : String → ℕ) where
  abbrev pub summary_bytes : List VerificationEvidence → ℕ
  summary_bytes [] = 0
  summary_bytes (e ∷ es) = byte_length e.summary + summary_bytes es

  abbrev pub blocked_bytes : String → Option String → ℕ
  blocked_bytes reason none = byte_length reason
  blocked_bytes reason (some requested) = byte_length (text_append reason requested)

  -- `textBytesInHostEvent`
  unfoldable pub text_bytes : EventKind → ℕ
  text_bytes (EventKind.terminal (Outcome.failed failure)) = byte_length failure.message
  text_bytes (EventKind.terminal (Outcome.completed disposition)) = elim disposition [
    | TurnDisposition.reply type body artifacts ↦ byte_length body
    | TurnDisposition.blocked reason requested ↦ blocked_bytes reason requested
    | TurnDisposition.ready evidence ↦ summary_bytes evidence
    | _ ↦ 0
  ]
  text_bytes kind = 0

  abbrev pub regresses : Option Usage → Usage → Bool
  regresses (some (Usage.reported old_in old_out)) (Usage.reported new_in new_out) =
      ltb new_in old_in || ltb new_out old_out
  regresses (some (Usage.reported old_in old_out)) (Usage.unavailable reason) = true
  regresses used next = false

  abbrev pub exceeds_tokens : Usage → Bool
  exceeds_tokens (Usage.reported tokens_in tokens_out) = ltb max_tokens (tokens_in + tokens_out)
  exceeds_tokens (Usage.unavailable reason) = false

  -- The usage behind an event.
  unfoldable pub next_usage : Option Usage → EventKind → Result StreamError (Option Usage)
  next_usage used (EventKind.usage next) = do
    throw_if (exceeds_tokens next) StreamError.usage_limit
    throw_if (regresses used next) StreamError.usage_regression
    ok (some next)
  next_usage used kind = ok used

  -- `acceptHostEvent`
  unfoldable pub accept_host_event : Stream → HostEvent → Result StreamError Stream
  accept_host_event s event = do
    throw_if (not (event.sequence == s.last_sequence + 1)) StreamError.sequence
    throw_if (not (is_awaiting s.phase == is_acceptance event.kind)) StreamError.acceptance
    throw_if (is_awaiting s.phase && not (matches_expected s.expected_turn event.turn))
        StreamError.turn_mismatch
    throw_if (is_ended s.phase) StreamError.terminal
    throw_if (not (is_awaiting s.phase) && not (some_in s.turn event.turn))
        StreamError.turn_mismatch
    throw_if (ltb max_events event.sequence) StreamError.event_limit
    let output_bytes : ℕ = s.output_bytes + text_bytes event.kind
    throw_if (ltb max_output_bytes output_bytes) StreamError.output_limit
    let known : List ArtifactRef × ℕ =
        add_artifacts (s.artifact_keys, s.artifact_bytes) (artifacts_in event.kind)
    throw_if (ltb max_artifacts (length known.0) || ltb max_artifact_bytes known.1)
        StreamError.artifact_limit
    usage ← next_usage s.usage event.kind
    throw_if (is_end event.kind && not (is_some usage)) StreamError.usage_missing
    ok (record {
      phase = if is_end event.kind then StreamPhase.terminal else StreamPhase.active;
      last_sequence = event.sequence;
      output_bytes = output_bytes;
      artifact_keys = known.0;
      artifact_bytes = known.1;
      usage = usage;
      turn = if is_some s.turn then s.turn else some event.turn;
      expected_turn = s.expected_turn;
    })

  -- The loop of `validateTurnEvents`
  unfoldable pub run_stream : Stream → List HostEvent → Result StreamError Stream
  run_stream s [] = ok s
  run_stream s (event ∷ events) = accept_host_event s event >>= λ next. run_stream next events
