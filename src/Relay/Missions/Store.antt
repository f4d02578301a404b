-- ===== src/Relay/Missions/Store.antt =====
-- relay/src/db/schema.ts: what the Relay stores of one Mission, with the deliveries and receipts. An
-- event stands for its row, by `eventFromRow`. The deliveries are in the order of their cursors.
use agent_relay.Prelude.{ℕ, String, List, Equatable, eq_of_discrete, String-discrete, ℕ_discrete}
use agent_relay.Protocol.Schemas.{MissionStatus}
use agent_relay.Protocol.Records.{
  ArtifactRef-discrete, ContractRevision-discrete, Message-discrete, VerificationEvidence-discrete,
  MissionContext,
}
use agent_relay.Protocol.Coordinator.Events.{Event, Event-discrete}
use agent_relay.Protocol.Coordinator.State.{State, Config}
use agent_relay.Relay.Ledger.Row.{Row}
use agent_relay.Relay.Ledger.Receipts.{ReceiptRow}

-- `missions`, the columns that the reconciliation reads or writes
pub record Mission : Type 0 where
  pub id : String
  pub config : Config
  pub state : State
  pub status : MissionStatus
  pub last_event_sequence : ℕ
  pub contract_version : ℕ
  pub expires_at : ℕ

pub record Store : Type 0 where
  pub mission : Mission
  pub events : List Event
  pub deliveries : List Row
  pub receipts : List ReceiptRow

unfoldable pub MissionStatus-discrete : Discrete MissionStatus
MissionStatus-discrete = hlevel

unfoldable pub MissionContext-discrete : Discrete MissionContext
MissionContext-discrete = hlevel (String-discrete, ℕ_discrete, ArtifactRef-discrete)

unfoldable pub State-discrete : Discrete State
State-discrete = hlevel (
  String-discrete, ℕ_discrete, ArtifactRef-discrete, ContractRevision-discrete, Message-discrete,
  VerificationEvidence-discrete, Event-discrete, MissionContext-discrete, MissionStatus-discrete,
)

-- `isDeepStrictEqual` on states
instance abbrev pub state_eq : Equatable State
state_eq = eq_of_discrete State-discrete
