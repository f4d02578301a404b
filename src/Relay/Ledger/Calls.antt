-- ===== src/Relay/Ledger/Calls.antt =====
-- relay/src/services/delivery-ledger.ts: the calls of a Node on one delivery, as one operation.
use agent_relay.Prelude.{ℕ, String, Result, ok, ◌>>=◌}
use agent_relay.Protocol.Schemas.{Texts}
use agent_relay.Relay.Errors.{Error}
use agent_relay.Relay.Ledger.Row.{Row}
use agent_relay.Relay.Ledger.Rules.{Context}
use agent_relay.Relay.Ledger.Operations.{
  NodeCredential, LeaseInput, ReleaseInput, start_delivery, renew_delivery, release_delivery,
}
use agent_relay.Relay.Ledger.Claim.{claim_delivery}

-- The inputs of the calls on a lease other than a completion, with their fresh ids: of the receipt, and of the lease that a claim gives.
pub data Call : Type 0 where
  claim : String → String → String → Call
  start renew : LeaseInput → String → Call
  release : ReleaseInput → String → Call

module _ (texts : Texts) (to_iso : ℕ → String) (auth : NodeCredential) where
  -- The row that a call leaves.
  unfoldable pub perform : Context → Call → ℕ → Result Error Row
  perform c (Call.claim key lease_id receipt_id) now = do
    m ← claim_delivery texts to_iso auth c key lease_id receipt_id now
    ok m.row
  perform c (Call.start input receipt_id) now = do
    m ← start_delivery texts to_iso auth c input receipt_id now
    ok m.row
  perform c (Call.renew input receipt_id) now = do
    m ← renew_delivery texts to_iso auth c input receipt_id now
    ok m.row
  perform c (Call.release input receipt_id) now = do
    m ← release_delivery texts to_iso auth c input receipt_id now
    ok m.row
