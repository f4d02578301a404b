-- ===== src/Relay/Ledger.antt =====
-- relay/src/services/delivery-ledger.ts: the operations of a Node on one of its deliveries.
pub mod Row
pub mod Rules
pub mod Operations
pub mod Receipts
pub mod Claim
pub mod Machine
pub mod Steps
pub mod Claiming
pub mod ClaimRuns
pub mod Calls
pub mod Kept
pub mod Guards
pub mod Requests
pub mod Answers
pub mod Answering
pub mod Replays
pub mod Refines
pub mod Fencing
mod Tests
