-- ===== src/Relay/Missions.antt =====
-- relay/src/services/mission-reconciliation.ts and mission-ledger.ts: a Mission, its events, and its
-- deliveries.
pub mod Store
pub mod Reconcile
pub mod Ends
pub mod Targets
pub mod Work
pub mod Derived
pub mod Sources
pub mod Append
pub mod Appended
pub mod Completion
pub mod Complete
pub mod Acknowledged
pub mod Completed
pub mod Evidence
mod Tests
