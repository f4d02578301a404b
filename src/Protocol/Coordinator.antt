-- ===== src/Protocol/Coordinator.antt =====
-- protocol/src/mission-coordinator.ts: the coordinator that folds the events of a Mission into its
-- state.
pub mod Events
pub mod State
pub mod Apply
pub mod Turns
pub mod Verify
pub mod Reduce
pub mod Frame
pub mod Pair
pub mod Phase
pub mod Turning
pub mod Scheduling
pub mod Missions
pub mod Completion
pub mod Contract
pub mod Validity
pub mod Next
pub mod Log
pub mod Tests
pub mod Replay
