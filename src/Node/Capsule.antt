-- ===== src/Node/Capsule.antt =====
-- node/src/codex-capsule-*.ts: the durable record of the turns that one runtime session executes.
pub mod Types
pub mod Stream
pub mod State
pub mod Transitions
pub mod Closing
pub mod Calls
pub mod Store
pub mod Continues
pub mod Changes
pub mod Turns
pub mod Validity
pub mod Once
pub mod Runs
pub mod Ends
pub mod Tests
