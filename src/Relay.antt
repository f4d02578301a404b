-- ===== src/Relay.antt =====
-- The Relay's own decisions on what it stores.
pub mod Ledger
pub mod Errors
pub mod Missions
