-- ===== src/Protocol.antt =====
-- The protocol package (protocol/src): the schemas, the state machines and the Mission coordinator.
pub mod Schemas
pub mod Records
pub mod Mission
pub mod Delivery
pub mod Receipts
pub mod Snapshot
pub mod Results
pub mod Coordinator
