-- ===== src/Node.antt =====
-- The Node's own state: the record of its runtime's turns.
pub mod Capsule
pub mod Queue
