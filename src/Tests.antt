-- ===== src/Tests.antt =====
-- Runs of the code at concrete inputs, and each theorem applied where its hypotheses hold.
pub mod Fixture
pub mod Consume
pub mod Batch
pub mod Backends
pub mod Ids
pub mod Locks
pub mod Purge
pub mod Singly
pub mod Suite
pub mod Sessions
pub mod Deadlock
pub mod Kafka
