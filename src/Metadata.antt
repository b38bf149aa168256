-- ===== src/Metadata.antt =====
-- internal/raft/state_machine.go: the metadata that the Raft log is applied to.
pub mod State
pub mod Queries
pub mod Ownership
pub mod Effects
mod Tests
