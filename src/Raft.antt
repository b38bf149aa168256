-- ===== src/Raft.antt =====
-- internal/raft/raft.go: one Raft node (its data, elections, log replication, commit and apply), and
-- a cluster of nodes that exchange messages.
pub mod Types
pub mod Log
pub mod Election
pub mod Append
pub mod Commit
pub mod Keeps
pub mod Terms
pub mod Cluster
mod Samples
mod Tests
