-- ===== src/Raft/Cluster.antt =====
-- internal/raft/raft.go: a cluster of nodes whose goroutines and messages interleave in any order.
mod Defs
pub mod Terms
pub mod Votes
pub mod Steps
pub mod Safety
unfoldable pub use Defs.*
