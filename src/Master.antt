-- ===== src/Master.antt =====
-- internal/master/master.go: the master without Raft, its nodes, files and chunks.
pub mod State
pub mod Alloc
pub mod Sizes
pub mod Nodes
pub mod Placement
pub mod Recovered
pub mod Steps
pub mod Roles
pub mod Health
pub mod Files
mod Tests
