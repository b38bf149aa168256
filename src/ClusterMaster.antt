-- ===== src/ClusterMaster.antt =====
-- internal/master/cluster_master.go: the master on top of Raft.
pub mod Handlers
pub mod Alloc
pub mod Picked
pub mod Applied
pub mod Refines
mod Tests
