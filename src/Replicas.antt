-- ===== src/Replicas.antt =====
-- internal/master/replica_manager.go: the replicas of chunks when a data node goes offline.
pub mod Manager
pub mod Primary
mod Tests
