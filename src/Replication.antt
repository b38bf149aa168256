-- ===== src/Replication.antt =====
-- internal/replication/replica_manager.go: what a data node knows of the replicas of its chunks, and
-- how it sends writes and reads on to the primary.
pub mod Manager
pub mod Proxy
pub mod Consistency
mod Tests
