-- ===== src/DataNode.antt =====
-- internal/datanode/datanode.go: a data node, its storage, its handlers, and its recovery.
pub mod Storage
pub mod Contents
pub mod Replay
pub mod Handlers
pub mod Interface
pub mod Recovery
pub mod Durable
pub mod Sync
pub mod Forward
pub mod Restart
mod Tests
