-- ===== src/Wal.antt =====
-- internal/wal/wal.go: the write-ahead log of a data node.
pub mod Log
pub mod Reading
pub mod Appending
mod Tests
