-- ===== src/Erasure.antt =====
-- internal/erasure/erasure.go: shards with an exclusive-or parity, and replicas of shards.
pub mod Shards
pub mod Xor
pub mod Places
pub mod RoundTrip
pub mod Loss
pub mod Recover
mod Tests
