-- ===== src/Version.antt =====
-- internal/version/version.go: vector clocks, leases, timestamps and versions of data.
pub mod Clock
pub mod Order
pub mod Lease
pub mod Window
pub mod Stamp
pub mod Data
pub mod Checker
mod Tests
