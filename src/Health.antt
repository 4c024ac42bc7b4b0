-- ===== src/Health.antt =====
-- crates/rginx-http/src/proxy/health/registry: the health of upstream peers, and the choice of the
-- peers to try. Times are milliseconds on one clock; a lock makes each operation atomic.
pub mod State
pub mod Registry
pub mod Selection
pub mod Snapshot
mod Tests
mod RegistryTests
