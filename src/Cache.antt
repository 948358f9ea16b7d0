-- ===== src/Cache.antt =====
-- The caching component (src/libs/shared/caching): the contract that its clients rely on, and the
-- in-memory service that implements it.
pub mod Contract
pub mod Glob
pub mod Memory
mod Tests
