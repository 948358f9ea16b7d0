-- ===== src/Resilience.antt =====
-- The circuit breaker (src/libs/shared/resilience).
pub mod Breaker
pub mod Execute
pub mod Retry
mod Tests
