-- ===== src/Ports.antt =====
-- The registry through which every downstream service is called (src/libs/shared/port), with its
-- cache, circuit breakers, fallback and queue.
pub mod Types
pub mod Fallback
pub mod Methods
pub mod Registry
pub mod Degraded
pub mod Success
pub mod Execute
pub mod Sample
mod Tests
