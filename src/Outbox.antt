-- ===== src/Outbox.antt =====
-- The transactional outbox (src/libs/shared/database/outbox, src/libs/core/infrastructure/outbox).
pub mod Repository
pub mod Processor
pub mod Instances
mod Tests
