-- ===== src/Users.antt =====
-- The user aggregate (src/modules/auth/domain) and the repository that saves an aggregate with its
-- events (src/libs/shared/database/repositories/base-aggregate.repository.ts).
pub mod Types
pub mod Aggregate
pub mod Repository
mod Tests
