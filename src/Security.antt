-- ===== src/Security.antt =====
-- src/libs/shared/security: the guards that bound how often a client asks (RateLimit) and
-- what it may do (Authorization).
pub mod RateLimit
pub mod Authorization
mod Tests
