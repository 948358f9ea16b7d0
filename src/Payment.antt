-- ===== src/Payment.antt =====
-- The payment component (src/modules/payment) with the idempotency of its webhook
-- (src/libs/shared/idempotency).
pub mod Idempotency
pub mod Ports
pub mod Service
mod Tests
