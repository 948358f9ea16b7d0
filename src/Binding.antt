-- ===== src/Binding.antt =====
-- The binding component (src/modules/binding): the lockout of wrong guesses, the bind flow and the
-- guard of customer data.
pub mod Types
pub mod Keys
pub mod RateLimiter
pub mod Pii
pub mod Tables
pub mod Env
pub mod Flow
pub mod Service
pub mod Register
pub mod Guard
pub mod Requests
mod FlowTests
mod Tests
