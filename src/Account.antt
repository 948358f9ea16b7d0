-- ===== src/Account.antt =====
-- The account component (src/modules/account): the mock of the customer service that the bind flow
-- calls.
pub mod Phone
pub mod Seeds
pub mod MockClient
mod Tests
