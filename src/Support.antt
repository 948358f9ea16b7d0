-- ===== src/Support.antt =====
-- The customer chat of src/modules/support: a message is kept first and forwarded later (Outbox), and
-- shown with the thread (Conversation).
pub mod Outbox
pub mod Conversation
mod Tests
