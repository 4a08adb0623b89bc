-- ===== src/Outbox.antt =====
-- internal/outbox: the worker that takes rows of the outbox and gives them to their consumers.
mod Tests
mod Scenarios
pub mod Claim
pub mod Backoff
pub mod Steps
pub mod Worker
pub mod Pool
