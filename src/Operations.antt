-- ===== src/Operations.antt =====
-- internal/domain/operations: tables, their sessions and assists, changed by commands.
mod Samples
mod Scenarios
mod Tests
pub mod Errors
pub mod Queries
pub mod Events
pub mod Commands
pub mod Tables
pub mod Assists
pub mod Service
