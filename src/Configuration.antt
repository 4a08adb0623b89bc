-- ===== src/Configuration.antt =====
-- The floors of a location: internal/domain/configuration/service.go.
mod Tests
pub mod Transaction
pub mod Queries
pub mod Floors
pub mod Cases
pub mod Register
pub mod Stale
