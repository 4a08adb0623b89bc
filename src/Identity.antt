-- ===== src/Identity.antt =====
-- Members of organisations and locations: internal/domain/identity/memberships.go, with the parts of
-- service.go in the same directory that it uses.
pub mod Tests
pub mod Schema
pub mod Transaction
pub mod Queries
pub mod Secrets
pub mod DeviceQueries
pub mod CredentialQueries
pub mod Updates
pub mod Memberships
pub mod Devices
pub mod Sessions
pub mod Access
pub mod Management
pub mod Calls
pub mod Ownership
pub mod Keeps
pub mod Permission
pub mod Owners
