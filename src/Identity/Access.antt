-- ===== src/Identity/Access.antt =====
-- Sequences of calls on the devices and web sessions of internal/domain/identity/service.go.
mod Tests
pub mod Later
pub mod Statements
pub mod DeviceKeeps
pub mod SessionKeeps
pub mod Calls
pub mod Kept
pub mod Returns
pub mod Revoked
pub mod Spent
pub mod SignedOut
pub mod Denied
pub mod Ready
pub mod Paired
