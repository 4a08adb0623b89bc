-- ===== src/Identity/Devices.antt =====
-- Devices in internal/domain/identity/service.go: their registration, pairing, credentials and heartbeats.
-- The list of devices is left out. Instants and durations are microseconds, 0 a duration that is not
-- positive; an opaque secret or a code that crypto/rand yields is an argument, none where it fails.
pub mod Registration
pub mod Pairing
pub mod Credentials
