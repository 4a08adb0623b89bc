-- ===== src/Identity/Sessions.antt =====
-- Web sessions in internal/domain/identity/service.go. Instants and durations are microseconds, 0 a
-- duration that is not positive; the secret that crypto/rand yields is an argument, none where it
-- fails. Each transaction of an operation has its own connection: `envs n` is that of the nth.
pub mod Queries
pub mod Operations
