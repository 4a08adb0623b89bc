-- ===== src/Analytics.antt =====
-- internal/domain/analytics: the arithmetic of instants and clocks.
mod Tests
pub mod Overlap
pub mod Clock
