-- ===== src/Realtime.antt =====
-- internal/realtime: the connections that hear of operational events.
mod Tests
pub mod Hub
pub mod Sync
