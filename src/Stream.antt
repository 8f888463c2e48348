-- ===== src/Stream.antt =====
-- The stream monitor of monitor/event_bus.py.
mod Tests
pub mod Monitor
