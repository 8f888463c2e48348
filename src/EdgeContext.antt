-- ===== src/EdgeContext.antt =====
-- The edge context of signals: monitor/edge_context.py.
mod Tests
pub mod Cache
pub mod Kept
