-- ===== src/Router.antt =====
-- The smart router, monitor/smart_router.py.
mod Tests
pub mod Health
pub mod Circuit
pub mod Route
pub mod Kept
pub mod Routing
pub mod Split
