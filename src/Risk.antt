-- ===== src/Risk.antt =====
-- The risk engine: monitor/risk_engine.py, with the sizing of monitor/risk_sizing.py.
mod Tests
pub mod Sizing
pub mod Bounds
pub mod Engine
pub mod Exits
