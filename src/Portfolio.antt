-- ===== src/Portfolio.antt =====
-- The portfolio gate, monitor/portfolio_risk.py.
mod Tests
pub mod Gate
pub mod Admission
