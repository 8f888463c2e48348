-- ===== src/Options.antt =====
-- The risk gate of the options engine, options/risk.py.
mod Tests
pub mod RiskGate
pub mod Budget
pub mod Lockout
