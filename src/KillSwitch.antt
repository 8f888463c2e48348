-- ===== src/KillSwitch.antt =====
-- The two kill switches: monitor/kill_switch.py and lifecycle/kill_switch.py.
mod Tests
pub mod Strategy
pub mod Halts
pub mod Satellite
