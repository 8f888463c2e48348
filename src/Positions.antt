-- ===== src/Positions.antt =====
-- The position manager and the components that follow it: monitor/position_manager.py and
-- monitor/state_engine.py.
mod Tests
pub mod Model
pub mod Signal
pub mod Seen
pub mod Shadow
pub mod Manager
pub mod Engine
pub mod Calls
pub mod Change
pub mod Mirror
pub mod Books
pub mod Agree
pub mod Once
