-- ===== src/Bus.antt =====
-- The event bus in synchronous mode: `class EventBus` of monitor/event_bus.py.
mod Tests
pub mod State
pub mod Deliver
pub mod Emit
pub mod Frame
pub mod Once
pub mod Streams
pub mod Circuit
pub mod Lost
