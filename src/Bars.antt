-- ===== src/Bars.antt =====
-- One-minute bars of the trades of a stream: monitor/bar_builder.py.
mod Tests
pub mod Tick
pub mod Reference
pub mod Builder
pub mod Flush
pub mod Last
pub mod History
pub mod Length
pub mod Covers
