-- ===== src/Stops.antt =====
-- The distance of a stop from the entry: monitor/smart_stop.py.
mod Tests
pub mod Buffer
pub mod Bounds
