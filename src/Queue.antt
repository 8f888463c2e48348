-- ===== src/Queue.antt =====
-- The bounded priority queue of monitor/event_bus.py.
mod Tests
pub mod Heap
pub mod Bounded
pub mod Valid
pub mod Get
pub mod Evict
pub mod Order
