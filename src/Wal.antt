-- ===== src/Wal.antt =====
-- The write-ahead log of orders, monitor/order_wal.py.
mod Tests
pub mod Entry
pub mod Log
pub mod Api
pub mod Dedup
pub mod Calls
pub mod Held
pub mod Exclusive
pub mod Recovery
pub mod Incomplete
