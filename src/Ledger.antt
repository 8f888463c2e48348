-- ===== src/Ledger.antt =====
-- The fill ledger: monitor/fill_lot.py, monitor/lot_matcher.py and monitor/fill_ledger.py.
mod Tests
pub mod Lot
pub mod Matcher
pub mod Fifo
pub mod Preview
pub mod Book
pub mod Ops
pub mod Position
pub mod Append
pub mod Counter
pub mod Stale
pub mod Reload
pub mod Overnight
