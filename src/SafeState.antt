-- ===== src/SafeState.antt =====
-- Locked, versioned and checksummed state files, lifecycle/safe_state.py.
mod Tests
pub mod Disk
pub mod Crash
pub mod RoundTrip
pub mod Guard
