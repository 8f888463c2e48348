-- ===== src/Reconcile.antt =====
-- Reconciliation with the broker: lifecycle/reconciler.py, with the part of
-- lifecycle/adapters/options_adapter.py that fetches and removes positions.
mod Tests
pub mod Sync
pub mod Laws
