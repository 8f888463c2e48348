-- ===== src/Registry.antt =====
-- Position registries and the gate in front of the brokers: monitor/position_registry.py,
-- monitor/distributed_registry.py and monitor/registry_gate.py.
mod Tests
pub mod Global
pub mod Distributed
pub mod Gate
pub mod GateDecides
