-- ===== src/Traces.antt =====
-- rvzr/traces.py: contract and hardware traces, and the containers that the analyser builds.
pub mod Contract
pub mod Hardware
pub mod Classes
