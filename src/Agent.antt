-- ===== src/Agent.antt =====
-- agent: what runs beside the readers on each node.
pub mod Redundancy
pub mod Tracker
