-- ===== src/Operator.antt =====
-- operator/internal: what the controllers of the operator keep in the cluster.
pub mod Fetching
pub mod RedundancySet
pub mod Leases
