-- ===== src/Gateway.antt =====
-- gateway: what runs beside the merge on each node.
pub mod Gate
