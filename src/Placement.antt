-- ===== src/Placement.antt =====
-- operator/internal/placement/planner.go: which pair of fabric interfaces carries a mirror.
pub mod Node
pub mod Ledger
pub mod Planner
mod Tests
