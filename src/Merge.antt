-- ===== src/Merge.antt =====
-- gateway/internal/merge: which member an output shows, and how far it may be published.
pub mod Discrete
pub mod Audio
pub mod Progress
pub mod Engine
