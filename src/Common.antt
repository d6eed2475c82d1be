-- ===== src/Common.antt =====
-- cmd/common: what several commands share.
pub mod Statistics
pub mod Paths
