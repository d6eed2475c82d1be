-- ===== src/DynamicSeeding.antt =====
-- cmd/dynamicseeding/strategy.go: which torrents of a site to seed within a given size.
pub mod Data
pub mod Triage
pub mod Scan
pub mod Replace
pub mod Decide
pub mod Candidates
pub mod Plan
pub mod Command
