-- ===== src/Brush.antt =====
-- cmd/brush/strategy/strategy.go: which torrents a brush task deletes, stalls, resumes, modifies
-- and adds. This file has the data; the children have the steps of `Decide` in their order, and
-- what is proved of them.
pub mod Data
pub mod Rate
pub mod Mark
pub mod Sweep
pub mod Add
pub mod Decide
pub mod Flagged
pub mod Disjoint
pub mod Protected
pub mod Limits
pub mod Admitted
pub mod Distinct
pub mod Notes
