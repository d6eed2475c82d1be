-- ===== src/Tests.antt =====
-- Runs of the model on small inputs, and the theorems at concrete inputs.
mod Samples
mod Brush
mod Client
mod Common
mod DynamicSeeding
mod PartialDownload
mod TorrentMeta
mod Command
mod Locator
mod Stats
