-- ===== src/PartialDownload.antt =====
-- cmd/partialdownload/partialdownload.go: downloads a part of the files of a torrent, a chunk.
pub mod Data
pub mod Scan
pub mod Run
pub mod Partition
pub mod Count
pub mod Bounds
