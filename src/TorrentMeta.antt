-- ===== src/TorrentMeta.antt =====
-- util/torrentutil/torrent.go: the metadata of a torrent, as a .torrent file has it.
pub mod Data
pub mod Layout
pub mod Edit
pub mod Xseed
pub mod Files
