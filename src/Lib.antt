-- ===== src/Lib.antt =====
-- ptool (github.com/sagan/ptool) is a command line tool for private tracker sites and BitTorrent
-- clients. This library models the parts that decide something: which torrents to delete, to
-- stall, to add, to select or to keep.
--
-- The parts and their files:
--   Base           What all parts use: Go's int64 with its wrap-around (Int64, over the integers of
--                  Int), strings as lists of bytes (Text), maps with string keys as association
--                  lists (Dict), stable sorting (Sort), strings.Split and strings.Join
--                  (Fields), the decimal text of an int64 (Decimal), and the interface for float64
--                  (Float).
--   Util           util/string.go, util/data.go and a part of util/util.go: string tests, SplitCsv
--                  (Util/Csv), slice functions (Util/Data), ParseDuration of util/time.go
--                  (Util/Duration), and FormatDuration of util/datetime.go (Util/Datetime).
--   Client         client/client.go: Torrent and Status, the tests on one torrent and on filter
--                  arguments (Client/Match), TorrentTrackers.SpeculateTrackerValidity
--                  (Client/Trackers, and Client/Validity for what it computes), QueryTorrents and
--                  SelectTorrents (Client/Query, Client/Agree, Client/Chosen), FilterTorrentsXseed and
--                  DeleteTorrentsAuto (Client/Xseed, Client/Whole). Client/Reads is the part of the
--                  Go interface Client that only reads: an implementation is a parameter.
--   Site           site/site.go: a site's torrent and the filters on it.
--   Common         cmd/common/common.go: TorrentsStatistics and PathMapper.
--   Brush          cmd/brush/strategy/strategy.go. Decide goes through the torrents of the client
--                  and marks them (Brush/Mark), sorts the candidates for deletion and deletes in
--                  three loops (Brush/Sweep), rates the site's torrents (Brush/Rate), collects
--                  what to stall, resume and modify, and adds candidates (Brush/Add); Brush/Decide
--                  composes these steps. clientTorrentsMap is the function from an info hash to its
--                  flags, and torrent_of the torrent in it.
--   DynamicSeeding cmd/dynamicseeding/strategy.go. doDynamicSeeding sorts the client's torrents
--                  into eight classes (DynamicSeeding/Triage), scans the site page by page for
--                  candidates (DynamicSeeding/Scan), and replaces torrents of the client by
--                  candidates (DynamicSeeding/Replace); DynamicSeeding/Decide composes these steps.
--                  cmd/dynamicseeding/dynamicseeding.go, the command that carries out the decision
--                  and keeps the ignore file, is DynamicSeeding/Command.
--   PartialDownload
--                  cmd/partialdownload/partialdownload.go: the two loops that divide the files of a
--                  torrent into chunks (PartialDownload/Scan), and the command around them, to the
--                  calls of SetFilePriority (PartialDownload/Run).
--   TorrentMeta    util/torrentutil/torrent.go: where FromMetaInfo puts the files of a torrent
--                  (TorrentMeta/Layout), the methods that change a torrent (TorrentMeta/Edit),
--                  XseedCheckWithClientTorrent (TorrentMeta/Xseed), and RootFiles, the filters and
--                  the check of the sizes of a save path's files (TorrentMeta/Files).
--   Stats          stats/stats.go: the loops of NewDb that share out the traffic of each record to
--                  the days.
--   Locator        util/torrentfilelocator/torrentlocator.go: findTorrentFileLinks and update, which
--                  link the files of a torrent to files of a folder by size and name.
--   Tests          Runs on small inputs, and each theorem at a concrete input.
--
-- Numbers: int64 values are integers, and each operation of the model wraps around as Go's does.
-- float64 is a type F with the operations that the code uses. Text that is only shown (logs,
-- notes, sizes in messages) is left out; a message that is a result is kept, or stands as a
-- constructor. Reads through clientTorrentsMap of a hash that is not in it, which the code never
-- does, leave the state as it is.
--
-- Parameters: the answers of a client and of a site, the Unicode tables, path.Clean, the order in
-- which Go goes through a map, rand.Shuffle, and the current time. For partialdownload also the
-- library of patterns (go-gitignore), for a torrent's metadata util.Clean and the file system, and
-- for the locator filepath.Base and the folder's files; for ParseInt strings.TrimSpace, and for the
-- days of the traffic the local time zone.
--
-- Fuel: the scan of a site's pages has no bound in the code, so it takes the number of pages as
-- fuel; one more than the site has is enough. The loop that makes room for a candidate takes one
-- torrent from its pools at each turn, so the number of torrents in them is enough; ParseDuration
-- consumes a unit at each turn, so the length of the text is. The loop over the days of a record of
-- traffic takes one day at a turn, so the number of its days is.
--
-- Not modelled: the network and file access of the clients, the sites and the commands, printing
-- and the shell, parsing of web pages, reading, writing and hashing of .torrent files, the check of
-- pieces in the locator, the queries of the traffic table, and the copies of other projects
-- (go-prompt, go-socket.io, cobra-prompt, transmissionrpc and the like).
pub mod Base
pub mod Util
pub mod Client
pub mod Site
pub mod Brush
pub mod DynamicSeeding
pub mod PartialDownload
pub mod TorrentMeta
pub mod Stats
pub mod Locator
pub mod Common
pub mod Tests
