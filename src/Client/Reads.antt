-- ===== src/Client/Reads.antt =====
-- The methods of the Client interface of client/client.go that only read. A client's
-- implementation is a parameter of the code that uses it: `none` stands for an error.
use ptool.Base.{Bool, Option, List}
use ptool.Base.Text.{Text}
use ptool.Client.{Torrent, Status}
use ptool.Client.Trackers.{TorrentTracker}

-- GetTorrents takes a state filter, a category, and whether to show all.
pub record Reads : Type 0 where
  pub get_status : Option Status
  pub get_torrent : Text → Option Torrent
  pub get_torrents : Text → Text → Bool → Option (List Torrent)
  pub get_torrents_by_content_path : Text → Option (List Torrent)
  pub get_torrent_trackers : Text → Option (List TorrentTracker)
