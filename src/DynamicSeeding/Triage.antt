-- ===== src/DynamicSeeding/Triage.antt =====
-- The triage of the client's torrents in doDynamicSeeding.
pub mod Rule
use ptool.Base.{
  Bool, true, false, not, ◌&&◌, Option, none, some, List, [], ◌∷◌, ◌++◌, if◌then◌else◌,
}
use ptool.Base.Int.{ℤ, pos}
use ptool.Base.Int64.{sub64, lt64, le64, eq64}
use ptool.Base.Text.{Text, codes, str_eq, Unicode}
use ptool.Client.{Torrent}
use ptool.Client.Match.{has_tag, is_complete}
use ptool.Client.Trackers.{TorrentTracker, speculate_tracker_validity}
use ptool.Common.Statistics.{
  TorrentsStatistics, TorrentType, new_torrents_statistics, update_client_torrent,
}
use ptool.DynamicSeeding.Data.{
  TrackersStatus, new_torrent_timespan, inactivity_timespan, min_seeding_time,
}

-- The lists of info hashes, and the statistics.
pub record Triage : Type 0 where
  pub others : List Text
  pub invalid : List Text
  pub stalled : List Text
  pub downloading : List Text
  pub safe : List Text
  pub normal : List Text
  pub protecteds : List Text
  pub unknowns : List Text
  pub statistics : TorrentsStatistics

abbrev pub no_triage : Triage
no_triage = record {
  others = [];
  invalid = [];
  stalled = [];
  downloading = [];
  safe = [];
  normal = [];
  protecteds = [];
  unknowns = [];
  statistics = new_torrents_statistics;
}

-- The eight classes of a torrent.
pub data Class : Type 0 where
  other_class : Class
  invalid_class : Class
  stalled_class : Class
  downloading_class : Class
  safe_class : Class
  normal_class : Class
  protected_class : Class
  unknown_class : Class

-- What a branch does: it appends the hash, and counts the torrent in the statistics.
unfoldable pub put : Class → Torrent → Triage → Triage
put Class.other_class t s = record s { others = s.others ++ t.info_hash ∷ [] }
put Class.invalid_class t s = record s {
  invalid = s.invalid ++ t.info_hash ∷ [];
  statistics = update_client_torrent TorrentType.torrent_invalid t s.statistics;
}
put Class.stalled_class t s = record s {
  stalled = s.stalled ++ t.info_hash ∷ [];
  statistics = update_client_torrent TorrentType.torrent_failure t s.statistics;
}
put Class.downloading_class t s = record s {
  downloading = s.downloading ++ t.info_hash ∷ [];
  statistics = update_client_torrent TorrentType.torrent_success t s.statistics;
}
put Class.safe_class t s = record s {
  safe = s.safe ++ t.info_hash ∷ [];
  statistics = update_client_torrent TorrentType.torrent_failure t s.statistics;
}
put Class.normal_class t s = record s {
  normal = s.normal ++ t.info_hash ∷ [];
  statistics = update_client_torrent TorrentType.torrent_failure t s.statistics;
}
put Class.protected_class t s = record s {
  protecteds = s.protecteds ++ t.info_hash ∷ [];
  statistics = update_client_torrent TorrentType.torrent_success t s.statistics;
}
put Class.unknown_class t s = record s {
  unknowns = s.unknowns ++ t.info_hash ∷ [];
  statistics = update_client_torrent TorrentType.torrent_success t s.statistics;
}

abbrev pub is_invalid : TrackersStatus → Bool
is_invalid TrackersStatus.tracker_invalid = true
is_invalid _ = false

module _ ⦃u : Unicode⦄ (msgs : List (Text × ℤ)) (trackers_of : Text → Option (List TorrentTracker))
    (timestamp min_seeders max_seeders : ℤ) (tag : Text) where
  -- The trackers are asked only where nobody else seeds or downloads.
  unfoldable pub tracker_status : Torrent → TrackersStatus
  tracker_status torrent =
      if eq64 torrent.seeders (pos 0) && eq64 torrent.leechers (pos 0)
      then elim (trackers_of torrent.info_hash) [
        | none ↦ TrackersStatus.tracker_unknown
        | some trackers ↦
            if lt64 (pos 0) (speculate_tracker_validity msgs trackers)
            then TrackersStatus.tracker_invalid
            else TrackersStatus.tracker_ok
      ]
      else TrackersStatus.tracker_unknown

  -- The branches of an incomplete torrent.
  unfoldable pub classify_incomplete : Bool → Torrent → Class
  classify_incomplete invalid torrent =
      if invalid && lt64 new_torrent_timespan (sub64 timestamp torrent.atime)
      then Class.invalid_class
      else if le64 inactivity_timespan (sub64 timestamp torrent.activity_time)
      then Class.stalled_class
      else Class.downloading_class

  -- The branches of a complete torrent. TORRENT_NODEL_TAG is "nodel".
  unfoldable pub classify_complete : Bool → Torrent → Class
  classify_complete invalid torrent =
      if not (str_eq torrent.state (codes "seeding"))
      then Class.other_class
      else if invalid
      then Class.invalid_class
      else if eq64 torrent.seeders (pos 0)
      then Class.unknown_class
      else if lt64 (sub64 timestamp torrent.ctime) min_seeding_time
      then Class.protected_class
      else if lt64 max_seeders torrent.seeders
      then Class.safe_class
      else if lt64 min_seeders torrent.seeders
      then Class.normal_class
      else Class.protected_class

  unfoldable pub classify : Torrent → Class
  unfolding tracker_status classify_incomplete classify_complete
  classify torrent =
      let invalid = is_invalid (tracker_status torrent) in
      if not (has_tag torrent tag)
      then Class.other_class
      else if has_tag torrent (codes "nodel")
      then Class.protected_class
      else if not (is_complete torrent)
      then classify_incomplete invalid torrent
      else classify_complete invalid torrent

  unfoldable pub triage : List Torrent → Triage → Triage
  unfolding classify put
  triage [] s = s
  triage (t ∷ ts) s = triage ts (put (classify t) t s)
