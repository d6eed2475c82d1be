-- ===== src/DynamicSeeding/Data.antt =====
-- The constants, the options and the result of cmd/dynamicseeding/strategy.go.
use ptool.Base.{ℕ, Bool, List}
use ptool.Base.Int.{ℤ, pos}
use ptool.Base.Text.{Text}
use ptool.Client
use ptool.Site

pub data TrackersStatus : Type 0 where
  tracker_unknown : TrackersStatus
  tracker_ok : TrackersStatus
  tracker_invalid : TrackersStatus

abbrev pub max_seeders : ℤ
max_seeders = pos 10

abbrev pub min_seeders : ℤ
min_seeders = pos 3

-- MIN_SIZE, 10 GiB.
abbrev pub min_size : ℤ
min_size = pos 10737418240

abbrev pub new_torrent_timespan : ℤ
new_torrent_timespan = pos 3600

abbrev pub max_parallel_download : ℕ
max_parallel_download = 3

abbrev pub inactivity_timespan : ℤ
inactivity_timespan = pos 10800

abbrev pub min_replace_seeders_diff : ℤ
min_replace_seeders_diff = pos 3

abbrev pub min_seeding_time : ℤ
min_seeding_time = pos 864000

abbrev pub min_torrent_age : ℤ
min_torrent_age = pos 1296000

abbrev pub min_free_remaining_time : ℤ
min_free_remaining_time = pos 10800

abbrev pub max_scanned_torrents : ℤ
max_scanned_torrents = pos 1000

-- constants.CLIENT_DEFAULT_DOWNLOADING_SPEED_LIMIT
abbrev pub default_downloading_speed_limit : ℤ
default_downloading_speed_limit = pos 39321600

-- What the code reads of the site: its name and its configuration.
pub record SiteConfig : Type 0 where
  pub name : Text
  pub site_type : Text
  pub global_hn_r : Bool
  pub dynamic_seeding_torrents_url : Text
  pub dynamic_seeding_excludes : List Text
  pub dynamic_seeding_size_value : ℤ
  pub dynamic_seeding_torrent_min_size_value : ℤ
  pub dynamic_seeding_torrent_max_size_value : ℤ
  pub dynamic_seeding_max_scan : ℤ
  pub dynamic_seeding_min_seeders : ℤ
  pub dynamic_seeding_max_seeders : ℤ
  pub dynamic_seeding_replace_seeders : ℤ

-- The texts of Result.Msg, without the sizes they print.
pub data Msg : Type 0 where
  no_message : Msg
  client_noadd : Msg
  bandwidth_full : Msg
  downloading_enough : Msg
  insufficient_space : Msg
  no_candidates : Msg

pub record Result (F : Type 0) : Type 0 where
  pub overflow_space : ℤ
  pub timestamp : ℤ
  pub sitename : Text
  pub size : ℤ
  pub delete_torrents : List Client.Torrent
  pub add_torrents : List (Site.Torrent F)
  pub add_category : Text
  pub add_tags : List Text
  pub msg : Msg

-- The errors that doDynamicSeeding returns, or its result.
pub data Outcome (F : Type 0) : Type 0 where
  insufficient_size : Outcome F
  global_hn_r_site : Outcome F
  no_status : Outcome F
  no_torrents : Outcome F
  decided : Result F → Outcome F
