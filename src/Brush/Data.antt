-- ===== src/Brush/Data.antt =====
-- The constants and the types of cmd/brush/strategy/strategy.go, and the tests on one torrent.
use ptool.Base.{
  Bool, true, false, not, ◌&&◌, ◌||◌, Option, none, some, List, [], ◌∷◌, if◌then◌else◌,
}
use ptool.Base.Int.{ℤ, pos}
use ptool.Base.Int64.{sub64, lt64, le64, eq64}
use ptool.Base.Text.{Text, codes, str_eq}
use ptool.Base.Dict.{get_or}
use ptool.Client.{Torrent}
use ptool.Client.Match.{is_complete}

abbrev pub new_torrents_timespan : ℤ
new_torrents_timespan = pos 900

abbrev pub new_torrents_stall_exemption_timespan : ℤ
new_torrents_stall_exemption_timespan = pos 1800

abbrev pub no_process_torrent_deletion_timespan : ℤ
no_process_torrent_deletion_timespan = pos 1800

abbrev pub stall_download_speed : ℤ
stall_download_speed = pos 10240

abbrev pub ratio_check_min_download_speed : ℤ
ratio_check_min_download_speed = pos 102400

abbrev pub slow_torrents_check_timespan : ℤ
slow_torrents_check_timespan = pos 900

abbrev pub stall_torrent_deletion_timespan : ℤ
stall_torrent_deletion_timespan = pos 1800

-- DELETE_TORRENT_IMMEDIATELY_SCORE, a float64 constant.
abbrev pub delete_torrent_immediately_score : ℤ
delete_torrent_immediately_score = pos 99999

abbrev pub resume_torrents_free_disk_space_tier : ℤ
resume_torrents_free_disk_space_tier = pos 5368709120

abbrev pub delete_torrents_free_disk_space_tier : ℤ
delete_torrents_free_disk_space_tier = pos 10737418240

-- BrushSiteOptionStruct
pub record SiteOption : Type 0 where
  pub allow_none_free : Bool
  pub allow_paid : Bool
  pub allow_hr : Bool
  pub allow_zero_seeders : Bool
  pub torrent_upload_speed_limit : ℤ
  pub torrent_min_size_limit : ℤ
  pub torrent_max_size_limit : ℤ
  pub now : ℤ
  pub excludes : List Text
  pub exclude_tags : List Text
  pub allow_add_torrents : ℤ
  pub accept_any_free : Bool

-- BrushClientOptionStruct
pub record ClientOption (F : Type 0) : Type 0 where
  pub min_disk_space : ℤ
  pub slow_upload_speed_tier : ℤ
  pub max_downloading_torrents : ℤ
  pub max_torrents : ℤ
  pub min_ratio : F
  pub default_upload_speed_limit : ℤ

-- The map[string]int64 of a torrent's metadata; a missing key reads as 0.
abbrev pub Meta : Type 0
Meta = List (Text × ℤ)

-- Meta[key]
abbrev pub meta_at : Text → Meta → ℤ
meta_at key meta = get_or key meta (pos 0)

-- The text of AddTorrent.msg is "new torrrent of score %.0f": the score stands for it.
pub record AddTorrent (F : Type 0) : Type 0 where
  pub download_url : Text
  pub name : Text
  pub meta : Meta
  pub msg_score : F

pub record ModifyTorrent : Type 0 where
  pub info_hash : Text
  pub name : Text
  pub meta : Meta
  pub msg : Text

pub record OperationTorrent : Type 0 where
  pub info_hash : Text
  pub name : Text
  pub msg : Text

pub record Result (F : Type 0) : Type 0 where
  pub delete_torrents : List OperationTorrent
  pub stall_torrents : List ModifyTorrent
  pub resume_torrents : List OperationTorrent
  pub modify_torrents : List ModifyTorrent
  pub add_torrents : List (AddTorrent F)
  pub can_add_more : Bool
  pub free_space_change : ℤ

pub record CandidateTorrent (F : Type 0) : Type 0 where
  pub name : Text
  pub download_url : Text
  pub size : ℤ
  pub prediction_upload_speed : ℤ
  pub score : F
  pub meta : Meta

pub record CandidateClientTorrent (F : Type 0) : Type 0 where
  pub info_hash : Text
  pub score : F
  pub future_value : ℤ
  pub msg : Text

-- The flags of clientTorrentInfoStruct.
pub record Flags : Type 0 where
  pub modify_flag : Bool
  pub stall_flag : Bool
  pub resume_flag : Bool
  pub delete_candidate_flag : Bool
  pub delete_flag : Bool

-- clientTorrentsMap[hash].Torrent: the last torrent with that hash.
unfoldable pub torrent_of : List Torrent → Text → Option Torrent
torrent_of [] hash = none
torrent_of (t ∷ ts) hash = elim (torrent_of ts hash) [
  | some later ↦ some later
  | none ↦ if str_eq t.info_hash hash then some t else none
]

-- The flags in clientTorrentsMap, by hash. They start out false.
abbrev pub InfoMap : Type 0
InfoMap = Text → Flags

abbrev pub no_flags : Flags
no_flags = record {
  modify_flag = false;
  stall_flag = false;
  resume_flag = false;
  delete_candidate_flag = false;
  delete_flag = false;
}

-- clientTorrentsMap[hash].Flag = true, for the flag that `set` sets.
unfoldable pub update : Text → (Flags → Flags) → InfoMap → InfoMap
update hash set m k = if str_eq hash k then set (m k) else m k

abbrev pub set_stall : Flags → Flags
set_stall f = record f { stall_flag = true }

abbrev pub set_delete : Flags → Flags
set_delete f = record f { delete_flag = true }

abbrev pub set_delete_candidate : Flags → Flags
set_delete_candidate f = record f { delete_candidate_flag = true }

abbrev pub set_modify : Flags → Flags
set_modify f = record f { modify_flag = true }

abbrev pub set_resume : Flags → Flags
set_resume f = record f { resume_flag = true }

unfoldable pub count_as_downloading : Torrent → ℤ → Bool
count_as_downloading torrent now =
    not (is_complete torrent)
    && (eq64 (meta_at (codes "stt") torrent.meta) (pos 0)
        && (le64 stall_download_speed torrent.download_speed
            || le64 (sub64 now torrent.atime) new_torrents_timespan))

unfoldable pub can_stall_torrent : Torrent → Bool
can_stall_torrent torrent =
    str_eq torrent.state (codes "downloading") && eq64 (meta_at (codes "stt") torrent.meta) (pos 0)

unfoldable pub is_torrent_stalled : Torrent → Bool
is_torrent_stalled torrent =
    not (is_complete torrent) && lt64 (pos 0) (meta_at (codes "stt") torrent.meta)
