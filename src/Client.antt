-- ===== src/Client.antt =====
-- client/client.go: the data of a BitTorrent client.
pub mod Match
pub mod Trackers
pub mod Reads
pub mod Query
pub mod Agree
pub mod Chosen
pub mod Whole
pub mod Validity
pub mod Xseed
use ptool.Base.{ℕ, Bool, Option, List}
use ptool.Base.Int.{ℤ}
use ptool.Base.Text.{Text}

pub record Torrent : Type 0 where
  pub info_hash : Text
  pub name : Text
  pub tracker_domain : Text
  pub tracker_base_domain : Text
  pub tracker : Text
  pub state : Text
  pub low_level_state : Text
  pub atime : ℤ
  pub ctime : ℤ
  pub activity_time : ℤ
  pub category : Text
  pub save_path : Text
  pub content_path : Text
  pub tags : List Text
  pub downloaded : ℤ
  pub download_speed : ℤ
  pub download_speed_limit : ℤ
  pub uploaded : ℤ
  pub upload_speed : ℤ
  pub uploaded_speed_limit : ℤ
  pub size : ℤ
  pub size_total : ℤ
  pub size_completed : ℤ
  pub seeders : ℤ
  pub leechers : ℤ
  pub meta : List (Text × ℤ)

pub record Status : Type 0 where
  pub free_space_on_disk : ℤ
  pub unfinished_size : ℤ
  pub unfinished_downloading_size : ℤ
  pub download_speed : ℤ
  pub upload_speed : ℤ
  pub download_speed_limit : ℤ
  pub upload_speed_limit : ℤ
  pub no_add : Bool
  pub no_del : Bool

-- A file of a torrent. `F` is float64.
pub record TorrentContentFile (F : Type 0) : Type 0 where
  pub index : ℤ
  pub path : Text
  pub size : ℤ
  pub progress : F
  pub ignored : Bool
  pub complete : Bool
