-- ===== src/TorrentMeta/Data.antt =====
-- The types of util/torrentutil/torrent.go. MetaInfo and Info are the parts of the types of the
-- library metainfo that the code reads or changes.
use ptool.Base.{Bool, Option, List}
use ptool.Base.Int.{ℤ}
use ptool.Base.Text.{Text}

pub record TorrentMetaFile : Type 0 where
  pub path : Text
  pub size : ℤ
  pub start_piece_index : ℤ
  pub end_piece_index : ℤ
  pub start_piece_offset : ℤ
  pub last_piece_bytes : ℤ

pub record MetaInfo : Type 0 where
  pub announce : Text
  pub announce_list : List (List Text)
  pub comment : Text
  pub created_by : Text
  pub creation_date : ℤ

pub record Info : Type 0 where
  pub name : Text
  pub source : Text
  pub private_flag : Option Bool
  pub piece_length : ℤ

pub record TorrentMeta : Type 0 where
  pub info_hash : Text
  pub pieces_hash : Text
  pub trackers : List Text
  pub size : ℤ
  pub single_file_torrent : Bool
  pub root_dir : Text
  pub content_path : Text
  pub files : List TorrentMetaFile
  pub meta_info : MetaInfo
  pub info : Info
  pub info_changed : Bool
