-- ===== src/PartialDownload/Data.antt =====
-- The types of cmd/partialdownload/partialdownload.go, and its options.
use ptool.Base.{Bool, List, []}
use ptool.Base.Int.{ℤ, pos, negsuc}
use ptool.Base.Text.{Text}

pub record Chunk : Type 0 where
  pub index : ℤ
  pub files : ℤ
  pub size : ℤ

pub record Summary : Type 0 where
  pub info_hash : Text
  pub chunk_size : ℤ
  pub total_size : ℤ
  pub total_files : ℤ
  pub skipped_size : ℤ
  pub skipped_files : ℤ
  pub download_chunk_index : ℤ
  pub chunks : List Chunk

abbrev pub new_summary : Text → ℤ → Summary
new_summary info_hash chunk_size = record {
  info_hash = info_hash;
  chunk_size = chunk_size;
  total_size = pos 0;
  total_files = pos 0;
  skipped_size = pos 0;
  skipped_files = pos 0;
  download_chunk_index = negsuc 0;
  chunks = [];
}

-- The flags of the command that choose files.
pub record Flags : Type 0 where
  pub chunk_index : ℤ
  pub start_index : ℤ
  pub show_all : Bool
  pub append_mode : Bool
  pub strict : Bool
  pub original_order : Bool
  pub includes : List Text
  pub excludes : List Text
