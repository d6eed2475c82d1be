-- ===== src/Common/Statistics.antt =====
-- TorrentsStatistics of cmd/common/common.go: sizes and numbers of torrents by their outcome.
use ptool.Base.{◌||◌, if◌then◌else◌}
use ptool.Base.Int.{ℤ, pos, negsuc}
use ptool.Base.Int64.{add64, lt64, eq64}
use ptool.Client

pub data TorrentType : Type 0 where
  torrent_success : TorrentType
  torrent_failure : TorrentType
  torrent_invalid : TorrentType

pub record TorrentsStatistics : Type 0 where
  pub torrents_cnt : ℤ
  pub success_cnt : ℤ
  pub success_size : ℤ
  pub success_content_files : ℤ
  pub failure_cnt : ℤ
  pub failure_size : ℤ
  pub invalid_cnt : ℤ
  pub smallest_size : ℤ
  pub largest_size : ℤ

abbrev pub new_torrents_statistics : TorrentsStatistics
new_torrents_statistics = record {
  torrents_cnt = pos 0;
  success_cnt = pos 0;
  success_size = pos 0;
  success_content_files = pos 0;
  failure_cnt = pos 0;
  failure_size = pos 0;
  invalid_cnt = pos 0;
  smallest_size = negsuc 0;
  largest_size = negsuc 0;
}

-- Update
unfoldable pub update_statistics : TorrentType → ℤ → ℤ → TorrentsStatistics → TorrentsStatistics
update_statistics TorrentType.torrent_success size files ts = record ts {
  torrents_cnt = add64 ts.torrents_cnt (pos 1);
  success_cnt = add64 ts.success_cnt (pos 1);
  success_content_files = add64 ts.success_content_files files;
  success_size = add64 ts.success_size size;
  largest_size =
      if eq64 ts.largest_size (negsuc 0) || lt64 ts.largest_size size
      then size
      else ts.largest_size;
  smallest_size =
      if eq64 ts.smallest_size (negsuc 0) || lt64 size ts.smallest_size
      then size
      else ts.smallest_size;
}
update_statistics TorrentType.torrent_failure size files ts = record ts {
  torrents_cnt = add64 ts.torrents_cnt (pos 1);
  failure_cnt = add64 ts.failure_cnt (pos 1);
  failure_size = add64 ts.failure_size size;
}
update_statistics TorrentType.torrent_invalid size files ts = record ts {
  invalid_cnt = add64 ts.invalid_cnt (pos 1);
}

unfoldable pub update_client_torrent :
    TorrentType → Client.Torrent → TorrentsStatistics → TorrentsStatistics
unfolding update_statistics
update_client_torrent torrent_type torrent ts =
    update_statistics torrent_type torrent.size (pos 0) ts
