-- ===== src/Tests/Samples.antt =====
-- Sample data: a client with a few torrents, a site's list, options; fixed-point numbers of tenths for float64.
use ptool.Base.{
  Option, none, some, any, true, false, List, [], ◌∷◌, map, ℕ, if◌then◌else◌, leb, ◌&&◌, ◌+◌,
}
use ptool.Base.Int.{ℤ, pos, negsuc, ◌+ℤ◌, ◌-ℤ◌, ◌*ℤ◌, quot}
use ptool.Base.Int64.{add64, sub64, mul64, neg64, quot64, rem64, lt64, le64, eq64, min64, max64}
use ptool.Base.Dict.{lookup, get_or, insert, delete}
use ptool.Base.Sort.{stable_sort, insert_sorted}
use ptool.Util.Strings.{contains_i}
use ptool.Client.Match.{is_complete, match_filter, match_filters_or, has_tag, has_any_tag}
use ptool.Brush.Decide.{decide}
use ptool.Base.Text.{Text, codes, str_eq, text_lt, cut, has_prefix, contains, drop, Unicode}
use ptool.Base.Float.{Float}
use ptool.Client.{Torrent, Status}
use ptool.Client.Reads.{Reads}
use ptool.Client.Match.{
  match_state_filter, is_valid_info_hash, is_valid_state_filter, generate_torrent_tag_from_site,
}
use ptool.Client.Trackers.{speculate_tracker_validity}
use ptool.Client.Query.{query_torrents, select_torrents}
use ptool.Client.Xseed.{filter_torrents_xseed, delete_torrents_auto}
use ptool.Common.Statistics.{update_client_torrent}
use ptool.DynamicSeeding.Data.{SiteConfig}
use ptool.DynamicSeeding.Decide.{do_dynamic_seeding}
use ptool.Util.Data.{map_slice, first_non_zero}
use ptool.Common.Paths.{new_path_mapper, before2after, after2before}
use ptool.Util.Duration.{parse_duration}
use ptool.Site
use ptool.PartialDownload.Run.{partial_download, scan_of}
use ptool.PartialDownload.Scan.{scan_files}
use ptool.TorrentMeta.Edit.{add_tracker, remove_tracker}
use ptool.TorrentMeta.Files.{root_files}
use ptool.TorrentMeta.Layout.{contents_of}
use ptool.TorrentMeta.Xseed.{xseed_check}
use ptool.DynamicSeeding.Command.{carry_out}
use ptool.Base.Decimal.{sprint, digits, parse_int_value}
use ptool.Base.Fields.{split, join}
use ptool.Stats.{read_records, timespan_of, traffic_of, amount, day_loop}
use ptool.Util.Datetime.{format_duration, part_text, join_parts}
use ptool.Locator.{find_torrent_file_links, linked_file}
use ptool.Brush.Data.{
  SiteOption, ClientOption, update, torrent_of, count_as_downloading, can_stall_torrent,
  is_torrent_stalled,
}

-- To run the model, unfold `program`.
unfoldable pub program : Unit {0}
unfolding add64 sub64 mul64 neg64 quot64 rem64 lt64 le64 eq64 min64 max64 str_eq has_prefix contains
    drop lookup get_or insert delete stable_sort insert_sorted any decide update torrent_of
    count_as_downloading can_stall_torrent is_torrent_stalled is_complete match_filter
    match_filters_or has_any_tag has_tag Site.match_filters_or Site.has_any_tag contains_i ◌+ℤ◌ ◌-ℤ◌
    ◌*ℤ◌ quot match_state_filter is_valid_info_hash is_valid_state_filter
    generate_torrent_tag_from_site speculate_tracker_validity query_torrents select_torrents
    filter_torrents_xseed delete_torrents_auto update_client_torrent do_dynamic_seeding map_slice
    first_non_zero Site.get_id new_path_mapper before2after after2before parse_duration text_lt cut
    partial_download scan_of scan_files add_tracker remove_tracker root_files contents_of
    xseed_check carry_out sprint digits split join find_torrent_file_links linked_file read_records
    parse_int_value timespan_of traffic_of amount day_loop format_duration part_text join_parts
program = tt

instance abbrev pub tenths : Float ℤ
tenths = record {
  of_int = λ n. n *ℤ pos 10;
  to_int = λ a. quot a (pos 10);
  add = ◌+ℤ◌;
  sub = ◌-ℤ◌;
  mul = λ a b. quot (a *ℤ b) (pos 10);
  div = λ a b. quot (a *ℤ pos 10) b;
  neg = λ a. pos 0 -ℤ a;
  min = min64;
  lt = lt64;
  le = le64;
  eq = eq64;
}

-- ASCII letters.
abbrev pub lower : ℕ → ℕ
lower c = if leb b'A' c && leb c b'Z' then c + 32 else c

instance abbrev pub ascii : Unicode
ascii = record { to_lower = map lower; equal_fold = λ a b. str_eq (map lower a) (map lower b) }

abbrev pub plain_torrent : Torrent
plain_torrent = record {
  info_hash = codes "a0";
  name = codes "plain";
  tracker_domain = [];
  tracker_base_domain = [];
  tracker = [];
  state = codes "downloading";
  low_level_state = [];
  atime = pos 1000;
  ctime = pos 0;
  activity_time = pos 1000;
  category = [];
  save_path = [];
  content_path = [];
  tags = [];
  downloaded = pos 0;
  download_speed = pos 20000;
  download_speed_limit = negsuc 0;
  uploaded = pos 0;
  upload_speed = pos 500000;
  uploaded_speed_limit = negsuc 0;
  size = pos 1000000;
  size_total = pos 1000000;
  size_completed = pos 400000;
  seeders = pos 1;
  leechers = pos 5;
  meta = [];
}

-- A torrent in error state, one that is slow for the second time, and one that goes well.
abbrev pub failed_torrent : Torrent
failed_torrent = record plain_torrent {
  info_hash = codes "b1";
  state = codes "error";
  upload_speed = pos 0;
}

abbrev pub slow_torrent : Torrent
slow_torrent = record plain_torrent {
  info_hash = codes "c2";
  upload_speed = pos 1000;
  meta = (codes "sct", pos 90000) ∷ (codes "sctu", pos 0) ∷ [];
}

abbrev pub fading_torrent : Torrent
fading_torrent = record plain_torrent {
  info_hash = codes "d3";
  meta = (codes "dcet", pos 100100) ∷ [];
}

abbrev pub client_torrents : List Torrent
client_torrents = failed_torrent ∷ slow_torrent ∷ fading_torrent ∷ plain_torrent ∷ []

abbrev pub full_status : Status
full_status = record {
  free_space_on_disk = pos 1000;
  unfinished_size = pos 0;
  unfinished_downloading_size = pos 0;
  download_speed = pos 0;
  upload_speed = pos 1501000;
  download_speed_limit = pos 0;
  upload_speed_limit = pos 0;
  no_add = false;
  no_del = false;
}

abbrev pub free_torrent : Site.Torrent ℤ
free_torrent = record {
  name = codes "free";
  description = [];
  id = codes "1";
  info_hash = [];
  download_url = codes "https://site/1";
  download_multiplier = pos 0;
  upload_multiplier = pos 10;
  discount_end_time = pos 200000;
  time = pos 99000;
  size = pos 500000;
  is_size_accurate = true;
  seeders = pos 1;
  leechers = pos 10;
  snatched = pos 0;
  has_hn_r = false;
  is_active = false;
  is_current_active = false;
  paid = false;
  bought = false;
  neutral = false;
  tags = [];
}

abbrev pub popular_torrent : Site.Torrent ℤ
popular_torrent = record free_torrent { name = codes "popular"; id = codes "2"; leechers = pos 50 }

abbrev pub site_torrents : List (Site.Torrent ℤ)
site_torrents = free_torrent ∷ record free_torrent { has_hn_r = true } ∷ popular_torrent ∷ []

abbrev pub site_option : SiteOption
site_option = record {
  allow_none_free = false;
  allow_paid = false;
  allow_hr = false;
  allow_zero_seeders = false;
  torrent_upload_speed_limit = pos 10000000;
  torrent_min_size_limit = pos 0;
  torrent_max_size_limit = pos 1000000000;
  now = pos 100000;
  excludes = [];
  exclude_tags = [];
  allow_add_torrents = pos 1;
  accept_any_free = false;
}

abbrev pub client_option : ClientOption ℤ
client_option = record {
  min_disk_space = pos 300000;
  slow_upload_speed_tier = pos 100000;
  max_downloading_torrents = pos 6;
  max_torrents = pos 50;
  min_ratio = pos 0;
  default_upload_speed_limit = pos 10000000;
}

-- A torrent whose content no other has, in the category of the site's dynamic seeding.
abbrev pub seeded_torrent : Torrent
seeded_torrent = record plain_torrent {
  info_hash = codes "e4";
  state = codes "seeding";
  category = codes "dynamic-seeding-s";
  content_path = codes "/e4";
  tags = codes "site:s" ∷ [];
  size = pos 9000000000;
  size_completed = pos 9000000000;
  seeders = pos 20;
}

-- What a client with these torrents answers.
abbrev pub client : Reads
client = record {
  get_status = some (record full_status { upload_speed = pos 0 });
  get_torrent = λ hash.
      if str_eq hash (codes "e4")
      then some seeded_torrent
      else if str_eq hash (codes "a0")
      then some plain_torrent
      else none;
  get_torrents = λ state category all.
      if str_eq category (codes "dynamic-seeding-s")
      then some (seeded_torrent ∷ [])
      else some (failed_torrent ∷ slow_torrent ∷ fading_torrent ∷ plain_torrent ∷ []);
  get_torrents_by_content_path = λ path.
      if str_eq path (codes "/e4")
      then some (seeded_torrent ∷ [])
      else some (failed_torrent ∷ slow_torrent ∷ fading_torrent ∷ plain_torrent ∷ []);
  get_torrent_trackers = λ hash. none;
}

abbrev pub site_config : SiteConfig
site_config = record {
  name = codes "s";
  site_type = codes "nexusphp";
  global_hn_r = false;
  dynamic_seeding_torrents_url = codes "torrents.php";
  dynamic_seeding_excludes = [];
  dynamic_seeding_size_value = pos 12000000000;
  dynamic_seeding_torrent_min_size_value = pos 0;
  dynamic_seeding_torrent_max_size_value = pos 0;
  dynamic_seeding_max_scan = pos 0;
  dynamic_seeding_min_seeders = pos 0;
  dynamic_seeding_max_seeders = pos 0;
  dynamic_seeding_replace_seeders = pos 0;
}

abbrev pub large_torrent : Site.Torrent ℤ
large_torrent = record free_torrent {
  name = codes "large";
  size = pos 8000000000;
  discount_end_time = pos 0;
  seeders = pos 2;
  leechers = pos 1;
}

-- The site has one page.
abbrev pub one_page : Text → Text → Option (List (Site.Torrent ℤ) × Text)
one_page url marker = some (large_torrent ∷ popular_torrent ∷ [], [])
