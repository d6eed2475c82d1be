-- ===== src/DynamicSeeding/Decide.antt =====
-- doDynamicSeeding.
pub mod Rule
use ptool.Base.{
  ℕ, ◌==◌, Bool, true, false, not, Option, none, some, List, [], ◌∷◌, ◌++◌, if◌then◌else◌, length,
  leb,
}
use ptool.Base.Int.{ℤ, pos, ◌-ℤ◌}
use ptool.Base.Int64.{add64, sub64, quot64, lt64, le64, eq64, min64}
use ptool.Base.Text.{Text, codes, str_eq, Unicode}
use ptool.Base.Float.{Float, ratio}
use ptool.Base.Sort.{stable_sort}
use ptool.Util.Data.{first_non_zero}
use ptool.Util.Strings.{append_url_query_string}
use ptool.Client.{Status}
use ptool.Client.Match.{generate_torrent_tag_from_site}
use ptool.Client.Reads.{Reads}
use ptool.Client
use ptool.Site
use ptool.DynamicSeeding.Data.{
  SiteConfig, Result, Outcome, Msg, min_size, max_seeders, min_seeders, min_replace_seeders_diff,
  max_scanned_torrents, max_parallel_download, default_downloading_speed_limit,
}
use ptool.DynamicSeeding.Triage.{Triage, no_triage, triage}
use ptool.DynamicSeeding.Scan.{Scan, scan_site}
use ptool.DynamicSeeding.Replace.{Pools, replace_loop}

-- The order of sort.Slice: more seeders first, then smaller ones. It leaves the order of equals
-- open: here they keep the order in which the client lists them.
unfoldable pub sorts_before : Client.Torrent → Client.Torrent → Bool
sorts_before a b =
    if not (eq64 a.seeders b.seeders) then lt64 b.seeders a.seeders else lt64 a.size b.size

unfoldable pub dynamic_seeding_cat : SiteConfig → Text
dynamic_seeding_cat config = codes "dynamic-seeding-" ++ config.name

-- The outer part of the configuration's values.
unfoldable pub speed_limit_of : Status → ℤ
speed_limit_of status =
    if le64 status.download_speed_limit (pos 0)
    then default_downloading_speed_limit
    else status.download_speed_limit

-- The list of torrents' URL, with the filter of a site of type nexusphp.
unfoldable pub torrents_url : SiteConfig → Text
unfolding append_url_query_string
torrents_url config =
    if str_eq config.site_type (codes "nexusphp")
    then append_url_query_string config.dynamic_seeding_torrents_url (codes "seeders_begin=1")
    else config.dynamic_seeding_torrents_url

-- The space for candidates, with that of the torrents that may be deleted.
unfoldable pub space_to_fill : SiteConfig → Status → Triage → ℤ
space_to_fill config status tri =
    let space = sub64 config.dynamic_seeding_size_value tri.statistics.success_size in
    if not status.no_del then add64 space tri.statistics.failure_size else space

unfoldable pub overflow_space : SiteConfig → Triage → ℤ
overflow_space config tri =
    let used = add64 tri.statistics.success_size tri.statistics.failure_size in
    if lt64 config.dynamic_seeding_size_value used
    then sub64 used config.dynamic_seeding_size_value
    else pos 0

unfoldable pub pools_of : Triage → Pools
pools_of tri = record {
  invalid = tri.invalid;
  stalled = tri.stalled;
  safe = tri.safe;
  normal = tri.normal;
}

-- The space left beside all torrents of the triage, where the last loop starts.
unfoldable pub space_left : SiteConfig → Triage → ℤ
space_left config tri =
    sub64 (sub64 config.dynamic_seeding_size_value tri.statistics.success_size)
      tri.statistics.failure_size

module _ ⦃u : Unicode⦄ (msgs : List (Text × ℤ)) (timestamp : ℤ) (config : SiteConfig)
    (client : Reads) where
  unfoldable pub triage_of : List Client.Torrent → Triage
  unfolding triage
  triage_of client_torrents =
      triage msgs client.get_torrent_trackers timestamp
        (first_non_zero (config.dynamic_seeding_min_seeders ∷ min_seeders ∷ []))
        (first_non_zero (config.dynamic_seeding_max_seeders ∷ max_seeders ∷ []))
        (generate_torrent_tag_from_site config.name) client_torrents no_triage

unfoldable pub start_result : {F : Type 0} → ℤ → SiteConfig → Result F
start_result timestamp config = record {
  overflow_space = pos 0;
  timestamp = timestamp;
  sitename = config.name;
  size = config.dynamic_seeding_size_value;
  delete_torrents = [];
  add_torrents = [];
  add_category = dynamic_seeding_cat config;
  add_tags = generate_torrent_tag_from_site config.name ∷ [];
  msg = Msg.no_message;
}

module _ {F : Type 0} ⦃fl : Float F⦄ ⦃u : Unicode⦄ (msgs : List (Text × ℤ)) (timestamp : ℤ)
    (config : SiteConfig) (ignores : List Text) (client : Reads)
    (get_all_torrents : Text → Text → Option (List (Site.Torrent F) × Text))
    (shuffle : List (Site.Torrent F) → List (Site.Torrent F)) where
  -- The scan of the site, from its first page.
  unfoldable pub scan_of : ℕ → Status → Triage → Option (Scan F)
  unfolding scan_site torrents_url space_to_fill speed_limit_of
  scan_of fuel status tri =
      scan_site config ignores timestamp (speed_limit_of status)
        (first_non_zero (config.dynamic_seeding_max_scan ∷ max_scanned_torrents ∷ []))
        (first_non_zero (config.dynamic_seeding_max_seeders ∷ max_seeders ∷ []))
        (space_to_fill config status tri) (get_all_torrents (torrents_url config)) shuffle
        (pos max_parallel_download -ℤ pos (length tri.downloading)) fuel []
        (record { found = []; found_size = pos 0; scanned = pos 0; stopped = false })

  -- From the scan on.
  unfoldable pub finish : Status → List Client.Torrent → Triage → Result F → Scan F → Result F
  unfolding replace_loop pools_of space_left
  finish status client_torrents tri result scan =
      let (deletes, adds) =
        replace_loop client_torrents status.no_del
          (first_non_zero (config.dynamic_seeding_replace_seeders ∷ min_replace_seeders_diff ∷ []))
          scan.found (space_left config tri) (pools_of tri) in
      if length scan.found == 0
      then record result { msg = Msg.no_candidates }
      else record result { delete_torrents = deletes; add_torrents = adds }

  -- `none` is a scan that ran out of fuel.
  unfoldable pub finish_scan :
      Status → List Client.Torrent → Triage → Result F → Option (Scan F) → Option (Outcome F)
  unfolding finish
  finish_scan status client_torrents tri result none = none
  finish_scan status client_torrents tri result (some scan) =
      some (Outcome.decided (finish status client_torrents tri result scan))

  -- From the triage on.
  unfoldable pub fill : ℕ → Status → List Client.Torrent → Option (Outcome F)
  unfolding triage_of start_result scan_of finish_scan space_to_fill overflow_space
  fill fuel status client_torrents =
      let tri = triage_of msgs timestamp config client client_torrents in
      let result : Result F = record (start_result timestamp config) {
        overflow_space = overflow_space config tri;
      } in
      if leb max_parallel_download (length tri.downloading)
      then some (Outcome.decided (record result { msg = Msg.downloading_enough }))
      else if lt64 (space_to_fill config status tri)
          (min64 (quot64 config.dynamic_seeding_size_value (pos 10)) min_size)
      then some (Outcome.decided (record result { msg = Msg.insufficient_space }))
      else finish_scan status client_torrents tri result (scan_of fuel status tri)

  -- The quotient of the two speeds is an integer before it is a float64.
  unfoldable pub is_bandwidth_full : Status → Bool
  unfolding speed_limit_of
  is_bandwidth_full status =
      fl.le (ratio (pos 8) (pos 10))
        (fl.of_int (quot64 status.download_speed (speed_limit_of status)))

  -- `fuel` bounds the pages of the site that the scan reads.
  unfoldable pub do_dynamic_seeding : ℕ → Option (Outcome F)
  unfolding fill start_result is_bandwidth_full sorts_before stable_sort dynamic_seeding_cat
  do_dynamic_seeding fuel =
      if le64 config.dynamic_seeding_size_value min_size
      then some Outcome.insufficient_size
      else if config.global_hn_r
      then some Outcome.global_hn_r_site
      else elim client.get_status [
        | none ↦ some Outcome.no_status
        | some status ↦
            if status.no_add
            then some (
                Outcome.decided (record (start_result timestamp config) { msg = Msg.client_noadd }))
            else if is_bandwidth_full status
            then some (
                Outcome.decided
                  (record (start_result timestamp config) { msg = Msg.bandwidth_full }))
            else elim (client.get_torrents [] (dynamic_seeding_cat config) true) [
              | none ↦ some Outcome.no_torrents
              | some torrents ↦ fill fuel status (stable_sort sorts_before torrents)
            ]
      ]
