-- ===== src/DynamicSeeding/Scan.antt =====
-- The scan of the site's torrents in doDynamicSeeding: the candidates to add.
use ptool.Base.{
  ℕ, zero, suc, Bool, true, not, ◌&&◌, ◌||◌, Option, none, some, List, [], ◌∷◌, ◌++◌, if◌then◌else◌,
  length, any,
}
use ptool.Base.Int.{ℤ, pos}
use ptool.Base.Int64.{add64, sub64, quot64, lt64, le64, max64}
use ptool.Base.Text.{Text, str_eq, Unicode}
use ptool.Base.Float.{Float, float}
use ptool.Base.Sort.{stable_sort}
use ptool.Site.{Torrent, get_id, match_filters_or}
use ptool.DynamicSeeding.Data.{SiteConfig, min_free_remaining_time, min_torrent_age}

-- What the loop changes. `stopped` says that the code left both loops.
pub record Scan (F : Type 0) : Type 0 where
  pub found : List (Torrent F)
  pub found_size : ℤ
  pub scanned : ℤ
  pub stopped : Bool

module _ {F : Type 0} ⦃fl : Float F⦄ ⦃u : Unicode⦄ (config : SiteConfig) (ignores : List Text)
    (timestamp speed_limit max_scan max_seeders available_space : ℤ) where
  -- The `continue` before the torrent counts as scanned.
  unfoldable pub is_ignored : Torrent F → Bool
  unfolding any
  is_ignored torrent = not (str_eq torrent.id []) && any (str_eq (get_id torrent)) ignores

  unfoldable pub is_inactive : Torrent F → Bool
  is_inactive torrent = lt64 torrent.seeders (pos 1) || torrent.is_current_active

  -- The tests of a scanned torrent that make it no candidate.
  unfoldable pub costs : Torrent F → Bool
  costs torrent =
      torrent.has_hn_r
      || ((torrent.paid && not torrent.bought)
          || not (fl.eq torrent.download_multiplier (float (pos 0))))

  unfoldable pub ends_early : Torrent F → Bool
  ends_early torrent =
      let estimate_download_time = quot64 (quot64 torrent.size speed_limit) (pos 3) in
      lt64 (pos 0) torrent.discount_end_time
      && le64 (sub64 torrent.discount_end_time timestamp)
          (max64 (quot64 estimate_download_time (pos 2)) min_free_remaining_time)

  unfoldable pub does_not_fit : ℤ → Torrent F → Bool
  does_not_fit found_size torrent =
      let max_size = config.dynamic_seeding_torrent_max_size_value in
      let min_size = config.dynamic_seeding_torrent_min_size_value in
      lt64 (sub64 available_space found_size) torrent.size
      || (lt64 (sub64 timestamp torrent.time) min_torrent_age
          || (lt64 (pos 0) max_size && lt64 max_size torrent.size
              || (lt64 (pos 0) min_size && lt64 torrent.size min_size
                  || (match_filters_or torrent config.dynamic_seeding_excludes
                      || le64 max_seeders (add64 torrent.seeders torrent.leechers)))))

  unfoldable pub is_unfit : ℤ → Torrent F → Bool
  unfolding costs ends_early does_not_fit
  is_unfit found_size torrent =
      costs torrent || (ends_early torrent || does_not_fit found_size torrent)

  -- One turn of the inner loop, where it has not stopped.
  unfoldable pub scan_one : Torrent F → Scan F → Scan F
  unfolding is_ignored is_inactive is_unfit
  scan_one torrent s =
      let scanned = add64 s.scanned (pos 1) in
      if is_ignored torrent
      then s
      else if is_inactive torrent
      then s
      else if le64 max_seeders torrent.seeders
      then record s { stopped = true }
      else if lt64 (pos 0) max_scan && lt64 max_scan scanned
      then record s { scanned = scanned; stopped = true }
      else if is_unfit s.found_size torrent
      then record s { scanned = scanned }
      else record s {
        found = s.found ++ torrent ∷ [];
        found_size = add64 s.found_size torrent.size;
        scanned = scanned;
      }

  unfoldable pub scan_page : List (Torrent F) → Scan F → Scan F
  unfolding scan_one
  scan_page [] s = s
  scan_page (torrent ∷ torrents) s =
      let s' = scan_one torrent s in
      let next = scan_page torrents s' in if s'.stopped then s' else next

  -- The site: GetAllTorrents at a page marker gives the torrents and the next marker, or an error.
  -- rand.Shuffle is a parameter. `none` is the result where the fuel runs out.
  module _ (get_all_torrents : Text → Option (List (Torrent F) × Text))
      (shuffle : List (Torrent F) → List (Torrent F)) (slots : ℤ) where
    -- The torrents in the order of their seeders. The difference of two int64 is as the code's.
    unfoldable pub has_fewer_seeders : Torrent F → Torrent F → Bool
    has_fewer_seeders a b = lt64 (sub64 a.seeders b.seeders) (pos 0)

    unfoldable pub scan_site : ℕ → Text → Scan F → Option (Scan F)
    unfolding scan_page has_fewer_seeders stable_sort
    scan_site zero marker s = none
    scan_site (suc fuel) marker s = elim (get_all_torrents marker) [
      | none ↦ some s
      | some (torrents, next_marker) ↦
          let s' = scan_page (stable_sort has_fewer_seeders (shuffle torrents)) s in
          let next = scan_site fuel next_marker s' in
          if s'.stopped
          then some s'
          else if le64 slots (pos (length s'.found))
          then some s'
          else if str_eq next_marker []
          then some s'
          else next
    ]
