-- ===== src/Brush/Rate.antt =====
-- RateSiteTorrent: the score of a site's torrent and the upload speed that it promises. The note
-- and the trace output are left out.
use ptool.Base.{Bool, true, false, not, ◌&&◌, ◌||◌, if◌then◌else◌}
use ptool.Base.Int.{ℤ, pos}
use ptool.Base.Int64.{sub64, mul64, lt64, le64, eq64}
use ptool.Base.Text.{Unicode}
use ptool.Base.Float.{Float, float, ratio, is_zero}
use ptool.Site
use ptool.Brush.Data.{SiteOption}

module _ {F : Type 0} ⦃fl : Float F⦄ ⦃u : Unicode⦄ where
  -- The first `if`: torrents that no option admits.
  unfoldable pub is_refused : Site.Torrent F → SiteOption → Bool
  is_refused t o =
      t.is_active
      || (is_zero t.upload_multiplier
          || (not o.allow_hr && t.has_hn_r
              || (not o.allow_none_free && not (is_zero t.download_multiplier)
                  || (not o.allow_paid && (t.paid && not t.bought)
                      || (lt64 t.size o.torrent_min_size_limit
                          || (lt64 o.torrent_max_size_limit t.size
                              || (lt64 (pos 0) t.discount_end_time
                                    && lt64 (sub64 t.discount_end_time o.now) (pos 3600)
                                  || (not o.allow_zero_seeders && eq64 t.seeders (pos 0)
                                      || (not o.accept_any_free
                                          || not (is_zero t.download_multiplier))
                                        && le64 t.leechers t.seeders))))))))

  -- The torrents that are neither new nor, after two hours, very popular.
  unfoldable pub is_outdated : Site.Torrent F → SiteOption → Bool
  is_outdated t o =
      let age = sub64 o.now t.time in
      if not o.accept_any_free && le64 age (pos 2592000)
      then if le64 (pos 86400) age
        then true
        else if le64 (pos 7200) age
        then lt64 t.leechers (pos 500)
        else false
      else false

  unfoldable pub prediction : Site.Torrent F → SiteOption → ℤ
  prediction t o =
      let speed = mul64 (mul64 t.leechers (pos 100)) (pos 1024) in
      if lt64 o.torrent_upload_speed_limit speed then o.torrent_upload_speed_limit else speed

  seeders_score : Site.Torrent F → F
  seeders_score t =
      if le64 t.seeders (pos 1)
      then float (pos 50)
      else if le64 t.seeders (pos 3)
      then float (pos 30)
      else float (pos 10)

  -- The factor for the size; the torrents above 100 GiB are treated by their leechers.
  size_factor : Site.Torrent F → F
  size_factor t =
      if le64 t.size (pos 1073741824)
      then float (pos 10)
      else if le64 t.size (pos 10737418240)
      then float (pos 2)
      else if le64 t.size (pos 21474836480)
      then float (pos 1)
      else if le64 t.size (pos 53687091200)
      then ratio (pos 1) (pos 2)
      else if le64 t.size (pos 107374182400)
      then ratio (pos 1) (pos 10)
      else if le64 (pos 1000) t.leechers
      then float (pos 100)
      else if le64 (pos 500) t.leechers
      then float (pos 50)
      else if le64 (pos 100) t.leechers
      then float (pos 10)
      else float (pos 0)

  unfoldable pub base_score : Site.Torrent F → F
  unfolding seeders_score size_factor
  base_score t =
      let score = fl.mul (fl.add (seeders_score t) (float t.leechers)) t.upload_multiplier in
      let paid =
        if not (is_zero t.download_multiplier)
        then fl.mul score (ratio (pos 1) (pos 2))
        else score in
      fl.mul paid (size_factor t)

  -- (score, predictionUploadSpeed)
  unfoldable pub rate_site_torrent : Site.Torrent F → SiteOption → F × ℤ
  unfolding is_refused is_outdated prediction base_score
  rate_site_torrent t o =
      if is_refused t o
      then (float (pos 0), pos 0)
      else if Site.match_filters_or t o.excludes
      then (float (pos 0), pos 0)
      else if Site.has_any_tag t o.exclude_tags
      then (float (pos 0), pos 0)
      else if is_outdated t o
      then (float (pos 0), pos 0)
      else (base_score t, prediction t o)
