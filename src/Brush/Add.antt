-- ===== src/Brush/Add.antt =====
-- The first and the last loop of Decide: the site torrents worth adding, and the adding.
use ptool.Base.{Bool, ◌&&◌, List, [], ◌∷◌, ◌++◌, if◌then◌else◌}
use ptool.Base.Int.{ℤ, pos}
use ptool.Base.Int64.{add64, mul64, lt64, le64}
use ptool.Base.Text.{codes, Unicode}
use ptool.Base.Float.{Float, float}
use ptool.Base.Sort.{stable_sort}
use ptool.Site
use ptool.Brush.Data.{SiteOption, ClientOption, Meta, AddTorrent, CandidateTorrent}
use ptool.Brush.Rate.{rate_site_torrent}

module _ {F : Type 0} ⦃fl : Float F⦄ where
  unfoldable pub candidate_meta : Site.Torrent F → Meta
  candidate_meta t =
      if lt64 (pos 0) t.discount_end_time then (codes "dcet", t.discount_end_time) ∷ [] else []

  -- candidateTorrents[i].Score > candidateTorrents[j].Score
  unfoldable pub has_higher_score : CandidateTorrent F → CandidateTorrent F → Bool
  has_higher_score a b = fl.lt b.score a.score

  module _ ⦃u : Unicode⦄ (o : SiteOption) where
    unfoldable pub candidates_from : List (Site.Torrent F) → List (CandidateTorrent F)
    unfolding rate_site_torrent candidate_meta
    candidates_from [] = []
    candidates_from (t ∷ ts) =
        let (score, speed) = rate_site_torrent t o in
        let rest = candidates_from ts in
        if fl.lt (float (pos 0)) score
        then record {
          name = t.name;
          download_url = t.download_url;
          size = t.size;
          prediction_upload_speed = speed;
          score = score;
          meta = candidate_meta t;
        }
          ∷ rest
        else rest

    unfoldable pub candidates : List (Site.Torrent F) → List (CandidateTorrent F)
    unfolding candidates_from has_higher_score stable_sort
    candidates ts = stable_sort has_higher_score (candidates_from ts)

-- The variables that the last loop changes.
pub record Adding (F : Type 0) : Type 0 where
  pub adds : List (AddTorrent F)
  pub added : ℤ
  pub cnt : ℤ
  pub cnt_downloading : ℤ
  pub upload_speed : ℤ

module _ {F : Type 0} (o : ClientOption F) (target_speed allow_add : ℤ) where
  -- The loop's condition, but for the candidates left.
  unfoldable pub may_add : Adding F → Bool
  may_add s =
      lt64 s.cnt_downloading o.max_downloading_torrents
      && (le64 s.upload_speed (mul64 target_speed (pos 2)) && lt64 s.added allow_add)

  unfoldable pub add_one : CandidateTorrent F → Adding F → Adding F
  add_one c s = record {
    adds =
        s.adds
        ++ record {
          download_url = c.download_url;
          name = c.name;
          meta = c.meta;
          msg_score = c.score;
        }
          ∷ [];
    added = add64 s.added (pos 1);
    cnt = add64 s.cnt (pos 1);
    cnt_downloading = add64 s.cnt_downloading (pos 1);
    upload_speed = add64 s.upload_speed c.prediction_upload_speed;
  }

  unfoldable pub add_loop : List (CandidateTorrent F) → Adding F → Adding F
  unfolding may_add add_one
  add_loop [] s = s
  add_loop (c ∷ cs) s = let rest = add_loop cs (add_one c s) in if may_add s then rest else s
