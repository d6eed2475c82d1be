-- ===== src/Brush/Admitted.antt =====
-- Which torrents of the site Decide considers for adding.
use mathlib.Core.List.{Memᴰ}
use ptool.Base.{
  ◌≡◌, refl, ◌⊎◌, inl, inr, true, false, List, [], ◌∷◌, arith, All, All-mono, if_ind, Bool-cases,
}
use ptool.Base.Int.{pos, ◌≤ℤ◌}
use ptool.Base.Int64.{sub64, lt64, le64, eq64, le64_iff, lt64-not-le64, mul64, capped_le}
use ptool.Base.Text.{Unicode}
use ptool.Base.Float.{Float, float, is_zero}
use ptool.Base.Sort.{stable_sort-All}
use ptool.Site
use ptool.Brush.Data.{SiteOption, CandidateTorrent}
use ptool.Brush.Rate.{is_refused, is_outdated, rate_site_torrent, prediction}
use ptool.Brush.Add.{candidates_from, candidates, has_higher_score}

module _ {F : Type 0} ⦃fl : Float F⦄ ⦃u : Unicode⦄ (so : SiteOption) where
  -- What the options ask of a torrent, one by one.
  pub record IsAdmitted (t : Site.Torrent F) : Type 0 where
    pub inactive : t.is_active ≡ false
    pub counts_upload : is_zero t.upload_multiplier ≡ false
    pub no_hr : (so.allow_hr ≡ true) ⊎ (t.has_hn_r ≡ false)
    pub free : (so.allow_none_free ≡ true) ⊎ (is_zero t.download_multiplier ≡ true)
    pub unpaid : (so.allow_paid ≡ true) ⊎ ((t.paid ≡ false) ⊎ (t.bought ≡ true))
    pub large_enough : so.torrent_min_size_limit ≤ℤ t.size
    pub small_enough : t.size ≤ℤ so.torrent_max_size_limit
    pub stays_free :
        (lt64 (pos 0) t.discount_end_time ≡ false) ⊎ (pos 3600 ≤ℤ sub64 t.discount_end_time so.now)
    pub has_seeders : (so.allow_zero_seeders ≡ true) ⊎ (eq64 t.seeders (pos 0) ≡ false)
    pub has_leechers :
        ((so.accept_any_free ≡ true) × (is_zero t.download_multiplier ≡ true))
        ⊎ (lt64 t.seeders t.leechers ≡ true)
    pub not_excluded : Site.match_filters_or t so.excludes ≡ false
    pub not_tagged : Site.has_any_tag t so.exclude_tags ≡ false
    pub not_outdated :
        (so.accept_any_free ≡ true)
        ⊎ ((le64 (sub64 so.now t.time) (pos 2592000) ≡ false)
            ⊎ ((lt64 (sub64 so.now t.time) (pos 86400) ≡ true)
                × ((lt64 (sub64 so.now t.time) (pos 7200) ≡ true) ⊎ (pos 500 ≤ℤ t.leechers))))

  not_outdated_of :
      (t : Site.Torrent F)
      → is_outdated t so ≡ false
      → (so.accept_any_free ≡ true)
        ⊎ ((le64 (sub64 so.now t.time) (pos 2592000) ≡ false)
            ⊎ ((lt64 (sub64 so.now t.time) (pos 86400) ≡ true)
                × ((lt64 (sub64 so.now t.time) (pos 7200) ≡ true) ⊎ (pos 500 ≤ℤ t.leechers))))
  unfolding is_outdated
  not_outdated_of t h =
      let age = sub64 so.now t.time in
      ground (
        arith,
        lt64-not-le64 age (pos 86400),
        lt64-not-le64 age (pos 7200),
        lt64-not-le64 t.leechers (pos 500),
        le64_iff (pos 500) t.leechers,
      )

  IsAdmitted-of :
      (t : Site.Torrent F)
      → is_refused t so ≡ false
      → Site.match_filters_or t so.excludes ≡ false
      → Site.has_any_tag t so.exclude_tags ≡ false
      → is_outdated t so ≡ false
      → IsAdmitted t
  unfolding is_refused
  IsAdmitted-of t a b c d = record {
    inactive = ground arith;
    counts_upload = ground arith;
    no_hr = ground arith;
    free = ground arith;
    unpaid = ground arith;
    large_enough = ground (
      arith,
      lt64-not-le64 t.size so.torrent_min_size_limit,
      le64_iff so.torrent_min_size_limit t.size,
    );
    small_enough = ground (
      arith,
      lt64-not-le64 so.torrent_max_size_limit t.size,
      le64_iff t.size so.torrent_max_size_limit,
    );
    stays_free = ground (
      arith,
      lt64-not-le64 (sub64 t.discount_end_time so.now) (pos 3600),
      le64_iff (pos 3600) (sub64 t.discount_end_time so.now),
    );
    has_seeders = ground arith;
    has_leechers = ground (arith, lt64-not-le64 t.seeders t.leechers);
    not_excluded = b;
    not_tagged = c;
    not_outdated = not_outdated_of t d;
  }

  -- The candidate is made from a torrent of the list that the options admit.
  pub record IsMadeFrom (ts : List (Site.Torrent F)) (c : CandidateTorrent F) : Type 0 where
    pub source : Site.Torrent F
    pub listed : Memᴰ source ts
    pub admitted : IsAdmitted source
    pub same_url : c.download_url ≡ source.download_url
    pub same_size : c.size ≡ source.size
    pub rated : c.score ≡ (rate_site_torrent source so).0
    pub predicted : c.prediction_upload_speed ≤ℤ so.torrent_upload_speed_limit

  module _ (zero : fl.lt (float (pos 0)) (float (pos 0)) ≡ false) where
    -- A torrent with a positive score passed all tests.
    rated_positive :
        (t : Site.Torrent F)
        → fl.lt (float (pos 0)) (rate_site_torrent t so).0 ≡ true
        → IsAdmitted t × ((rate_site_torrent t so).1 ≡ prediction t so)
    unfolding rate_site_torrent
    rated_positive t h = elim (Bool-cases (is_refused t so)) [
      | inl a ↦ absurd (ground arith)
      | inr a ↦ elim (Bool-cases (Site.match_filters_or t so.excludes)) [
        | inl b ↦ absurd (ground arith)
        | inr b ↦ elim (Bool-cases (Site.has_any_tag t so.exclude_tags)) [
          | inl c ↦ absurd (ground arith)
          | inr c ↦ elim (Bool-cases (is_outdated t so)) [
            | inl d ↦ absurd (ground arith)
            | inr d ↦ (IsAdmitted-of t a b c d, ground arith)
          ]
        ]
      ]
    ]

    prediction-le : (t : Site.Torrent F) → prediction t so ≤ℤ so.torrent_upload_speed_limit
    unfolding prediction
    prediction-le t =
        capped_le (mul64 (mul64 t.leechers (pos 100)) (pos 1024)) so.torrent_upload_speed_limit

    candidates_from-IsMadeFrom :
        (ts : List (Site.Torrent F)) → All (IsMadeFrom ts) (candidates_from so ts)
    unfolding candidates_from
    candidates_from-IsMadeFrom [] = tt
    candidates_from-IsMadeFrom (t ∷ ts) =
        let later : All (IsMadeFrom (t ∷ ts)) (candidates_from so ts) =
          All-mono (IsMadeFrom ts) (IsMadeFrom (t ∷ ts)) (candidates_from so ts)
            (λ c m. record {
              source = m.source;
              listed = Memᴰ.tail m.listed;
              admitted = m.admitted;
              same_url = m.same_url;
              same_size = m.same_size;
              rated = m.rated;
              predicted = m.predicted;
            })
            (candidates_from-IsMadeFrom ts) in
        if_ind (All (IsMadeFrom (t ∷ ts))) (fl.lt (float (pos 0)) (rate_site_torrent t so).0) _ _
          (λ h. (
            record {
              source = t;
              listed = Memᴰ.head refl;
              admitted = (rated_positive t h).0;
              same_url = refl;
              same_size = refl;
              rated = refl;
              predicted = rw (rated_positive t h).1 (prediction-le t);
            },
            later,
          ))
          (λ _. later)

    -- If a score 0 does not count as positive, each candidate for adding comes from a torrent of
    -- the site's list that the options admit in every respect, has the score that this torrent is
    -- given, and promises no more than the upload speed limit.
    pub candidates-IsMadeFrom :
        (ts : List (Site.Torrent F)) → All (IsMadeFrom ts) (candidates so ts)
    unfolding candidates
    candidates-IsMadeFrom ts =
        stable_sort-All has_higher_score _ (candidates_from so ts) (candidates_from-IsMadeFrom ts)
