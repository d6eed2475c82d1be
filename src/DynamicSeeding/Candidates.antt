-- ===== src/DynamicSeeding/Candidates.antt =====
-- Which torrents of the site doDynamicSeeding takes as candidates, and that its scan ends.
use ptool.Base.{
  ℕ, zero, suc, ◌≡◌, refl, inl, inr, false, ◌&&◌, Option, none, some, List, [], ◌∷◌, if_ind, All,
  All-append, ||-false, length, Option-cases,
}
use ptool.Base.Int.{ℤ, pos}
use ptool.Base.Int64.{add64, lt64, le64}
use ptool.Base.Text.{Text, Unicode, str_eq}
use ptool.Base.Float.{Float}
use ptool.Base.Sort.{stable_sort}
use ptool.Site.{Torrent}
use ptool.DynamicSeeding.Data.{SiteConfig}
use ptool.DynamicSeeding.Scan.{
  Scan, is_ignored, is_inactive, costs, ends_early, does_not_fit, is_unfit, scan_one, scan_page,
  scan_site, has_fewer_seeders,
}

module _ {F : Type 0} (get_all_torrents : Text → Option (List (Torrent F) × Text)) where
  -- The site's pages from the marker on come to an end within so many: there is an error, or no
  -- next page.
  abbrev pub EndsWithin : ℕ → Text → Type 0
  EndsWithin zero marker = (get_all_torrents marker ≡ none)
  EndsWithin (suc pages) marker =
      (torrents : List (Torrent F)) (next_marker : Text)
      → get_all_torrents marker ≡ some (torrents, next_marker)
      → str_eq next_marker [] ≡ false
      → EndsWithin pages next_marker

module _ {F : Type 0} ⦃fl : Float F⦄ ⦃u : Unicode⦄ (config : SiteConfig) (ignores : List Text)
    (timestamp speed_limit max_scan max_seeders available_space : ℤ) where
  -- The torrent passed all tests, where the candidates before it have the size `found_size`.
  pub record IsCandidate (t : Torrent F) : Type 0 where
    pub found_size : ℤ
    pub not_ignored :
        is_ignored config ignores timestamp speed_limit max_scan max_seeders available_space t
        ≡ false
    pub seeded :
        is_inactive config ignores timestamp speed_limit max_scan max_seeders available_space t
        ≡ false
    pub few_seeders : le64 max_seeders t.seeders ≡ false
    pub free :
        costs config ignores timestamp speed_limit max_scan max_seeders available_space t ≡ false
    pub stays_free :
        ends_early config ignores timestamp speed_limit max_scan max_seeders available_space t
        ≡ false
    pub fits :
        does_not_fit config ignores timestamp speed_limit max_scan max_seeders available_space
          found_size t
        ≡ false

  abbrev HasCandidates : Scan F → Type 0
  HasCandidates s = All IsCandidate s.found

  scan_one-HasCandidates :
      (t : Torrent F) (s : Scan F)
      → HasCandidates s
      → HasCandidates
          (scan_one config ignores timestamp speed_limit max_scan max_seeders available_space t s)
  unfolding scan_one is_unfit
  scan_one-HasCandidates t s h =
      if_ind HasCandidates
        (is_ignored config ignores timestamp speed_limit max_scan max_seeders available_space t) _ _
        (λ _. h)
        (λ not_ignored.
          if_ind HasCandidates
            (is_inactive config ignores timestamp speed_limit max_scan max_seeders available_space
              t)
            _ _ (λ _. h)
            (λ seeded.
              if_ind HasCandidates (le64 max_seeders t.seeders) _ _ (λ _. h)
                (λ few.
                  if_ind HasCandidates
                    (lt64 (pos 0) max_scan && lt64 max_scan (add64 s.scanned (pos 1))) _ _ (λ _. h)
                    (λ _.
                      if_ind HasCandidates
                        (is_unfit config ignores timestamp speed_limit max_scan max_seeders
                          available_space s.found_size t)
                        _ _ (λ _. h)
                        (λ fit. All-append IsCandidate s.found _ h (
                          record {
                            found_size = s.found_size;
                            not_ignored = not_ignored;
                            seeded = seeded;
                            few_seeders = few;
                            free = (||-false _ _ fit).0;
                            stays_free = (||-false _ _ (||-false _ _ fit).1).0;
                            fits = (||-false _ _ (||-false _ _ fit).1).1;
                          },
                          tt,
                        ))))))

  scan_page-HasCandidates :
      (ts : List (Torrent F)) (s : Scan F)
      → HasCandidates s
      → HasCandidates
          (scan_page config ignores timestamp speed_limit max_scan max_seeders available_space ts s)
  unfolding scan_page
  scan_page-HasCandidates [] s h = h
  scan_page-HasCandidates (t ∷ ts) s h =
      let s' =
        scan_one config ignores timestamp speed_limit max_scan max_seeders available_space t s in
      let h' = scan_one-HasCandidates t s h in
      if_ind HasCandidates s'.stopped s'
        (scan_page config ignores timestamp speed_limit max_scan max_seeders available_space ts s')
        (λ _. h') (λ _. scan_page-HasCandidates ts s' h')

  module _ (get_all_torrents : Text → Option (List (Torrent F) × Text))
      (shuffle : List (Torrent F) → List (Torrent F)) (slots : ℤ) where
    abbrev AllCandidates : Option (Scan F) → Type 0
    AllCandidates none = Unit
    AllCandidates (some s) = HasCandidates s

    pub scan_site-AllCandidates :
        (fuel : ℕ) (marker : Text) (s : Scan F)
        → HasCandidates s
        → AllCandidates (
            scan_site config ignores timestamp speed_limit max_scan max_seeders available_space
              get_all_torrents shuffle slots fuel marker s)
    unfolding scan_site
    scan_site-AllCandidates zero marker s h = tt
    scan_site-AllCandidates (suc fuel) marker s h = elim (Option-cases (get_all_torrents marker)) [
      | inl e ↦ rw (e, scan_site) h
      | inr ((torrents, next_marker), e) ↦
          let page =
            stable_sort
              (has_fewer_seeders config ignores timestamp speed_limit max_scan max_seeders
                available_space get_all_torrents shuffle slots)
              (shuffle torrents) in
          let s' =
            scan_page config ignores timestamp speed_limit max_scan max_seeders available_space page
              s in
          let next =
            scan_site config ignores timestamp speed_limit max_scan max_seeders available_space
              get_all_torrents shuffle slots fuel next_marker s' in
          let h' = scan_page-HasCandidates page s h in
          rw (e, scan_site)
            (if_ind AllCandidates s'.stopped (some s') _ (λ _. h')
              (λ _.
                if_ind AllCandidates (le64 slots (pos (length s'.found))) (some s') _ (λ _. h')
                  (λ _.
                    if_ind AllCandidates (str_eq next_marker []) (some s') next (λ _. h')
                      (λ _. scan_site-AllCandidates fuel next_marker s' h'))))
    ]

    abbrev Returns : Option (Scan F) → Type 0
    Returns o = (s : Scan F) × (o ≡ some s)

    -- With fuel for one page more than the site has, the scan of the site comes to an end.
    pub scan_site-Returns :
        (pages : ℕ) (marker : Text) (s : Scan F)
        → EndsWithin get_all_torrents pages marker
        → Returns (
            scan_site config ignores timestamp speed_limit max_scan max_seeders available_space
              get_all_torrents shuffle slots
              (suc pages)
              marker
              s)
    unfolding scan_site
    scan_site-Returns zero marker s h = rw (h, scan_site) (s, refl)
    scan_site-Returns (suc pages) marker s h = elim (Option-cases (get_all_torrents marker)) [
      | inl e ↦ rw (e, scan_site) (s, refl)
      | inr ((torrents, next_marker), e) ↦
          let page =
            stable_sort
              (has_fewer_seeders config ignores timestamp speed_limit max_scan max_seeders
                available_space get_all_torrents shuffle slots)
              (shuffle torrents) in
          let s' =
            scan_page config ignores timestamp speed_limit max_scan max_seeders available_space page
              s in
          let next =
            scan_site config ignores timestamp speed_limit max_scan max_seeders available_space
              get_all_torrents shuffle slots (suc pages) next_marker s' in
          rw (e, scan_site)
            (if_ind Returns s'.stopped (some s') _ (λ _. (s', refl))
              (λ _.
                if_ind Returns (le64 slots (pos (length s'.found))) (some s') _ (λ _. (s', refl))
                  (λ _.
                    if_ind Returns (str_eq next_marker []) (some s') next (λ _. (s', refl))
                      (λ more.
                        scan_site-Returns pages next_marker s' (h torrents next_marker e more)))))
    ]
