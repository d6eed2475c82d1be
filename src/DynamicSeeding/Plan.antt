-- ===== src/DynamicSeeding/Plan.antt =====
-- What doDynamicSeeding decides to delete and to add, and that it decides.
use mathlib.Core.List.{Memᴰ}
use ptool.Base.{
  ℕ, suc, ◌≡◌, refl, sym, ap, true, ◌==◌, Option, none, some, List, [], ◌∷◌, if_ind, All, All-of,
  All-mono, All-Mem, length,
}
use mathlib.Core.Path.{subst}
use ptool.Base.Int.{ℤ, pos, ◌-ℤ◌}
use ptool.Base.Text.{Text, Unicode}
use ptool.Base.Float.{Float}
use ptool.Base.Sort.{stable_sort, stable_sort-All}
use ptool.Util.Data.{first_non_zero}
use ptool.Client
use ptool.Client.{Status}
use ptool.Client.Match.{generate_torrent_tag_from_site}
use ptool.Client.Reads.{Reads}
use ptool.Site
use ptool.DynamicSeeding.Data.{
  SiteConfig, Result, Outcome, max_seeders, min_seeders, min_replace_seeders_diff,
  max_scanned_torrents, max_parallel_download,
}
use ptool.DynamicSeeding.Triage.{Triage, no_triage}
use ptool.DynamicSeeding.Triage.Rule.{Stems, IsPooled, triage-IsPooled}
use ptool.DynamicSeeding.Scan.{Scan}
use ptool.DynamicSeeding.Candidates.{
  IsCandidate, scan_site-AllCandidates, EndsWithin, scan_site-Returns,
}
use ptool.DynamicSeeding.Replace.Rule.{replace_loop-All, replace_loop-no_del}
use ptool.DynamicSeeding.Decide.{
  sorts_before, dynamic_seeding_cat, speed_limit_of, torrents_url, space_to_fill, pools_of,
  space_left, triage_of, scan_of, finish, finish_scan, do_dynamic_seeding,
}
use ptool.DynamicSeeding.Decide.Rule.{do_dynamic_seeding_rule}

-- The seeder limits that hold for the site.
abbrev pub min_seeders_of : SiteConfig → ℤ
min_seeders_of config = first_non_zero (config.dynamic_seeding_min_seeders ∷ min_seeders ∷ [])

abbrev pub max_seeders_of : SiteConfig → ℤ
max_seeders_of config = first_non_zero (config.dynamic_seeding_max_seeders ∷ max_seeders ∷ [])

abbrev pub max_scan_of : SiteConfig → ℤ
max_scan_of config = first_non_zero (config.dynamic_seeding_max_scan ∷ max_scanned_torrents ∷ [])

-- The client lists the torrent in the category of the site's dynamic seeding.
abbrev pub IsListed : SiteConfig → Reads → Client.Torrent → Type 0
IsListed config client t =
    (ts : List Client.Torrent) × (client.get_torrents [] (dynamic_seeding_cat config) true
      ≡ some ts)
    × Memᴰ t ts

-- The decision, where there is one, has the property.
abbrev pub Decides : {F : Type 0} → (Result F → Type 0) → Option (Outcome F) → Type 0
Decides P (some (Outcome.decided r)) = P r
Decides P _ = Unit

module _ {F : Type 0} ⦃fl : Float F⦄ ⦃u : Unicode⦄ (msgs : List (Text × ℤ)) (timestamp : ℤ)
    (config : SiteConfig) (ignores : List Text) (client : Reads)
    (get_all_torrents : Text → Text → Option (List (Site.Torrent F) × Text))
    (shuffle : List (Site.Torrent F) → List (Site.Torrent F)) where
  -- The hash is that of a listed torrent that the triage offers for deletion.
  abbrev pub StemsFrom : Text → Type 0
  StemsFrom =
      Stems msgs client.get_torrent_trackers timestamp (min_seeders_of config)
        (max_seeders_of config) (generate_torrent_tag_from_site config.name)
        (IsListed config client)

  triage_of-IsPooled :
      (ts : List Client.Torrent)
      → client.get_torrents [] (dynamic_seeding_cat config) true ≡ some ts
      → IsPooled msgs client.get_torrent_trackers timestamp
          (min_seeders_of config)
          (max_seeders_of config)
          (generate_torrent_tag_from_site config.name)
          (IsListed config client)
          (triage_of msgs timestamp config client (stable_sort sorts_before ts))
  unfolding triage_of
  triage_of-IsPooled ts e =
      triage-IsPooled msgs client.get_torrent_trackers timestamp (min_seeders_of config)
        (max_seeders_of config) (generate_torrent_tag_from_site config.name)
        (IsListed config client) (stable_sort sorts_before ts) no_triage
        (stable_sort-All sorts_before (IsListed config client) ts
          (All-mono (λ t. Memᴰ t ts) (IsListed config client) ts (λ t m. (ts, e, m)) (All-Mem ts)))
        (record { invalid = tt; stalled = tt; safe = tt; normal = tt })

  finish_scan-deletes :
      (status : Status) (ts : List Client.Torrent) (r : Result F) (scan : Option (Scan F))
      → client.get_torrents [] (dynamic_seeding_cat config) true ≡ some ts
      → r.delete_torrents ≡ []
      → Decides
          (λ r. All (λ t. StemsFrom t.info_hash) r.delete_torrents)
          (let sorted = stable_sort sorts_before ts in
            finish_scan msgs timestamp config ignores client get_all_torrents shuffle status sorted
              (triage_of msgs timestamp config client sorted)
              r
              scan)
  unfolding finish_scan finish pools_of
  finish_scan-deletes status ts r none e empty = tt
  finish_scan-deletes status ts r (some scan) e empty =
      let p = triage_of-IsPooled ts e in
      if_ind (λ (r : Result F). All (λ t. StemsFrom t.info_hash) r.delete_torrents)
        (length scan.found == 0) _ _ (λ _. rw empty tt)
        (λ _.
          (replace_loop-All (stable_sort sorts_before ts) StemsFrom (λ _. Unit) status.no_del _
            scan.found _ _
            (record { invalid = p.invalid; stalled = p.stalled; safe = p.safe; normal = p.normal })
            (All-of (λ _. Unit) scan.found (λ _. tt))).0)

  -- Each torrent that the decision deletes has the info hash of one that the client lists in the
  -- category, that has the site's tag and no "nodel" tag, and that either is incomplete and refused
  -- by its trackers an hour after it was added, or inactive for three hours; or is complete and
  -- seeding, and refused by its trackers, or seeded by more than the minimum (or the maximum) of
  -- others and complete for ten days.
  pub do_dynamic_seeding-deletes :
      (fuel : ℕ)
      → Decides
          (λ r. All (λ t. StemsFrom t.info_hash) r.delete_torrents)
          (do_dynamic_seeding msgs timestamp config ignores client get_all_torrents shuffle fuel)
  do_dynamic_seeding-deletes fuel =
      do_dynamic_seeding_rule msgs timestamp config ignores client get_all_torrents shuffle fuel
        (Decides (λ r. All (λ t. StemsFrom t.info_hash) r.delete_torrents)) tt tt tt tt
        (λ r e _. rw e tt)
        (λ status ts r _ is_list e _. finish_scan-deletes status ts r _ is_list e)

  finish_scan-no_del :
      (status : Status) (ts : List Client.Torrent) (tri : Triage) (r : Result F)
      (scan : Option (Scan F))
      → status.no_del ≡ true
      → r.delete_torrents ≡ []
      → Decides
          (λ r. r.delete_torrents ≡ [])
          (finish_scan msgs timestamp config ignores client get_all_torrents shuffle status ts tri r
            scan)
  unfolding finish_scan finish
  finish_scan-no_del status ts tri r none no_del empty = tt
  finish_scan-no_del status ts tri r (some scan) no_del empty = rw no_del (
      if_ind (λ (r : Result F). r.delete_torrents ≡ []) (length scan.found == 0) _ _ (λ _. empty)
        (λ _.
          replace_loop-no_del ts
            (first_non_zero
              (config.dynamic_seeding_replace_seeders ∷ min_replace_seeders_diff ∷ []))
            scan.found (space_left config tri) (pools_of tri)))

  -- If the client's status says not to delete, the decision deletes nothing.
  pub do_dynamic_seeding-no_del :
      (fuel : ℕ) (status : Status)
      → client.get_status ≡ some status
      → status.no_del ≡ true
      → Decides
          (λ r. r.delete_torrents ≡ [])
          (do_dynamic_seeding msgs timestamp config ignores client get_all_torrents shuffle fuel)
  do_dynamic_seeding-no_del fuel status is_status no_del =
      do_dynamic_seeding_rule msgs timestamp config ignores client get_all_torrents shuffle fuel
        (Decides (λ r. r.delete_torrents ≡ [])) tt tt tt tt (λ r e _. e)
        (λ status' ts r is_status' is_list e _.
          let same : status' ≡ status = cc in
          finish_scan-no_del status' (stable_sort sorts_before ts) _ r _
            (subst (λ s. s.no_del ≡ true) (sym same) no_del) e)

  -- The torrent passed the tests of the scan, with the client's status, for some space.
  abbrev pub IsAdded : Site.Torrent F → Type 0
  IsAdded t =
      (status : Status) × (space : ℤ) × (client.get_status ≡ some status)
      × IsCandidate config ignores timestamp (speed_limit_of status) (max_scan_of config)
          (max_seeders_of config) space t

  abbrev Finds : (Site.Torrent F → Type 0) → Option (Scan F) → Type 0
  Finds P none = Unit
  Finds P (some scan) = All P scan.found

  Finds-mono :
      (P Q : Site.Torrent F → Type 0) (o : Option (Scan F))
      → ((t : Site.Torrent F) → P t → Q t)
      → Finds P o
      → Finds Q o
  Finds-mono P Q none f h = tt
  Finds-mono P Q (some scan) f h = All-mono P Q scan.found f h

  scan_of-Finds :
      (fuel : ℕ) (status : Status) (tri : Triage)
      → client.get_status ≡ some status
      → Finds IsAdded
          (scan_of msgs timestamp config ignores client get_all_torrents shuffle fuel status tri)
  unfolding scan_of
  scan_of-Finds fuel status tri is_status =
      Finds-mono
        (IsCandidate config ignores timestamp (speed_limit_of status) (max_scan_of config)
          (max_seeders_of config) (space_to_fill config status tri))
        IsAdded _ (λ t c. (status, space_to_fill config status tri, is_status, c))
        (scan_site-AllCandidates config ignores timestamp (speed_limit_of status)
          (max_scan_of config) (max_seeders_of config) (space_to_fill config status tri)
          (get_all_torrents (torrents_url config)) shuffle
          (pos max_parallel_download -ℤ pos (length tri.downloading)) fuel [] _ tt)

  finish_scan-adds :
      (status : Status) (ts : List Client.Torrent) (tri : Triage) (r : Result F)
      (scan : Option (Scan F))
      → r.add_torrents ≡ []
      → Finds IsAdded scan
      → Decides
          (λ r. All IsAdded r.add_torrents)
          (finish_scan msgs timestamp config ignores client get_all_torrents shuffle status ts tri r
            scan)
  unfolding finish_scan finish
  finish_scan-adds status ts tri r none empty h = tt
  finish_scan-adds status ts tri r (some scan) empty h =
      if_ind (λ (r : Result F). All IsAdded r.add_torrents) (length scan.found == 0) _ _
        (λ _. rw empty tt)
        (λ _.
          (replace_loop-All ts (λ _. Unit) IsAdded status.no_del _ scan.found
            (space_left config tri) (pools_of tri)
            (record {
              invalid = All-of (λ _. Unit) (pools_of tri).invalid (λ _. tt);
              stalled = All-of (λ _. Unit) (pools_of tri).stalled (λ _. tt);
              safe = All-of (λ _. Unit) (pools_of tri).safe (λ _. tt);
              normal = All-of (λ _. Unit) (pools_of tri).normal (λ _. tt);
            })
            h).1)

  -- Each site torrent that the decision adds passed the tests of the scan for some available space: it is not among the ignored ones, has at least one
  -- seeder and fewer than the maximum, is not active now, costs nothing, stays free for long
  -- enough, is old enough, within the size limits, and no exclusion matches it.
  pub do_dynamic_seeding-adds :
      (fuel : ℕ)
      → Decides
          (λ r. All IsAdded r.add_torrents)
          (do_dynamic_seeding msgs timestamp config ignores client get_all_torrents shuffle fuel)
  do_dynamic_seeding-adds fuel =
      do_dynamic_seeding_rule msgs timestamp config ignores client get_all_torrents shuffle fuel
        (Decides (λ r. All IsAdded r.add_torrents)) tt tt tt tt (λ r _ e. rw e tt)
        (λ status ts r is_status is_list _ e.
          finish_scan-adds status _ _ r _ e (scan_of-Finds fuel status _ is_status))

  -- The code comes to a decision or an error.
  abbrev pub Concludes : Option (Outcome F) → Type 0
  Concludes o = (outcome : Outcome F) × (o ≡ some outcome)

  finish_scan-Concludes :
      (pages : ℕ) (status : Status) (ts : List Client.Torrent) (tri : Triage) (r : Result F)
      → EndsWithin (get_all_torrents (torrents_url config)) pages []
      → Concludes (
          finish_scan msgs timestamp config ignores client get_all_torrents shuffle status ts tri r
            (scan_of msgs timestamp config ignores client get_all_torrents shuffle
              (suc pages)
              status
              tri))
  unfolding scan_of finish_scan
  finish_scan-Concludes pages status ts tri r ends =
      let (scan, e) =
        scan_site-Returns config ignores timestamp (speed_limit_of status) (max_scan_of config)
          (max_seeders_of config) (space_to_fill config status tri)
          (get_all_torrents (torrents_url config)) shuffle
          (pos max_parallel_download -ℤ pos (length tri.downloading)) pages [] _ ends in
      (
        _,
        ap
            (finish_scan msgs timestamp config ignores client get_all_torrents shuffle status ts tri
              r)
            e,
      )

  -- If the site's pages come to an end within so many, fuel for one more page gives an outcome.
  pub do_dynamic_seeding-Concludes :
      (pages : ℕ)
      → EndsWithin (get_all_torrents (torrents_url config)) pages []
      → Concludes (
          do_dynamic_seeding msgs timestamp config ignores client get_all_torrents shuffle
            (suc pages))
  do_dynamic_seeding-Concludes pages ends =
      do_dynamic_seeding_rule msgs timestamp config ignores client get_all_torrents shuffle
        (suc pages) Concludes (_, refl) (_, refl) (_, refl) (_, refl) (λ r _ _. (_, refl))
        (λ status ts r _ _ _ _. finish_scan-Concludes pages status _ _ r ends)
