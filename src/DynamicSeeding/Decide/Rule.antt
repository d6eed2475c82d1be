-- ===== src/DynamicSeeding/Decide/Rule.antt =====
-- A proof rule for doDynamicSeeding: what holds of each way out of the code holds of its result.
use ptool.Base.{
  ℕ, ◌≡◌, refl, inl, inr, true, Option, some, List, [], if_ind, length, leb, Option-cases,
}
use ptool.Base.Int.{ℤ, pos}
use ptool.Base.Int64.{lt64, le64, min64, quot64}
use ptool.Base.Text.{Text, Unicode}
use ptool.Base.Float.{Float}
use ptool.Base.Sort.{stable_sort}
use ptool.Client
use ptool.Client.{Status}
use ptool.Client.Reads.{Reads}
use ptool.Site
use ptool.DynamicSeeding.Data.{SiteConfig, Result, Outcome, min_size, max_parallel_download}
use ptool.DynamicSeeding.Decide.{
  sorts_before, dynamic_seeding_cat, space_to_fill, triage_of, start_result, scan_of, finish_scan,
  fill, is_bandwidth_full, do_dynamic_seeding,
}

module _ {F : Type 0} ⦃fl : Float F⦄ ⦃u : Unicode⦄ (msgs : List (Text × ℤ)) (timestamp : ℤ)
    (config : SiteConfig) (ignores : List Text) (client : Reads)
    (get_all_torrents : Text → Text → Option (List (Site.Torrent F) × Text))
    (shuffle : List (Site.Torrent F) → List (Site.Torrent F)) where
  -- A proof rule: `P` holds of each way out of the code.
  module _ (fuel : ℕ) (P : Option (Outcome F) → Type 0) (size : P (some Outcome.insufficient_size))
      (hn_r : P (some Outcome.global_hn_r_site)) (no_status : P (some Outcome.no_status))
      (no_torrents : P (some Outcome.no_torrents))
      (idle : (r : Result F)
        → r.delete_torrents ≡ []
        → r.add_torrents ≡ []
        → P (some (Outcome.decided r)))
      (scanned : (status : Status) (ts : List Client.Torrent) (r : Result F)
        → client.get_status ≡ some status
        → client.get_torrents [] (dynamic_seeding_cat config) true ≡ some ts
        → r.delete_torrents ≡ []
        → r.add_torrents ≡ []
        → P (
            let sorted = stable_sort sorts_before ts in
            let tri = triage_of msgs timestamp config client sorted in
            finish_scan msgs timestamp config ignores client get_all_torrents shuffle status sorted
              tri r
              (scan_of msgs timestamp config ignores client get_all_torrents shuffle fuel status
                tri))) where
    fill_rule :
        (status : Status) (ts : List Client.Torrent)
        → client.get_status ≡ some status
        → client.get_torrents [] (dynamic_seeding_cat config) true ≡ some ts
        → P (
            fill msgs timestamp config ignores client get_all_torrents shuffle fuel status
              (stable_sort sorts_before ts))
    unfolding fill start_result
    fill_rule status ts is_status is_list =
        let tri = triage_of msgs timestamp config client (stable_sort sorts_before ts) in
        if_ind P (leb max_parallel_download (length tri.downloading)) _ _ (λ _. idle _ refl refl)
          (λ _.
            if_ind P
              (lt64 (space_to_fill config status tri)
                (min64 (quot64 config.dynamic_seeding_size_value (pos 10)) min_size))
              _ _ (λ _. idle _ refl refl) (λ _. scanned status ts _ is_status is_list refl refl))

    pub do_dynamic_seeding_rule :
        P (do_dynamic_seeding msgs timestamp config ignores client get_all_torrents shuffle fuel)
    unfolding do_dynamic_seeding start_result
    do_dynamic_seeding_rule =
        if_ind P (le64 config.dynamic_seeding_size_value min_size) _ _ (λ _. size)
          (λ _.
            if_ind P config.global_hn_r _ _ (λ _. hn_r)
              (λ _. elim (Option-cases client.get_status) [
                | inl e ↦ rw e no_status
                | inr (status, e) ↦ rw e (
                    if_ind P status.no_add _ _ (λ _. idle _ refl refl)
                      (λ _.
                        if_ind P
                          (is_bandwidth_full msgs timestamp config ignores client get_all_torrents
                            shuffle status)
                          _ _ (λ _. idle _ refl refl)
                          (λ _.
                            elim (Option-cases
                              (client.get_torrents [] (dynamic_seeding_cat config) true)) [
                                | inl e' ↦ rw e' no_torrents
                                | inr (ts, e') ↦ rw e' (fill_rule status ts e e')
                              ])))
              ]))
