-- ===== src/Tests/DynamicSeeding.antt =====
-- A round of dynamic seeding that replaces a torrent of the client.
use ptool.Base.{ℕ, ◌≡◌, refl, some, Option, [], ◌∷◌, All, map, List, true}
use ptool.Base.Int.{ℤ, pos}
use ptool.Base.Text.{codes, str_eq}
use ptool.Client.{Status}
use ptool.Client.Reads.{Reads}
use ptool.Client.Trackers.{tracker_invalid_torrent_msgs}
use ptool.DynamicSeeding.Data.{Outcome}
use ptool.DynamicSeeding.Decide.{do_dynamic_seeding}
use ptool.DynamicSeeding.Plan.{
  Decides, StemsFrom, IsAdded, Concludes, do_dynamic_seeding-deletes, do_dynamic_seeding-no_del,
  do_dynamic_seeding-adds, do_dynamic_seeding-Concludes,
}
use ptool.Tests.Samples.{program, tenths, ascii, client, full_status, site_config, one_page}

abbrev now : ℤ
now = pos 2000000000

abbrev round : Option (Outcome ℤ)
round =
    do_dynamic_seeding tracker_invalid_torrent_msgs now site_config [] client one_page (λ ts. ts) 1

abbrev names : Option (Outcome ℤ) → List (List ℕ) × List (List ℕ)
names (some (Outcome.decided r)) =
    (map (λ t. t.info_hash) r.delete_torrents, map (λ t. t.name) r.add_torrents)
names _ = ([], [])

round_replaces : names round ≡ (codes "e4" ∷ [], codes "large" ∷ [])
unfolding program
round_replaces = refl

do_dynamic_seeding-deletes_example :
    Decides
      (λ r.
        All
          (λ t.
            StemsFrom tracker_invalid_torrent_msgs now site_config [] client one_page
              (λ ts. ts)
              t.info_hash)
          r.delete_torrents)
      round
do_dynamic_seeding-deletes_example =
    do_dynamic_seeding-deletes tracker_invalid_torrent_msgs now site_config [] client one_page
      (λ ts. ts) 1

do_dynamic_seeding-adds_example :
    Decides
      (λ r.
        All
          (IsAdded tracker_invalid_torrent_msgs now site_config [] client one_page (λ ts. ts))
          r.add_torrents)
      round
do_dynamic_seeding-adds_example =
    do_dynamic_seeding-adds tracker_invalid_torrent_msgs now site_config [] client one_page
      (λ ts. ts) 1

abbrev keeping_status : Status
keeping_status = record full_status { no_del = true }

abbrev keeping_client : Reads
keeping_client = record client { get_status = some keeping_status }

do_dynamic_seeding-no_del_example :
    Decides
      (λ r. r.delete_torrents ≡ [])
      (do_dynamic_seeding tracker_invalid_torrent_msgs now site_config [] keeping_client one_page
        (λ ts. ts)
        1)
do_dynamic_seeding-no_del_example =
    do_dynamic_seeding-no_del tracker_invalid_torrent_msgs now site_config [] keeping_client
      one_page (λ ts. ts) 1 keeping_status refl refl

do_dynamic_seeding-Concludes_example :
    Concludes tracker_invalid_torrent_msgs now site_config [] client one_page
      (λ ts. ts)
      (do_dynamic_seeding tracker_invalid_torrent_msgs now site_config [] client one_page
        (λ ts. ts)
        2)
unfolding str_eq
do_dynamic_seeding-Concludes_example =
    do_dynamic_seeding-Concludes tracker_invalid_torrent_msgs now site_config [] client one_page
      (λ ts. ts) 1 (λ torrents next_marker e more. cc)
