-- ===== src/Tests/Client.antt =====
-- Queries, trackers and deletions on a small client.
use ptool.Base.{◌≡◌, refl, true, false, Bool, some, [], ◌∷◌, All, map, List, ◌>>=◌}
use ptool.Base.Int.{pos}
use ptool.Base.Text.{Text, codes}
use ptool.Client.Trackers.{TorrentTracker, tracker_invalid_torrent_msgs, speculate_tracker_validity}
use ptool.Client.Query.{query_torrents, select_torrents}
use ptool.Client.Chosen.{Queries, query_torrents-Queries}
use ptool.Client.Agree.{select_torrents-agrees}
use ptool.Client.Validity.{IsValidityOf, speculate_tracker_validity-IsLeast}
use ptool.Client.Xseed.{filter_torrents_xseed, known, delete_torrents_auto}
use ptool.Client.Whole.{
  Separates, filter_torrents_xseed-Separates, IsWholeHash, delete_torrents_auto-keeps,
}
use ptool.Tests.Samples.{program, ascii, plain_torrent, slow_torrent, client}

abbrev refusing_tracker : TorrentTracker
refusing_tracker = record {
  status = codes "error";
  url = codes "https://tracker/1";
  msg = codes "Torrent not registered with this tracker";
}

abbrev limiting_tracker : TorrentTracker
limiting_tracker = record {
  status = codes "error";
  url = codes "https://tracker/2";
  msg = codes "You already are downloading the same torrent";
}

limited :
    speculate_tracker_validity tracker_invalid_torrent_msgs
      (refusing_tracker ∷ limiting_tracker ∷ [])
    ≡ pos 1
unfolding program
limited = refl

speculate_tracker_validity-IsLeast_example :
    IsValidityOf tracker_invalid_torrent_msgs (refusing_tracker ∷ limiting_tracker ∷ []) (
      speculate_tracker_validity tracker_invalid_torrent_msgs
        (refusing_tracker ∷ limiting_tracker ∷ []))
speculate_tracker_validity-IsLeast_example =
    speculate_tracker_validity-IsLeast tracker_invalid_torrent_msgs
      (refusing_tracker ∷ limiting_tracker ∷ [])

select_downloading :
    select_torrents client [] [] [] (codes "_downloading" ∷ [])
    ≡ some (some (codes "c2" ∷ codes "d3" ∷ codes "a0" ∷ []))
unfolding program
select_downloading = refl

select_torrents-agrees_example : select_torrents client [] [] [] (codes "_downloading" ∷ []) ≡ (
    query_torrents client [] [] [] (codes "_downloading" ∷ [])
    >>= (λ ts. some (some (map (λ t. t.info_hash) ts))))
unfolding program
select_torrents-agrees_example =
    select_torrents-agrees client [] [] [] (codes "_downloading" ∷ []) refl

filter_torrents_xseed-Separates_example :
    Separates client
      (plain_torrent ∷ slow_torrent ∷ [])
      (plain_torrent ∷ slow_torrent ∷ [])
      (filter_torrents_xseed client (plain_torrent ∷ slow_torrent ∷ []))
filter_torrents_xseed-Separates_example =
    filter_torrents_xseed-Separates client (plain_torrent ∷ slow_torrent ∷ [])

-- The calls of DeleteTorrents, the last first.
abbrev log_call : List Text → Bool → List (List Text × Bool) → Bool × List (List Text × Bool)
log_call hashes files calls = (true, (hashes, files) ∷ calls)

delete_two :
    (delete_torrents_auto client log_call (codes "a0" ∷ codes "e4" ∷ []) []).1
    ≡ (codes "e4" ∷ [], true) ∷ (codes "a0" ∷ [], false) ∷ []
unfolding program
delete_two = refl

-- Each call with the files is for torrents whose content no other torrent has.
abbrev SparesOthers : List (List Text × Bool) → Type 0
SparesOthers [] = Unit
SparesOthers ((hashes, true) ∷ calls) =
    All (IsWholeHash client (known client (codes "a0" ∷ codes "e4" ∷ []))) hashes
    × SparesOthers calls
SparesOthers ((hashes, false) ∷ calls) = SparesOthers calls

delete_torrents_auto-keeps_example :
    SparesOthers (delete_torrents_auto client log_call (codes "a0" ∷ codes "e4" ∷ []) []).1
delete_torrents_auto-keeps_example =
    delete_torrents_auto-keeps client log_call SparesOthers (codes "a0" ∷ codes "e4" ∷ []) []
      (λ hashes s p. p) (λ hashes s h p. (h, p)) tt

query_torrents-Queries_example :
    Queries client [] [] []
      (codes "_downloading" ∷ [])
      (query_torrents client [] [] [] (codes "_downloading" ∷ []))
query_torrents-Queries_example = query_torrents-Queries client [] [] [] (codes "_downloading" ∷ [])
