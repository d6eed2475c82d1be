-- ===== src/Client/Xseed.antt =====
-- FilterTorrentsXseed and DeleteTorrentsAuto of client/client.go: which deletions keep the files.
use ptool.Base.{
  ◌>>=◌, Bool, true, false, not, Option, none, some, List, [], ◌∷◌, if◌then◌else◌, any,
}
use ptool.Base.Text.{Text, str_eq}
use ptool.Client.{Torrent}
use ptool.Client.Reads.{Reads}
use ptool.Util.Data.{map_slice}

unfoldable pub is_among : List Torrent → Torrent → Bool
unfolding any
is_among torrents st = any (λ dt. str_eq dt.info_hash st.info_hash) torrents

-- One of the torrents with the content is not in the group.
unfoldable pub has_xseed_torrent : List Torrent → List Torrent → Bool
unfolding is_among any
has_xseed_torrent torrents same_content = any (λ st. not (is_among torrents st)) same_content

module _ (client : Reads) where
  -- The loop over `rest`; the results are torrentsNoXseed and torrentsXseed.
  unfoldable pub separate : List Torrent → List Torrent → Option (List Torrent × List Torrent)
  unfolding has_xseed_torrent
  separate torrents [] = some ([], [])
  separate torrents (t ∷ rest) = do
    same_content ← client.get_torrents_by_content_path t.content_path
    (no_xseed, xseed) ← separate torrents rest
    some (
        if has_xseed_torrent torrents same_content
        then (no_xseed, t ∷ xseed)
        else (t ∷ no_xseed, xseed))

  unfoldable pub filter_torrents_xseed : List Torrent → Option (List Torrent × List Torrent)
  unfolding separate
  filter_torrents_xseed torrents = separate torrents torrents

  -- The torrents of the info hashes that the client knows.
  unfoldable pub known : List Text → List Torrent
  known [] = []
  known (info_hash ∷ rest) =
      let torrents = known rest in
      elim (client.get_torrent info_hash) [ none ↦ torrents | some torrent ↦ torrent ∷ torrents ]

  module _ {S : Type 0} (delete_torrents : List Text → Bool → S → Bool × S) where
    -- A call of DeleteTorrents, unless the list is empty. The Bool of a result says: no error.
    unfoldable pub delete_some : List Torrent → Bool → S → Bool × S
    delete_some [] delete_files s = (true, s)
    delete_some (t ∷ ts) delete_files s =
        delete_torrents (map_slice (t ∷ ts) (λ t. t.info_hash)) delete_files s

    -- From FilterTorrentsXseed on.
    unfoldable pub delete_parts : Option (List Torrent × List Torrent) → S → Bool × S
    unfolding delete_some
    delete_parts none s = (false, s)
    delete_parts (some (torrents, torrents_xseed)) s =
        let (ok, s') = delete_some torrents_xseed false s in
        if ok then delete_some torrents true s' else (false, s')

    unfoldable pub delete_torrents_auto : List Text → S → Bool × S
    unfolding filter_torrents_xseed known delete_parts
    delete_torrents_auto info_hashes s = delete_parts (filter_torrents_xseed (known info_hashes)) s
