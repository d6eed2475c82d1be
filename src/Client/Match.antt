-- ===== src/Client/Match.antt =====
-- The tests of client/client.go on one torrent, and the checks of filter arguments.
use ptool.Base.{
  ◌+◌, Bool, true, false, not, ◌&&◌, ◌||◌, List, [], ◌∷◌, ◌++◌, if◌then◌else◌, ◌==◌, length, any,
}
use ptool.Base.Int.{pos}
use ptool.Base.Int64.{eq64, le64}
use ptool.Base.Text.{Text, codes, Unicode, str_eq, has_prefix, drop}
use ptool.Util.Strings.{contains_i, is_url, all_hex}
use ptool.Util.Csv.{split_csv}
use ptool.Client.{Torrent}

unfoldable pub is_complete : Torrent → Bool
is_complete torrent = eq64 torrent.size_completed torrent.size

unfoldable pub is_full_complete : Torrent → Bool
is_full_complete torrent = eq64 torrent.size_completed torrent.size_total

unfoldable pub is_full : Torrent → Bool
is_full torrent = eq64 torrent.size torrent.size_total

module _ ⦃u : Unicode⦄ where
  unfoldable pub match_filter : Torrent → Text → Bool
  match_filter torrent filter =
      if str_eq filter [] || contains_i torrent.name filter then true else false

  unfoldable pub match_filters_or : Torrent → List Text → Bool
  unfolding match_filter any
  match_filters_or torrent filters = any (λ filter. match_filter torrent filter) filters

  unfoldable pub has_tag : Torrent → Text → Bool
  unfolding any
  has_tag torrent tag = any (λ t. u.equal_fold tag t) torrent.tags

  unfoldable pub has_any_tag : Torrent → Text → Bool
  unfolding has_tag any
  has_any_tag torrent tags =
      if str_eq tags [] then false else any (λ tag. has_tag torrent tag) (split_csv tags)

-- constants.NONE is "none".
unfoldable pub match_tracker : Torrent → Text → Bool
match_tracker torrent tracker =
    if str_eq tracker (codes "none")
    then str_eq torrent.tracker []
    else if is_url tracker
    then str_eq torrent.tracker tracker
    else str_eq torrent.tracker_domain tracker

-- The first tag "meta:value" gives the value.
meta_from_tags : Text → List Text → Text
meta_from_tags meta [] = []
meta_from_tags meta (tag ∷ tags) =
    if has_prefix tag (meta ++ codes ":")
    then drop (length meta + 1) tag
    else meta_from_tags meta tags

unfoldable pub get_meta_from_tag : Torrent → Text → Text
unfolding meta_from_tags
get_meta_from_tag torrent meta = meta_from_tags meta torrent.tags

unfoldable pub get_category_from_tag : Torrent → Text
unfolding get_meta_from_tag
get_category_from_tag torrent = get_meta_from_tag torrent (codes "category")

unfoldable pub get_site_from_tag : Torrent → Text
unfolding get_meta_from_tag
get_site_from_tag torrent = get_meta_from_tag torrent (codes "site")

unfoldable pub generate_torrent_tag_from_site : Text → Text
generate_torrent_tag_from_site site = codes "site:" ++ site

unfoldable pub generate_torrent_tag_from_category : Text → Text
generate_torrent_tag_from_category category = codes "category:" ++ category

abbrev pub states : List Text
states =
    codes "seeding"
    ∷ codes "downloading"
    ∷ codes "completed"
    ∷ codes "paused"
    ∷ codes "checking"
    ∷ codes "error"
    ∷ codes "unknown"
    ∷ []

abbrev pub state_filters : List Text
state_filters = codes "_all" ∷ codes "_active" ∷ codes "_done" ∷ codes "_undone" ∷ []

unfoldable pub match_state_filter : Torrent → Text → Bool
unfolding is_complete
match_state_filter torrent state_filter =
    if str_eq state_filter [] || str_eq state_filter (codes "_all")
    then true
    else if has_prefix state_filter (codes "_")
    then if str_eq state_filter (codes "_active")
      then le64 (pos 1024) torrent.download_speed || le64 (pos 1024) torrent.upload_speed
      else if str_eq state_filter (codes "_done")
      then is_complete torrent
      else if str_eq state_filter (codes "_undone")
      then not (is_complete torrent)
      else str_eq (drop 1 state_filter) torrent.state
    else str_eq state_filter torrent.state

unfoldable pub is_valid_info_hash : Text → Bool
is_valid_info_hash info_hash =
    length info_hash == 40 && all_hex info_hash || length info_hash == 64 && all_hex info_hash

unfoldable pub is_valid_state_filter : Text → Bool
unfolding any
is_valid_state_filter state_filter =
    if has_prefix state_filter (codes "_")
    then if any (str_eq state_filter) state_filters
      then true
      else any (str_eq (drop 1 state_filter)) states
    else false

unfoldable pub is_valid_info_hash_or_state_filter : Text → Bool
unfolding is_valid_info_hash is_valid_state_filter
is_valid_info_hash_or_state_filter state_filter =
    is_valid_info_hash state_filter || is_valid_state_filter state_filter
