-- ===== src/Client/Query.antt =====
-- QueryTorrents and SelectTorrents of client/client.go: the torrents that command arguments choose.
use ptool.Base.{
  ◌>>=◌, Bool, true, false, not, ◌&&◌, Option, none, some, List, [], ◌∷◌, ◌++◌, if◌then◌else◌,
}
use ptool.Base.Text.{Text, codes, str_eq, has_prefix, Unicode}
use ptool.Client.{Torrent}
use ptool.Client.Reads.{Reads}
use ptool.Client.Match.{
  match_filter, has_any_tag, match_state_filter, is_valid_info_hash, is_valid_state_filter,
  is_valid_info_hash_or_state_filter,
}

abbrev pub is_empty : {A : Type 0} → List A → Bool
is_empty [] = true
is_empty (x ∷ xs) = false

-- The arguments of QueryTorrents: `none` if one is not valid, else isAll.
unfoldable pub check_args : List Text → Bool → Option Bool
unfolding is_valid_info_hash_or_state_filter
check_args [] is_all = some is_all
check_args (arg ∷ args) is_all =
    let next = check_args args (if str_eq arg (codes "_all") then true else is_all) in
    if not (is_valid_info_hash_or_state_filter arg) then none else next

-- The arguments of SelectTorrents: isAll and isPlainInfoHashes.
unfoldable pub check_select_args : List Text → Bool → Bool → Option (Bool × Bool)
check_select_args [] is_all is_plain = some (is_all, is_plain)
check_select_args (arg ∷ args) is_all is_plain =
    let hash = check_select_args args is_all is_plain in
    let state = check_select_args args (if str_eq arg (codes "_all") then true else is_all) false in
    if is_valid_info_hash arg then hash else if not (is_valid_state_filter arg) then none else state

module _ ⦃u : Unicode⦄ where
  -- The loop's `continue` on the tag; constants.NONE is "none".
  unfoldable pub fails_tag : Text → Torrent → Bool
  fails_tag tag torrent =
      if not (str_eq tag [])
      then if str_eq tag (codes "none")
        then not (is_empty torrent.tags)
        else not (has_any_tag torrent tag)
      else false

  -- The `continue` on the name.
  unfoldable pub fails_filter : Text → Torrent → Bool
  fails_filter filter torrent = not (str_eq filter []) && not (match_filter torrent filter)

  unfoldable pub matches_arg : Torrent → Text → Bool
  matches_arg torrent arg =
      if has_prefix arg (codes "_")
      then match_state_filter torrent arg
      else str_eq arg torrent.info_hash

  module _ (tag filter : Text) (is_all : Bool) (args : List Text) where
    -- One torrent for each argument that the torrent matches.
    unfoldable pub append_matches : Torrent → List Text → List Torrent
    unfolding matches_arg
    append_matches torrent [] = []
    append_matches torrent (arg ∷ rest) =
        let next = append_matches torrent rest in
        if matches_arg torrent arg then torrent ∷ next else next

    -- What the loop of QueryTorrents appends for one torrent.
    unfoldable pub append_one : Torrent → List Torrent
    unfolding fails_tag fails_filter append_matches
    append_one torrent =
        if fails_tag tag torrent
        then []
        else if fails_filter filter torrent
        then []
        else if is_all
        then torrent ∷ []
        else append_matches torrent args

    unfoldable pub append_all : List Torrent → List Torrent
    unfolding append_one
    append_all [] = []
    append_all (torrent ∷ torrents) = append_one torrent ++ append_all torrents

    -- One info hash for each argument that the torrent matches.
    unfoldable pub append_matched_hashes : Torrent → List Text → List Text
    unfolding matches_arg
    append_matched_hashes torrent [] = []
    append_matched_hashes torrent (arg ∷ rest) =
        let next = append_matched_hashes torrent rest in
        if matches_arg torrent arg then torrent.info_hash ∷ next else next

    -- What the loop of SelectTorrents appends for one torrent.
    unfoldable pub append_hashes : Torrent → List Text
    unfolding fails_tag fails_filter append_matched_hashes
    append_hashes torrent =
        if fails_tag tag torrent
        then []
        else if fails_filter filter torrent
        then []
        else if is_all
        then torrent.info_hash ∷ []
        else append_matched_hashes torrent args

    unfoldable pub append_all_hashes : List Torrent → List Text
    unfolding append_hashes
    append_all_hashes [] = []
    append_all_hashes (torrent ∷ torrents) = append_hashes torrent ++ append_all_hashes torrents

  unfoldable pub query_torrents : Reads → Text → Text → Text → List Text → Option (List Torrent)
  unfolding check_args append_all
  query_torrents client category tag filter args = do
    is_all ← check_args args (is_empty args)
    torrents ← client.get_torrents [] category true
    some (
        if str_eq category [] && (str_eq tag [] && (str_eq filter [] && is_all))
        then torrents
        else append_all tag filter is_all args torrents)

  -- The result `some none` is the nil slice, for all torrents.
  unfoldable pub select_torrents :
      Reads → Text → Text → Text → List Text → Option (Option (List Text))
  unfolding check_select_args append_all_hashes
  select_torrents client category tag filter args = do
    (is_all, is_plain) ← check_select_args args (is_empty args) true
    let no_condition = str_eq category [] && (str_eq tag [] && str_eq filter [])
    if no_condition && is_all
        then some none
        else if no_condition && is_plain
        then some (some args)
        else elim (client.get_torrents [] category true) [
          | none ↦ none
          | some torrents ↦ some (some (append_all_hashes tag filter is_all args torrents))
        ]
