-- ===== src/DynamicSeeding/Command.antt =====
-- cmd/dynamicseeding/dynamicseeding.go: the command that carries out the decision.
pub mod Deletes
pub mod Ignores
use ptool.Base.{
  ℕ, zero, suc, ◌-◌, ◌+◌, Bool, true, false, ◌&&◌, not, Option, none, some, List, [], ◌∷◌, ◌++◌,
  if◌then◌else◌, length, ltb, is_nil, ◌==◌,
}
use ptool.Base.Int.{ℤ, pos}
use ptool.Base.Int64.{add64, lt64, le64, eq64}
use ptool.Base.Text.{Text, codes, str_eq}
use ptool.Base.Dict.{get_or, insert}
use ptool.Base.Fields.{split, join}
use ptool.Base.Decimal.{sprint}
use ptool.Util.Strings.{parse_int}
use ptool.Client
use ptool.Client.Reads.{Reads}
use ptool.Client.Xseed.{delete_torrents_auto}
use ptool.Site
use ptool.TorrentMeta.Data.{TorrentMeta}
use ptool.TorrentMeta.Edit.{is_private}
use ptool.DynamicSeeding.Data.{Result}

abbrev pub ignore_file_size : ℕ
ignore_file_size = 100

-- The fields of client.TorrentOption that the command sets.
pub record AddOption : Type 0 where
  pub name : Text
  pub category : Text
  pub tags : List Text

-- What the command calls; S is the client's state. `download` is DownloadTorrent of the site, and
-- `parse` is torrentutil.ParseTorrent. The Bool of a result says: no error.
pub record World (S : Type 0) : Type 0 where
  pub download : Text → Option Text
  pub parse : Text → Option TorrentMeta
  pub trim_space : Text → Text
  pub add_torrent : Text → AddOption → List (Text × ℤ) → S → Bool × S
  pub reads : S → Reads
  pub delete_torrents : List Text → Bool → S → Bool × S

pub record Adding (S : Type 0) : Type 0 where
  pub error_cnt : ℤ
  pub added_size : ℤ
  pub client : S

abbrev pub count_error : {S : Type 0} → Adding S → Adding S
count_error s = record s { error_cnt = add64 s.error_cnt (pos 1) }

unfoldable pub option_of :
    {F : Type 0} → Text → List Text → Site.Torrent F → TorrentMeta → AddOption
unfolding is_private
option_of category tags torrent tinfo = record {
  name = torrent.name;
  category = category;
  tags = tags ++ (if is_private tinfo then codes "_private" else codes "_public") ∷ [];
}

unfoldable pub add_meta_of : {F : Type 0} → (Text → Text) → Site.Torrent F → List (Text × ℤ)
unfolding parse_int str_eq Site.get_id insert eq64
add_meta_of trim_space torrent =
    let id = parse_int trim_space (Site.get_id torrent) in
    if not (str_eq torrent.id []) && not (eq64 id (pos 0)) then insert (codes "id") id [] else []

module _ {F S : Type 0} (world : World S) (category : Text) (tags : List Text) where
  -- One turn of the first loop.
  unfoldable pub add_site_torrent : Site.Torrent F → Adding S → Adding S
  unfolding option_of add_meta_of
  add_site_torrent torrent s =
      let name = if str_eq torrent.id [] then torrent.download_url else torrent.id in
      elim (world.download name) [
        | none ↦ count_error s
        | some contents ↦ elim (world.parse contents) [
          | none ↦ count_error s
          | some tinfo ↦
              let (ok, client) =
                world.add_torrent contents (option_of category tags torrent tinfo)
                  (add_meta_of world.trim_space torrent) s.client in
              if ok
              then record s { added_size = add64 s.added_size torrent.size; client = client }
              else count_error (record s { client = client })
        ]
      ]

  unfoldable pub add_all : List (Site.Torrent F) → Adding S → Adding S
  unfolding add_site_torrent
  add_all [] s = s
  add_all (torrent ∷ torrents) s = add_all torrents (add_site_torrent torrent s)

-- deleteSize, deleteInfoHashes and deleteIds.
pub record Deleting : Type 0 where
  pub size : ℤ
  pub info_hashes : List Text
  pub ids : List Text

abbrev pub no_deletes : Deleting
no_deletes = record { size = pos 0; info_hashes = []; ids = [] }

unfoldable pub choose_one : Client.Torrent → Deleting → Deleting
unfolding get_or sprint
choose_one torrent s =
    let id = get_or (codes "id") torrent.meta (pos 0) in
    record {
      size = add64 s.size torrent.size;
      info_hashes = s.info_hashes ++ torrent.info_hash ∷ [];
      ids = if lt64 (pos 0) id then s.ids ++ sprint id ∷ [] else s.ids;
    }

-- The second loop; the limit is addedSize + OverflowSpace.
unfoldable pub choose_deletes : ℤ → List Client.Torrent → Deleting → Deleting
unfolding choose_one
choose_deletes limit [] s = s
choose_deletes limit (torrent ∷ torrents) s =
    let rest = choose_deletes limit torrents (choose_one torrent s) in
    if le64 limit s.size then s else rest

abbrev pub skip : {A : Type 0} → ℕ → List A → List A
skip zero xs = xs
skip (suc n) [] = []
skip (suc n) (x ∷ xs) = skip n xs

-- The ignores that are kept: the last ones.
unfoldable pub kept_ignores : List Text → List Text
kept_ignores ignores =
    if ltb ignore_file_size (length ignores)
    then skip (length ignores - ignore_file_size) ignores
    else ignores

-- The number of errors, the ignore file's contents, and the client.
pub record Done (S : Type 0) : Type 0 where
  pub error_cnt : ℤ
  pub ignore_file : Text
  pub client : S

module _ {S : Type 0} (world : World S) where
  unfoldable pub delete_all : Text → Deleting → ℤ → S → Done S
  unfolding delete_torrents_auto kept_ignores split join
  delete_all ignore_file deletes error_cnt s =
      let ignores = split 10 ignore_file in
      let (ok, s') =
        delete_torrents_auto (world.reads s) world.delete_torrents deletes.info_hashes s in
      if is_nil deletes.info_hashes
      then record { error_cnt = error_cnt; ignore_file = ignore_file; client = s }
      else if not ok
      then record { error_cnt = add64 error_cnt (pos 1); ignore_file = ignore_file; client = s' }
      else if is_nil deletes.ids
      then record { error_cnt = error_cnt; ignore_file = ignore_file; client = s' }
      else record {
        error_cnt = error_cnt;
        ignore_file = join 10 (kept_ignores (ignores ++ deletes.ids));
        client = s';
      }

  module _ {F : Type 0} where
    -- The first loop.
    unfoldable pub added_of : Result F → S → Adding S
    unfolding add_all
    added_of result s =
        add_all world result.add_category result.add_tags result.add_torrents
          (record { error_cnt = pos 0; added_size = pos 0; client = s })

    -- The second loop, after the first.
    unfoldable pub deletes_of : Result F → S → Deleting
    unfolding added_of choose_deletes
    deletes_of result s =
        choose_deletes (add64 (added_of result s).added_size result.overflow_space)
          result.delete_torrents no_deletes

    -- From the result of doDynamicSeeding on.
    unfoldable pub carry_out : Bool → Result F → Text → S → Done S
    unfolding added_of deletes_of delete_all
    carry_out dry_run result ignore_file s =
        let added = added_of result s in
        if dry_run
        then record { error_cnt = pos 0; ignore_file = ignore_file; client = s }
        else delete_all ignore_file (deletes_of result s) added.error_cnt added.client
