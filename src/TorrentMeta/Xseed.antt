-- ===== src/TorrentMeta/Xseed.antt =====
-- XseedCheckWithClientTorrent: whether a torrent has the contents of one of the client.
pub mod Folder
pub mod Found
pub mod Sound
use ptool.Base.{
  ◌>>=◌, Bool, true, false, not, ◌&&◌, ◌||◌, Option, none, some, List, [], ◌∷◌, ◌++◌, if◌then◌else◌,
  length, ltb, is_nil,
}
use ptool.Base.Int.{ℤ, pos, negsuc}
use ptool.Base.Int64.{eq64}
use ptool.Base.Text.{Text, codes, str_eq, cut}
use ptool.Base.Dict.{lookup, insert}
use ptool.Client.{TorrentContentFile}
use ptool.TorrentMeta.Data.{TorrentMeta, TorrentMetaFile}

-- clientRootDir and clientFilesSizeMap.
pub record ClientFiles : Type 0 where
  pub root_dir : Text
  pub sizes : List (Text × ℤ)

-- A path that is new in the map; the code returns -1 for one that is not.
unfoldable pub put_size : Text → ℤ → ClientFiles → Option ClientFiles
unfolding lookup insert
put_size path size s = elim (lookup path s.sizes) [
  | some old ↦ none
  | none ↦ some (record s { sizes = insert path size s.sizes })
]

-- One turn of the first loop. With a root folder the path of the client's file is cut at the first
-- slash, and all files have the same folder.
unfoldable pub take_file :
    {F : Type 0} → Text → TorrentContentFile F → ClientFiles → Option ClientFiles
unfolding cut put_size
take_file root_dir file s =
    if str_eq root_dir []
    then put_size file.path file.size s
    else (cut b'/' file.path >>= (λ parts.
        if str_eq s.root_dir []
        then put_size parts.1 file.size (record s { root_dir = parts.0 })
        else if not (str_eq s.root_dir parts.0)
        then none
        else put_size parts.1 file.size s))

unfoldable pub take_files :
    {F : Type 0} → Text → List (TorrentContentFile F) → ClientFiles → Option ClientFiles
unfolding take_file
take_files root_dir [] s = some s
take_files root_dir (file ∷ files) s = take_file root_dir file s >>= take_files root_dir files

-- The second loop: each file of the torrent is in the map with its size.
unfoldable pub has_files : List TorrentMetaFile → List (Text × ℤ) → Bool
unfolding lookup
has_files [] sizes = true
has_files (file ∷ files) sizes = elim (lookup file.path sizes) [
  | none ↦ false
  | some size ↦ if not (eq64 size file.size) then false else has_files files sizes
]

unfoldable pub xseed_check : {F : Type 0} → TorrentMeta → List (TorrentContentFile F) → ℤ
unfolding take_files has_files
xseed_check meta contents =
    if ltb (length contents) (length meta.files) || is_nil meta.files
    then negsuc 0
    else elim (take_files meta.root_dir contents (record { root_dir = []; sizes = [] })) [
      | none ↦ negsuc 0
      | some client ↦
          if not (has_files meta.files client.sizes)
          then negsuc 0
          else if not (str_eq meta.root_dir client.root_dir)
          then negsuc 1
          else if ltb (length meta.files) (length contents)
          then pos 1
          else pos 0
    ]
