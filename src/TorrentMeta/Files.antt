-- ===== src/TorrentMeta/Files.antt =====
-- RootFiles, VerifyAgaintSavePathFs, MatchTracker and MatchFilter of util/torrentutil/torrent.go.
use ptool.Base.{
  Bool, true, false, not, ◌||◌, Option, none, some, List, [], ◌∷◌, ◌++◌, if◌then◌else◌, any, map,
  ◌≡◌, refl, All, arith, inl, inr, Bool-cases, Option-cases, ◌↔◌,
}
use ptool.Base.Int.{ℤ}
use ptool.Base.Int64.{eq64, eq64_iff}
use ptool.Base.Text.{Text, codes, str_eq, cut, Unicode}
use ptool.Util.Strings.{contains_i, is_url}
use ptool.Util.Data.{unique_from, unique_slice}
use ptool.TorrentMeta.Data.{TorrentMeta, TorrentMetaFile}

-- The part of the path before the first slash.
unfoldable pub root_file : Text → Text
unfolding cut
root_file path = elim (cut b'/' path) [ none ↦ path | some (first, rest) ↦ first ]

-- The loop of RootFiles; `flags` are the names that it has met.
unfoldable pub root_files_from : List Text → List TorrentMetaFile → List Text
unfolding root_file any
root_files_from flags [] = []
root_files_from flags (file ∷ files) =
    let old = root_files_from flags files in
    let new = root_file file.path ∷ root_files_from (root_file file.path ∷ flags) files in
    if not (any (str_eq (root_file file.path)) flags) then new else old

unfoldable pub root_files : TorrentMeta → List Text
unfolding root_files_from
root_files meta =
    if not (str_eq meta.root_dir []) then meta.root_dir ∷ [] else root_files_from [] meta.files

root_files_from_unique :
    (files : List TorrentMetaFile) (flags : List Text)
    → root_files_from flags files ≡ unique_from flags (map (λ f. root_file f.path) files)
unfolding root_files_from unique_from
root_files_from_unique [] flags = refl
root_files_from_unique (file ∷ files) flags =
    elim (Bool-cases (any (str_eq (root_file file.path)) flags)) [
      | inl e ↦ rw e (root_files_from_unique files flags)
      | inr e ↦ rw (e, root_files_from_unique files (root_file file.path ∷ flags)) refl
    ]

-- RootFiles gives the root folder, or else the first parts of the paths of the files as UniqueSlice
-- would give them.
pub root_files_unique :
    (meta : TorrentMeta)
    → root_files meta ≡ (
        if str_eq meta.root_dir []
        then unique_slice (map (λ f. root_file f.path) meta.files)
        else meta.root_dir ∷ [])
unfolding root_files unique_slice
root_files_unique meta = elim (Bool-cases (str_eq meta.root_dir [])) [
  | inl e ↦ rw e (root_files_from_unique meta.files [])
  | inr e ↦ rw e refl
]

-- `size_at` is the size of the file at a path of the file system, `none` where it gives an error.
unfoldable pub verify_files : (Text → Option ℤ) → Text → List TorrentMetaFile → Bool
verify_files size_at relative_path [] = true
verify_files size_at relative_path (file ∷ files) = elim (size_at (relative_path ++ file.path)) [
  | none ↦ false
  | some size ↦
      if not (eq64 size file.size) then false else verify_files size_at relative_path files
]

abbrev pub prefix_of : Text → Text
prefix_of root_dir = if not (str_eq root_dir []) then root_dir ++ codes "/" else []

-- VerifyAgaintSavePathFs: true for no error.
unfoldable pub verify_against_save_path_fs : (Text → Option ℤ) → TorrentMeta → Bool
unfolding verify_files
verify_against_save_path_fs size_at meta = verify_files size_at (prefix_of meta.root_dir) meta.files

verify_files_iff :
    (size_at : Text → Option ℤ) (prefix : Text) (files : List TorrentMetaFile)
    → (verify_files size_at prefix files ≡ true)
      ↔ All (λ f. size_at (prefix ++ f.path) ≡ some f.size) files
unfolding verify_files
verify_files_iff size_at prefix [] = (λ _. tt, λ _. refl)
verify_files_iff size_at prefix (file ∷ files) =
    elim (Option-cases (size_at (prefix ++ file.path))) [
      | inl e ↦ rw e ground arith
      | inr (size, e) ↦
          rw e (ground (arith, eq64_iff size file.size, verify_files_iff size_at prefix files))
    ]

-- The check of a torrent against the files of a save path succeeds just where each file is there, in
-- the root folder if the torrent has one, with its size.
pub verify_against_save_path_fs_iff :
    (size_at : Text → Option ℤ) (meta : TorrentMeta)
    → (verify_against_save_path_fs size_at meta ≡ true)
      ↔ All (λ f. size_at (prefix_of meta.root_dir ++ f.path) ≡ some f.size) meta.files
unfolding verify_against_save_path_fs
verify_against_save_path_fs_iff size_at meta =
    verify_files_iff size_at (prefix_of meta.root_dir) meta.files

-- `hostname` is util.ParseUrlHostname. constants.NONE is "none".
unfoldable pub match_meta_tracker : (Text → Text) → TorrentMeta → Text → Bool
unfolding any
match_meta_tracker hostname meta tracker =
    if str_eq tracker (codes "none")
    then elim meta.trackers [ [] ↦ true | t ∷ ts ↦ false ]
    else if is_url tracker
    then any (str_eq tracker) meta.trackers
    else any (λ t. str_eq (hostname t) tracker) meta.trackers

unfoldable pub match_meta_filter : ⦃u : Unicode⦄ → TorrentMeta → Text → Bool
unfolding any
match_meta_filter meta filter =
    contains_i meta.root_dir filter || any (λ f. contains_i f.path filter) meta.files
