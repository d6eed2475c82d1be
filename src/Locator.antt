-- ===== src/Locator.antt =====
-- util/torrentfilelocator/torrentlocator.go: which files of a folder are the files of a torrent.
pub mod Settled
pub mod Uses
pub mod Sound
use ptool.Base.{
  ℕ, zero, suc, ◌==◌, Bool, true, false, not, ◌&&◌, ◌||◌, Option, none, some, List, [], ◌∷◌,
  if◌then◌else◌, length, is_nil, map,
}
use ptool.Base.Int.{ℤ, pos}
use ptool.Base.Int64.{add64, lt64, eq64}
use ptool.Base.Text.{Text, str_eq}
use ptool.Base.Dict.{get_or, insert}
use ptool.Util.Data.{filter}
use ptool.TorrentMeta.Data.{TorrentMetaFile}

pub data LocateState : Type 0 where
  state_none : LocateState
  state_fail : LocateState
  state_need_confirm : LocateState
  state_located : LocateState

-- `Located` of the source's type is never read.
pub record FsFile : Type 0 where
  pub path : Text
  pub name : Text
  pub size : ℤ

-- `none` is a LinkedFsFileIndex of -1; FailedFsFiles is the list of its keys.
pub record FileLink : Type 0 where
  pub state : LocateState
  pub torrent_file : TorrentMetaFile
  pub linked : Option ℕ
  pub fs_files : List FsFile
  pub failed : List ℕ

-- The fields that `update` sets, and the links.
pub record LocateResult : Type 0 where
  pub ok : Bool
  pub state : LocateState
  pub located_cnt : ℤ
  pub links : List FileLink

abbrev pub is_located : FileLink → Bool
is_located link = elim link.state [ LocateState.state_located ↦ true | _ ↦ false ]

abbrev pub is_fail : FileLink → Bool
is_fail link = elim link.state [ LocateState.state_fail ↦ true | _ ↦ false ]

-- The state and the linked index for that many candidates.
unfoldable pub candidates_state : ℕ → LocateState
candidates_state zero = LocateState.state_fail
candidates_state (suc zero) = LocateState.state_located
candidates_state (suc (suc n)) = LocateState.state_need_confirm

-- filepath.Base is a parameter.
module _ (base : Text → Text) (fs_file_infos : List FsFile) where
  unfoldable pub same_size : TorrentMetaFile → List FsFile
  unfolding filter eq64
  same_size tfile = filter fs_file_infos (λ f. eq64 f.size tfile.size)

  unfoldable pub same_name_and_size : TorrentMetaFile → List FsFile
  unfolding filter same_size
  same_name_and_size tfile = filter (same_size tfile) (λ f. str_eq f.name (base tfile.path))

  unfoldable pub link_candidates : TorrentMetaFile → List FsFile
  unfolding same_size same_name_and_size
  link_candidates tfile =
      if is_nil (same_name_and_size tfile) then same_size tfile else same_name_and_size tfile

  unfoldable pub new_link : TorrentMetaFile → FileLink
  unfolding link_candidates candidates_state
  new_link tfile =
      let fs_files = link_candidates tfile in
      record {
        state = candidates_state (length fs_files);
        torrent_file = tfile;
        linked = if length fs_files == 1 then some 0 else none;
        fs_files = fs_files;
        failed = [];
      }

-- The item at the position; the code panics where there is none.
unfoldable pub get_elem? : {A : Type 0} → List A → ℕ → Option A
get_elem? [] n = none
get_elem? (x ∷ xs) zero = some x
get_elem? (x ∷ xs) (suc n) = get_elem? xs n

-- FsFiles[LinkedFsFileIndex], which is there for a located link.
unfoldable pub linked_file : FileLink → Option FsFile
unfolding get_elem?
linked_file link = elim link.linked [ none ↦ none | some n ↦ get_elem? link.fs_files n ]

-- fsFileUsedCnt
unfoldable pub count_use : FileLink → List (Text × ℤ) → List (Text × ℤ)
unfolding linked_file get_or insert
count_use link counts =
    if is_located link
    then elim (linked_file link) [
      | none ↦ counts
      | some f ↦ insert f.path (add64 (get_or f.path counts (pos 0)) (pos 1)) counts
    ]
    else counts

unfoldable pub count_uses : List FileLink → List (Text × ℤ) → List (Text × ℤ)
unfolding count_use
count_uses [] counts = counts
count_uses (link ∷ links) counts = count_uses links (count_use link counts)

unfoldable pub is_used_twice : List (Text × ℤ) → FileLink → Bool
unfolding linked_file get_or lt64
is_used_twice counts link = elim (linked_file link) [
  | none ↦ false
  | some f ↦ lt64 (pos 1) (get_or f.path counts (pos 0))
]

-- The second loop: the links, locatedCnt and hasFailFile.
unfoldable pub settle : List (Text × ℤ) → List FileLink → List FileLink × ℤ × Bool
unfolding is_used_twice
settle counts [] = ([], pos 0, false)
settle counts (link ∷ links) =
    let (links', located_cnt, has_fail) = settle counts links in
    if is_located link
    then (if is_used_twice counts link
        then (
          (record link { state = LocateState.state_need_confirm; linked = none }) ∷ links',
          located_cnt,
          has_fail,
        )
        else (link ∷ links', add64 located_cnt (pos 1), has_fail))
    else (link ∷ links', located_cnt, has_fail || is_fail link)

unfoldable pub update_links : List FileLink → LocateResult
unfolding count_uses settle
update_links links =
    let (links', located_cnt, has_fail) = settle (count_uses links []) links in
    if eq64 located_cnt (pos (length links'))
    then record {
      ok = true;
      state = LocateState.state_located;
      located_cnt = located_cnt;
      links = links';
    }
    else record {
      ok = false;
      state = if has_fail then LocateState.state_fail else LocateState.state_need_confirm;
      located_cnt = located_cnt;
      links = links';
    }

unfoldable pub find_torrent_file_links :
    (Text → Text) → List FsFile → List TorrentMetaFile → LocateResult
unfolding new_link update_links
find_torrent_file_links base fs_file_infos files =
    update_links (map (new_link base fs_file_infos) files)
