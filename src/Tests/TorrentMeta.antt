-- ===== src/Tests/TorrentMeta.antt =====
-- A torrent of two files, with one tracker.
use ptool.Base.{
  ◌≡◌, refl, true, false, ◌||◌, Option, none, some, [], ◌∷◌, ◌++◌, List, All, map, ℕ, ◌↔◌,
  if◌then◌else◌, ◌⊎◌,
}
use mathlib.Core.List.{Memᴰ}
use ptool.Base.Int.{ℤ, pos, negsuc}
use ptool.Base.Text.{Text, codes, has_prefix, str_eq}
use ptool.Client.{TorrentContentFile}
use ptool.Util.Data.{unique_slice}
use ptool.TorrentMeta.Data.{TorrentMeta, TorrentMetaFile}
use ptool.TorrentMeta.Edit.{add_tracker, remove_tracker}
use ptool.TorrentMeta.Edit.Trackers.{
  knows, add_tracker-none, knows-add_tracker, remove_tracker-add_tracker,
}
use ptool.TorrentMeta.Files.{
  prefix_of, root_file, root_files, root_files_unique, verify_against_save_path_fs,
  verify_against_save_path_fs_iff,
}
use ptool.TorrentMeta.Layout.{Contents, contents_of}
use ptool.TorrentMeta.Layout.Pieces.{files_of}
use ptool.TorrentMeta.Xseed.{xseed_check}
use ptool.TorrentMeta.Xseed.Sound.{xseed_check-All}
use ptool.Tests.Samples.{program}

abbrev meta_file : Text → ℤ → TorrentMetaFile
meta_file path size = record {
  path = path;
  size = size;
  start_piece_index = pos 0;
  end_piece_index = pos 0;
  start_piece_offset = pos 0;
  last_piece_bytes = size;
}

abbrev pub meta : TorrentMeta
meta = record {
  info_hash = codes "e1";
  pieces_hash = codes "9a";
  trackers = codes "udp://a" ∷ [];
  size = pos 9;
  single_file_torrent = false;
  root_dir = codes "show";
  content_path = codes "show";
  files = meta_file (codes "a") (pos 4) ∷ meta_file (codes "b") (pos 5) ∷ [];
  meta_info = record {
    announce = codes "udp://a";
    announce_list = [];
    comment = [];
    created_by = [];
    creation_date = pos 0;
  };
  info = record { name = codes "show"; source = []; private_flag = none; piece_length = pos 16 };
  info_changed = false;
}

abbrev meta' : TorrentMeta
meta' = record meta {
  meta_info = record meta.meta_info {
    announce_list = (codes "udp://a" ∷ []) ∷ (codes "udp://b" ∷ []) ∷ [];
  };
}

added : add_tracker (codes "udp://b") (negsuc 0) meta ≡ some meta'
unfolding program
added = refl

new_name : str_eq (codes "udp://b") [] ≡ false
unfolding program
new_name = refl

knows-add_tracker_example :
    knows (codes "udp://b") meta'
    ≡ knows (codes "udp://b") meta || str_eq (codes "udp://b") (codes "udp://b")
knows-add_tracker_example =
    knows-add_tracker (codes "udp://b") (negsuc 0) meta meta' (codes "udp://b") added new_name

remove_tracker-add_tracker_example :
    (meta'' : TorrentMeta) × (remove_tracker (codes "udp://b") meta' ≡ some meta'')
    × ((x : Text) → str_eq x [] ≡ false → knows x meta'' ≡ knows x meta)
remove_tracker-add_tracker_example =
    remove_tracker-add_tracker (codes "udp://b") (negsuc 0) meta meta' added

add_tracker-none_example :
    (add_tracker (codes "udp://a") (pos 0) meta ≡ none)
    ↔ ((codes "udp://a" ≡ []) ⊎ (knows (codes "udp://a") meta ≡ true))
add_tracker-none_example = add_tracker-none (codes "udp://a") (pos 0) meta

root_files_unique_example : root_files meta ≡ (
    if str_eq (codes "show") []
    then unique_slice (map (λ f. root_file f.path) meta.files)
    else codes "show" ∷ [])
root_files_unique_example = root_files_unique meta

abbrev disk : Text → Option ℤ
disk path = if str_eq path (codes "show/a") then some (pos 4) else some (pos 5)

verify_against_save_path_fs_iff_example :
    (verify_against_save_path_fs disk meta ≡ true)
    ↔ All (λ f. disk (prefix_of meta.root_dir ++ f.path) ≡ some f.size) meta.files
verify_against_save_path_fs_iff_example = verify_against_save_path_fs_iff disk meta

abbrev named : List (Text × ℕ)
named = (codes "b", 25) ∷ (codes "c", 6) ∷ []

abbrev start_pieces : Option (Contents (λ x. x) (pos 10)) → List ℤ
start_pieces none = []
start_pieces (some c) = map (λ f. f.start_piece_index) c.files

-- A file that ends where a later piece ends: the next one is said to start a piece too early.
next_piece :
    start_pieces (
      contents_of
        (λ x. x)
        (pos 10)
        []
        (codes "show")
        (pos 0)
        (pos 3)
        (files_of ((codes "a", 20) ∷ (codes "b", 5) ∷ [])))
    ≡ pos 0 ∷ pos 1 ∷ []
unfolding program
next_piece = refl

-- With pieces of 0 bytes the code divides by 0.
no_pieces : contents_of (λ x. x) (pos 0) [] (codes "show") (pos 0) (pos 3) (files_of named) ≡ none
unfolding program
no_pieces = refl

abbrev content : Text → ℤ → TorrentContentFile ℤ
content path size = record {
  index = pos 0;
  path = path;
  size = size;
  progress = pos 0;
  complete = true;
  ignored = false;
}

abbrev contents : List (TorrentContentFile ℤ)
contents =
    content (codes "show/a") (pos 4)
    ∷ content (codes "show/b") (pos 5)
    ∷ content (codes "show/c") (pos 1)
    ∷ []

checked : xseed_check meta contents ≡ pos 1
unfolding program
checked = refl

rooted : All (λ (c : TorrentContentFile ℤ). has_prefix c.path (codes "/") ≡ false) contents
unfolding program
rooted = (refl, (refl, (refl, tt)))

xseed_check-All_example :
    All
      (λ f.
        (c : TorrentContentFile ℤ) × Memᴰ c contents
        × (c.size ≡ f.size)
        × (c.path ≡ prefix_of (codes "show") ++ f.path))
      meta.files
xseed_check-All_example = xseed_check-All meta contents 1 rooted checked
