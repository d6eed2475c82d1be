-- ===== src/TorrentMeta/Xseed/Sound.antt =====
-- What a result of XseedCheckWithClientTorrent that is not negative says of the files.
use ptool.Base.{
  true, false, some, List, [], ◌++◌, ◌≡◌, refl, arith, ℕ, Option-cases, inl, inr, Bool-cases, All,
  All-Mem, All-zip,
}
use mathlib.Core.List.{Memᴰ}
use ptool.Base.Int.{pos}
use ptool.Base.Text.{Text, codes, str_eq, str_eq_iff, has_prefix}
use ptool.Client.{TorrentContentFile}
use ptool.TorrentMeta.Data.{TorrentMeta}
use ptool.TorrentMeta.Files.{prefix_of}
use ptool.TorrentMeta.Xseed.{ClientFiles, take_files, has_files, xseed_check}
use ptool.TorrentMeta.Xseed.Found.{Found-none, take_files-Held, take_files-Found, has_files-All}

abbrev no_files : ClientFiles
no_files = record { root_dir = []; sizes = [] }

xseed_check_pos :
    {F : Type 0} (meta : TorrentMeta) (contents : List (TorrentContentFile F)) (r : ℕ)
    → xseed_check meta contents ≡ pos r
    → (client : ClientFiles) × (take_files meta.root_dir contents no_files ≡ some client)
      × (has_files meta.files client.sizes ≡ true)
      × (meta.root_dir ≡ client.root_dir)
unfolding xseed_check
xseed_check_pos meta contents r h =
    elim (Option-cases (take_files meta.root_dir contents no_files)) [
      | inl e ↦ ground arith
      | inr (client, e) ↦
          (client, e, ground arith, ground (arith, str_eq_iff meta.root_dir client.root_dir))
    ]

prefix_of_none : (root : Text) → str_eq root [] ≡ true → prefix_of root ≡ []
prefix_of_none root h = rw h refl

prefix_of_some : (root : Text) → str_eq root [] ≡ false → prefix_of root ≡ root ++ codes "/"
prefix_of_some root h = rw h refl

-- XseedCheckWithClientTorrent gives a number that is not negative only where each file of the
-- torrent is a file of the client, of the same size and at the same path, in the root folder where
-- the torrent has one. The client's paths do not begin with a slash.
pub xseed_check-All :
    {F : Type 0} (meta : TorrentMeta) (contents : List (TorrentContentFile F)) (r : ℕ)
    → All (λ c. has_prefix c.path (codes "/") ≡ false) contents
    → xseed_check meta contents ≡ pos r
    → All
        (λ f.
          (c : TorrentContentFile F) × Memᴰ c contents
          × (c.size ≡ f.size)
          × (c.path ≡ prefix_of meta.root_dir ++ f.path))
        meta.files
xseed_check-All {F = F} meta contents r hs h =
    let In : TorrentContentFile F → Type 0 = λ c. Memᴰ c contents in
    let (client, e, k, same) = xseed_check_pos meta contents r h in
    elim (Bool-cases (str_eq meta.root_dir [])) [
      | inl q ↦
          let start : take_files [] contents no_files ≡ some client =
            rw ((str_eq_iff meta.root_dir []).0 q) at e in
          let (root, found) =
            take_files-Found In contents no_files client (All-Mem contents) start
              (Found-none In [] [] refl) in
          rw (prefix_of_none meta.root_dir q) (has_files-All In [] meta.files client.sizes k found)
      | inr q ↦
          let held =
            take_files-Held In meta.root_dir contents no_files client q
              (All-zip In (λ c. has_prefix c.path (codes "/") ≡ false) contents (All-Mem contents)
                hs)
              e (λ _. refl, Found-none In (codes "/") [] refl) in
          rw (prefix_of_some meta.root_dir q, same)
            (has_files-All In (client.root_dir ++ codes "/") meta.files client.sizes k held.1)
    ]
