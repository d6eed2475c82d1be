-- ===== src/PartialDownload/Partition.antt =====
-- partialdownload marks each file of the torrent once.
use ptool.Base.{
  bind_ind, ℕ, ◌+◌, ◌≡◌, refl, ◌∙◌, Bool, true, false, not, ◌&&◌, Option, none, some, List, [], ◌∷◌,
  ◌++◌, if◌then◌else◌, if_ind, arith,
}
use ptool.Base.Int.{ℤ}
use ptool.Base.Int64.{eq64}
use ptool.Base.Text.{Text}
use ptool.Client.{TorrentContentFile}
use ptool.PartialDownload.Data.{Flags}
use ptool.PartialDownload.Scan.{
  Scan, no_scan, is_skipped, is_too_large, ends_chunk, skip_file, close_chunk, put_file, scan_file,
  scan_files,
}

-- How often the index is in the list.
abbrev pub count : ℤ → List ℤ → ℕ
count a [] = 0
count a (x ∷ xs) = (if eq64 x a then 1 else 0) + count a xs

count-append_one : (a x : ℤ) (xs : List ℤ) → count a (xs ++ x ∷ []) ≡ count a (x ∷ xs)
count-append_one a x [] = refl
count-append_one a x (y ∷ xs) = omega (arith, count-append_one a x xs)

-- How often a file of the list has the index.
abbrev pub count_files : {F : Type 0} → ℤ → List (TorrentContentFile F) → ℕ
count_files a [] = 0
count_files a (file ∷ files) = (if eq64 file.index a then 1 else 0) + count_files a files

-- How often the scan marked the index, for download or not.
abbrev pub count_marked : ℤ → Scan → ℕ
count_marked a s = count a s.downloads + count a s.no_downloads

-- The scan, where it gives no error, has marked the index so often.
abbrev pub Marks : ℤ → ℕ → Option Scan → Type 0
Marks a n none = Unit
Marks a n (some s) = count_marked a s ≡ n

Marks-equal : (a : ℤ) (n m : ℕ) (o : Option Scan) → n ≡ m → Marks a n o → Marks a m o
Marks-equal a n m none e h = tt
Marks-equal a n m (some s) e h = h ∙ e

close_chunk-marked : (a : ℤ) (s : Scan) → count_marked a (close_chunk s) ≡ count_marked a s
unfolding close_chunk
close_chunk-marked a s = refl

put_file-marked :
    {F : Type 0} (chunk_index a : ℤ) (file : TorrentContentFile F) (s : Scan)
    → count_marked a (put_file chunk_index file s)
      ≡ (if eq64 file.index a then 1 else 0) + count_marked a s
unfolding put_file
put_file-marked chunk_index a file s =
    ground (
      arith,
      count-append_one a file.index s.downloads,
      count-append_one a file.index s.no_downloads,
    )

module _ {F : Type 0} (git_ignore : List Text → Text → Option Bool) (flags : Flags)
    (chunk_size chunk_index : ℤ) where
  scan_file-marked :
      (a : ℤ) (skipped : Bool) (file : TorrentContentFile F) (s : Scan)
      → count_marked a (scan_file git_ignore flags chunk_size chunk_index skipped file s)
        ≡ (if eq64 file.index a then 1 else 0) + count_marked a s
  unfolding scan_file skip_file
  scan_file-marked a true file s = omega (arith, count-append_one a file.index s.no_downloads)
  scan_file-marked a false file s =
      if_ind
        (λ s'.
          count_marked a (put_file chunk_index file s')
          ≡ (if eq64 file.index a then 1 else 0) + count_marked a s)
        (ends_chunk git_ignore flags chunk_size s.size file) (close_chunk s) s
        (λ _.
          omega (arith, put_file-marked chunk_index a file (close_chunk s), close_chunk-marked a s))
        (λ _. put_file-marked chunk_index a file s)

  scan_files-Marks :
      (a : ℤ) (i : ℕ) (files : List (TorrentContentFile F)) (s : Scan)
      → Marks a
          (count_files a files + count_marked a s)
          (scan_files git_ignore flags chunk_size chunk_index i files s)
  unfolding scan_files
  scan_files-Marks a i [] s = omega arith
  scan_files-Marks a i (file ∷ files) s =
      bind_ind (Marks a (count_files a (file ∷ files) + count_marked a s))
        (is_skipped git_ignore flags chunk_size i file) _ tt
        (λ skipped _.
          if_ind (Marks a (count_files a (file ∷ files) + count_marked a s))
            (not skipped && is_too_large git_ignore flags chunk_size file) none
            (scan_files git_ignore flags chunk_size chunk_index (i + 1) files
              (scan_file git_ignore flags chunk_size chunk_index skipped file s))
            (λ _. tt)
            (λ _. Marks-equal a _ _ _ (omega (arith, scan_file-marked a skipped file s)) (
              scan_files-Marks a (i + 1) files
                (scan_file git_ignore flags chunk_size chunk_index skipped file s))))

  -- Where the scan of the torrent's files gives no error, it marks each file once: an index is
  -- among those to download and those not to download as often as it is among the files.
  pub scan_files-marks_all :
      (a : ℤ) (files : List (TorrentContentFile F))
      → Marks a
          (count_files a files)
          (scan_files git_ignore flags chunk_size chunk_index 0 files no_scan)
  scan_files-marks_all a files =
      Marks-equal a _ _ _ (omega arith) (scan_files-Marks a 0 files no_scan)
