-- ===== src/Tests/PartialDownload.antt =====
-- A torrent of four files in chunks of 100 bytes.
use ptool.Base.{arith, ◌≡◌, refl, Bool, true, false, Option, some, [], ◌∷◌, List, ◌>>=◌, All, map}
use ptool.Base.Int.{ℤ, pos, ◌≤ℤ◌}
use ptool.Base.Text.{Text, codes, contains}
use ptool.Client.{TorrentContentFile}
use ptool.PartialDownload.Data.{Flags}
use ptool.PartialDownload.Scan.{no_scan, scan_files, count_chunks}
use ptool.PartialDownload.Run.{scan_of}
use ptool.PartialDownload.Partition.{count_files, Marks, scan_files-marks_all}
use ptool.PartialDownload.Count.{count_chunks-scan_files}
use ptool.PartialDownload.Bounds.{Scans, scan_files-AtLeast, scan_of-IsWithin}
use ptool.Tests.Samples.{program}

abbrev file : ℤ → Text → ℤ → TorrentContentFile ℤ
file index path size = record {
  index = index;
  path = path;
  size = size;
  progress = pos 0;
  complete = false;
  ignored = false;
}

abbrev files : List (TorrentContentFile ℤ)
files =
    file (pos 0) (codes "a") (pos 60)
    ∷ file (pos 1) (codes "b") (pos 50)
    ∷ file (pos 2) (codes "c.nfo") (pos 5)
    ∷ file (pos 3) (codes "d") (pos 70)
    ∷ []

abbrev flags : Bool → Flags
flags strict = record {
  chunk_index = pos 0;
  start_index = pos 0;
  show_all = false;
  append_mode = false;
  strict = strict;
  original_order = true;
  includes = [];
  excludes = codes ".nfo" ∷ [];
}

-- A pattern matches the paths that have it.
abbrev matches : List Text → Text → Option Bool
matches [] path = some false
matches (p ∷ ps) path = some (contains path p)

loose_scan :
    (scan_of matches (flags false) (pos 100) (pos 0) files
      >>= (λ s. some (map (λ c. c.size) s.chunks)))
    ≡ some (pos 110 ∷ pos 70 ∷ [])
unfolding program
loose_scan = refl

strict_scan :
    (scan_of matches (flags true) (pos 100) (pos 1) files >>= (λ s. some s.downloads))
    ≡ some (pos 1 ∷ [])
unfolding program
strict_scan = refl

scan_files-marks_all_example :
    Marks
      (pos 3)
      (count_files (pos 3) files)
      (scan_files matches (flags true) (pos 100) (pos 1) 0 files no_scan)
scan_files-marks_all_example =
    scan_files-marks_all matches (flags true) (pos 100) (pos 1) (pos 3) files

count_chunks-scan_files_example :
    count_chunks matches (flags true) (pos 100) 0 files (pos 0) (pos 0)
    ≡ (scan_files matches (flags true) (pos 100) (pos 1) 0 files no_scan >>= (λ s. some s.index))
count_chunks-scan_files_example =
    count_chunks-scan_files matches (flags true) (pos 100) (pos 1) files

scan_files-AtLeast_example :
    Scans
      (λ s. All (λ c. pos 100 ≤ℤ c.size) s.chunks)
      (scan_files matches (flags false) (pos 100) (pos 1) 0 files no_scan)
scan_files-AtLeast_example = scan_files-AtLeast matches (flags false) (pos 100) (pos 1) refl files

abbrev sizes : All (λ (f : TorrentContentFile ℤ). pos 0 ≤ℤ f.size) files
sizes = (omega arith, (omega arith, (omega arith, (omega arith, tt))))

scan_of-IsWithin_example :
    Scans
      (λ s. All (λ c. (pos 0 ≤ℤ c.size) × (c.size ≤ℤ pos 100)) s.chunks)
      (scan_of matches (flags true) (pos 100) (pos 1) files)
scan_of-IsWithin_example =
    scan_of-IsWithin matches (flags true) (pos 100) (pos 1) refl (omega arith) (omega arith) files
      sizes
