-- ===== src/PartialDownload/Count.antt =====
-- The two loops of partialdownload agree on the number of chunks.
use ptool.Base.{
  ◌>>=◌, ℕ, ◌+◌, ◌≡◌, refl, inl, inr, Bool, true, false, Option, some, List, [], ◌∷◌, Option-cases,
  Bool-cases,
}
use ptool.Base.Int.{ℤ, pos}
use ptool.Base.Text.{Text}
use ptool.Client.{TorrentContentFile}
use ptool.PartialDownload.Data.{Flags}
use ptool.PartialDownload.Scan.{
  Scan, no_scan, is_skipped, is_too_large, ends_chunk, skip_file, close_chunk, put_file, scan_file,
  scan_files, count_chunks,
}

module _ {F : Type 0} (git_ignore : List Text → Text → Option Bool) (flags : Flags)
    (chunk_size chunk_index : ℤ) where
  count_chunks-scan_from :
      (i : ℕ) (files : List (TorrentContentFile F)) (s : Scan)
      → count_chunks git_ignore flags chunk_size i files s.index s.size
        ≡ (scan_files git_ignore flags chunk_size chunk_index i files s >>= (λ s'. some s'.index))
  unfolding count_chunks scan_files scan_file skip_file close_chunk put_file
  count_chunks-scan_from i [] s = refl
  count_chunks-scan_from i (file ∷ files) s =
      let later = λ (skipped : Bool).
        count_chunks-scan_from (i + 1) files
          (scan_file git_ignore flags chunk_size chunk_index skipped file s) in
      elim (Option-cases (is_skipped git_ignore flags chunk_size i file)) [
        | inl e ↦ rw e refl
        | inr (true, e) ↦ rw e (later true)
        | inr (false, e) ↦ elim (Bool-cases (is_too_large git_ignore flags chunk_size file)) [
          | inl large ↦ rw (e, large) refl
          | inr small ↦ elim (Bool-cases (ends_chunk git_ignore flags chunk_size s.size file)) [
            | inl ends ↦
                rw (e, small, ends)
                  (count_chunks-scan_from (i + 1) files (put_file chunk_index file (close_chunk s)))
            | inr goes_on ↦
                rw (e, small, goes_on)
                  (count_chunks-scan_from (i + 1) files (put_file chunk_index file s))
          ]
        ]
      ]

  -- The first loop gives an error where the second does, and else the index of the last chunk: the
  -- one that a chunk index of -1 stands for.
  pub count_chunks-scan_files :
      (files : List (TorrentContentFile F))
      → count_chunks git_ignore flags chunk_size 0 files (pos 0) (pos 0) ≡ (
          scan_files git_ignore flags chunk_size chunk_index 0 files no_scan
          >>= (λ s. some s.index))
  count_chunks-scan_files files = count_chunks-scan_from 0 files no_scan
