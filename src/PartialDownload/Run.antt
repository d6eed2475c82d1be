-- ===== src/PartialDownload/Run.antt =====
-- partialdownload, from the files of the torrent on.
use ptool.Base.{
  ◌>>=◌, ℕ, Bool, true, not, ◌&&◌, ◌||◌, Option, none, some, List, [], ◌∷◌, if◌then◌else◌, length,
}
use ptool.Base.Int.{ℤ, pos}
use ptool.Base.Int64.{add64, lt64, le64}
use ptool.Base.Text.{Text, text_lt}
use ptool.Base.Sort.{stable_sort}
use ptool.Client.{TorrentContentFile}
use ptool.PartialDownload.Data.{Flags, Summary, new_summary}
use ptool.PartialDownload.Scan.{Scan, no_scan, count_chunks, scan_files, close_chunk}

-- constants.INFINITE_SIZE
abbrev pub infinite_size : ℤ
infinite_size = pos 1152921504606846976

-- The chunk size from that of the flag, 0 without one. Without a size, some flag must choose files.
unfoldable pub chunk_size_of : Flags → ℤ → Option ℤ
chunk_size_of flags parsed =
    let chooses =
      lt64 (pos 0) (pos (length flags.includes))
      || (lt64 (pos 0) (pos (length flags.excludes))
          || (lt64 flags.start_index (pos 0) || lt64 (pos 0) flags.start_index)) in
    if le64 parsed (pos 0) then (if chooses then some infinite_size else none) else some parsed

-- The position of the first file, in a torrent with so many.
unfoldable pub start_of : ℤ → ℕ → Option ℤ
start_of start count =
    if lt64 start (pos 0) && lt64 (add64 (pos count) start) (pos 0) || le64 (pos count) start
    then none
    else if lt64 start (pos 0)
    then some (add64 (pos count) start)
    else some start

-- The end of the command: an error, the summary of --all, or that of the chunk whose files are
-- marked, with what the client made of the calls.
pub data Outcome (S : Type 0) : Type 0 where
  failed : Outcome S
  shown : Summary → Outcome S
  mark_failed : S → Outcome S
  marked : Summary → S → Outcome S

module _ {F : Type 0} (git_ignore : List Text → Text → Option Bool) (flags : Flags)
    (chunk_size : ℤ) where
  -- A negative chunk index counts from the last chunk.
  unfoldable pub chunk_index_of : List (TorrentContentFile F) → Option ℤ
  unfolding count_chunks
  chunk_index_of files =
      let negative = count_chunks git_ignore flags chunk_size 0 files (pos 0) (pos 0) >>= (λ last.
        let actual = add64 (add64 last (pos 1)) flags.chunk_index in
        if lt64 actual (pos 0) then none else some actual) in
      if lt64 flags.chunk_index (pos 0) then negative else some flags.chunk_index

  -- The second loop, with the last chunk.
  unfoldable pub scan_of : ℤ → List (TorrentContentFile F) → Option Scan
  unfolding scan_files close_chunk
  scan_of chunk_index files =
      scan_files git_ignore flags chunk_size chunk_index 0 files no_scan
      >>= (λ s. some (record s { chunks = (close_chunk s).chunks }))

  unfoldable pub ordered : List (TorrentContentFile F) → List (TorrentContentFile F)
  unfolding text_lt stable_sort
  ordered files =
      if not flags.original_order then stable_sort (λ a b. text_lt a.path b.path) files else files

unfoldable pub summary_of : Text → ℤ → Scan → Summary
summary_of info_hash chunk_size s = record (new_summary info_hash chunk_size) {
  total_size = s.total_size;
  total_files = s.total_files;
  skipped_size = s.skipped_size;
  skipped_files = s.skipped_files;
  chunks = s.chunks;
}

-- SetFilePriority of the client is a parameter: it is true where there is no error.
module _ {S : Type 0} (set_file_priority : List ℤ → ℤ → S → Bool × S) where
  -- No call for no files.
  unfoldable pub mark_files : List ℤ → ℤ → S → Bool × S
  mark_files [] priority s = (true, s)
  mark_files (index ∷ indexes) priority s = set_file_priority (index ∷ indexes) priority s

  unfoldable pub mark : Bool → Summary → Scan → S → Outcome S
  unfolding mark_files
  mark append_mode summary scan s =
      let (ok, s') = mark_files scan.downloads (pos 1) s in
      let (ok', s'') = mark_files scan.no_downloads (pos 0) s' in
      if not ok
      then Outcome.mark_failed s'
      else if append_mode
      then Outcome.marked summary s'
      else if not ok'
      then Outcome.mark_failed s''
      else Outcome.marked summary s''

  -- From the scan on.
  unfoldable pub finish : Flags → Text → ℤ → ℤ → S → Option Scan → Outcome S
  unfolding mark summary_of
  finish flags info_hash chunk_size chunk_index s none = Outcome.failed
  finish flags info_hash chunk_size chunk_index s (some scan) =
      let summary = summary_of info_hash chunk_size scan in
      if flags.show_all
      then Outcome.shown summary
      else if le64 (pos (length scan.chunks)) chunk_index
      then Outcome.failed
      else mark flags.append_mode (record summary { download_chunk_index = chunk_index }) scan s

  module _ {F : Type 0} (git_ignore : List Text → Text → Option Bool) (flags : Flags) where
    -- The chunk size and index, and the scan. `parsed` is the size of --chunk-size.
    unfoldable pub plan : ℤ → List (TorrentContentFile F) → Option (ℤ × ℤ × Option Scan)
    unfolding chunk_size_of start_of ordered chunk_index_of scan_of
    plan parsed files = do
      chunk_size ← chunk_size_of flags parsed
      start ← start_of flags.start_index (length files)
      let flags' = record flags { start_index = start }
      let files' = ordered git_ignore flags' chunk_size files
      chunk_index ← chunk_index_of git_ignore flags' chunk_size files'
      some (chunk_size, chunk_index, scan_of git_ignore flags' chunk_size chunk_index files')

    -- `files` is what the client gives as the torrent's files.
    unfoldable pub partial_download :
        Text → ℤ → Option (List (TorrentContentFile F)) → S → Outcome S
    unfolding finish plan
    partial_download info_hash parsed none s = Outcome.failed
    partial_download info_hash parsed (some files) s = elim (plan parsed files) [
      | none ↦ Outcome.failed
      | some (chunk_size, chunk_index, scan) ↦ finish flags info_hash chunk_size chunk_index s scan
    ]
