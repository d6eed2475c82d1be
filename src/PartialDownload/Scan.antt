-- ===== src/PartialDownload/Scan.antt =====
-- The two loops of partialdownload that go through the files of the torrent.
use ptool.Base.{
  ◌>>=◌, ℕ, ◌+◌, Bool, true, false, not, ◌&&◌, ◌||◌, Option, none, some, List, [], ◌∷◌, ◌++◌,
  if◌then◌else◌, is_nil,
}
use ptool.Base.Int.{ℤ, pos}
use ptool.Base.Int64.{add64, lt64, le64, eq64}
use ptool.Base.Text.{Text}
use ptool.Client.{TorrentContentFile}
use ptool.PartialDownload.Data.{Chunk, Flags}

-- The variables that the second loop changes.
pub record Scan : Type 0 where
  pub chunks : List Chunk
  pub index : ℤ
  pub size : ℤ
  pub files : ℤ
  pub total_files : ℤ
  pub total_size : ℤ
  pub skipped_files : ℤ
  pub skipped_size : ℤ
  pub downloads : List ℤ
  pub no_downloads : List ℤ

abbrev pub no_scan : Scan
no_scan = record {
  chunks = [];
  index = pos 0;
  size = pos 0;
  files = pos 0;
  total_files = pos 0;
  total_size = pos 0;
  skipped_files = pos 0;
  skipped_size = pos 0;
  downloads = [];
  no_downloads = [];
}

-- The current chunk is complete.
unfoldable pub close_chunk : Scan → Scan
close_chunk s = record s {
  chunks = s.chunks ++ (record { index = s.index; files = s.files; size = s.size }) ∷ [];
  index = add64 s.index (pos 1);
  size = pos 0;
  files = pos 0;
}

unfoldable pub skip_file : {F : Type 0} → TorrentContentFile F → Scan → Scan
skip_file file s = record s {
  skipped_files = add64 s.skipped_files (pos 1);
  skipped_size = add64 s.skipped_size file.size;
  no_downloads = s.no_downloads ++ file.index ∷ [];
}

-- The file goes into the current chunk.
unfoldable pub put_file : {F : Type 0} → ℤ → TorrentContentFile F → Scan → Scan
put_file chunk_index file s = record s {
  total_files = add64 s.total_files (pos 1);
  total_size = add64 s.total_size file.size;
  size = add64 s.size file.size;
  files = add64 s.files (pos 1);
  downloads = if eq64 s.index chunk_index then s.downloads ++ file.index ∷ [] else s.downloads;
  no_downloads =
      if eq64 s.index chunk_index then s.no_downloads else s.no_downloads ++ file.index ∷ [];
}

-- pathspec.GitIgnore is a parameter: whether one of the patterns matches the path, or an error.
module _ {F : Type 0} (git_ignore : List Text → Text → Option Bool) (flags : Flags)
    (chunk_size : ℤ) where
  -- Whether the file at the position is skipped, an error if a pattern is not valid.
  unfoldable pub is_skipped : ℕ → TorrentContentFile F → Option Bool
  is_skipped i file =
      let included =
        if is_nil flags.includes then some true else git_ignore flags.includes file.path in
      let excluded =
        if is_nil flags.excludes then some false else git_ignore flags.excludes file.path in
      if lt64 (pos i) flags.start_index
      then some true
      else (included >>= (λ is_in. if not is_in then some true else excluded))

  unfoldable pub is_too_large : TorrentContentFile F → Bool
  is_too_large file = flags.strict && lt64 chunk_size file.size

  -- The file does not go into the current chunk, which has that size.
  unfoldable pub ends_chunk : ℤ → TorrentContentFile F → Bool
  ends_chunk size file =
      le64 chunk_size size || (flags.strict && lt64 chunk_size (add64 size file.size))

  -- The first loop: the index of the last chunk.
  unfoldable pub count_chunks : ℕ → List (TorrentContentFile F) → ℤ → ℤ → Option ℤ
  unfolding is_skipped is_too_large ends_chunk
  count_chunks i [] index size = some index
  count_chunks i (file ∷ files) index size = is_skipped i file >>= (λ skipped.
      let ends = ends_chunk size file in
      let index' = if skipped then index else if ends then add64 index (pos 1) else index in
      let size' = if skipped then size else add64 (if ends then pos 0 else size) file.size in
      let next = count_chunks (i + 1) files index' size' in
      if not skipped && is_too_large file then none else next)

  unfoldable pub scan_file : ℤ → Bool → TorrentContentFile F → Scan → Scan
  unfolding skip_file close_chunk put_file ends_chunk
  scan_file chunk_index skipped file s =
      if skipped
      then skip_file file s
      else put_file chunk_index file (if ends_chunk s.size file then close_chunk s else s)

  -- The second loop. `none` is an error.
  unfoldable pub scan_files : ℤ → ℕ → List (TorrentContentFile F) → Scan → Option Scan
  unfolding is_skipped is_too_large scan_file
  scan_files chunk_index i [] s = some s
  scan_files chunk_index i (file ∷ files) s = is_skipped i file >>= (λ skipped.
      let next = scan_files chunk_index (i + 1) files (scan_file chunk_index skipped file s) in
      if not skipped && is_too_large file then none else next)
