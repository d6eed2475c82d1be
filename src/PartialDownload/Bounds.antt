-- ===== src/PartialDownload/Bounds.antt =====
-- The sizes of the chunks of partialdownload.
use ptool.Base.{
  ◌>>=◌, bind_ind, ℕ, ◌+◌, ◌≡◌, Bool, true, false, not, ◌&&◌, ◌||◌, Option, none, some, List, [],
  ◌∷◌, if◌then◌else◌, if_ind, All, All-append, All-of, arith,
}
use ptool.Base.Int.{ℤ, pos, ◌≤ℤ◌, ◌+ℤ◌}
use ptool.Base.Int64.{add64, lt64, le64_iff, wrap64}
use ptool.Base.Text.{Text}
use ptool.Client.{TorrentContentFile}
use ptool.PartialDownload.Data.{Chunk, Flags}
use ptool.PartialDownload.Scan.{
  Scan, no_scan, is_skipped, is_too_large, ends_chunk, skip_file, close_chunk, put_file, scan_file,
  scan_files,
}
use ptool.PartialDownload.Run.{scan_of}

-- The scan, where it gives no error, has the property.
abbrev pub Scans : (Scan → Type 0) → Option Scan → Type 0
Scans R none = Unit
Scans R (some s) = R s

-- A proof rule: `P` holds at the start, and each file that is skipped, or put without being too
-- large, keeps it.
module _ {F : Type 0} (git_ignore : List Text → Text → Option Bool) (flags : Flags)
    (chunk_size chunk_index : ℤ) (P : Scan → Type 0) (Q : TorrentContentFile F → Type 0)
    (skip : (file : TorrentContentFile F) (s : Scan) → P s → P (skip_file file s))
    (put : (file : TorrentContentFile F) (s : Scan)
      → Q file
      → is_too_large git_ignore flags chunk_size file ≡ false
      → P s
      → P (
          put_file chunk_index file (
            if ends_chunk git_ignore flags chunk_size s.size file then close_chunk s else s))) where
  scan_files_rule :
      (i : ℕ) (files : List (TorrentContentFile F)) (s : Scan)
      → All Q files
      → P s
      → Scans P (scan_files git_ignore flags chunk_size chunk_index i files s)
  unfolding scan_files scan_file
  scan_files_rule i [] s q p = p
  scan_files_rule i (file ∷ files) s q p =
      bind_ind (Scans P) (is_skipped git_ignore flags chunk_size i file) _ tt (λ skipped _.
        elim skipped
          as (λ k. Scans P (
            if not k && is_too_large git_ignore flags chunk_size file
            then none
            else scan_files git_ignore flags chunk_size chunk_index (i + 1) files
                (scan_file git_ignore flags chunk_size chunk_index k file s))) [
                  | true ↦ scan_files_rule (i + 1) files _ q.1 (skip file s p)
                  | false ↦
                      if_ind (Scans P) (is_too_large git_ignore flags chunk_size file) none _
                        (λ _. tt)
                        (λ small. scan_files_rule (i + 1) files _ q.1 (put file s q.0 small p))
                ])

-- The current chunk and those before it have between 0 bytes and the chunk size.
pub record IsWithin (chunk_size : ℤ) (s : Scan) : Type 0 where
  pub from_zero : pos 0 ≤ℤ s.size
  pub to_size : s.size ≤ℤ chunk_size
  pub chunks : All (λ c. (pos 0 ≤ℤ c.size) × (c.size ≤ℤ chunk_size)) s.chunks

loose_end :
    (full strict over : Bool) → strict ≡ false → (full || (strict && over)) ≡ true → full ≡ true
loose_end full strict over l e = ground arith

strict_small : (strict large : Bool) → strict ≡ true → (strict && large) ≡ false → large ≡ false
strict_small strict large s e = ground arith

strict_goes_on :
    (full strict over : Bool) → strict ≡ true → (full || (strict && over)) ≡ false → over ≡ false
strict_goes_on full strict over s e = ground arith

not_lt64 : (a b : ℤ) → lt64 a b ≡ false → b ≤ℤ a
unfolding lt64
not_lt64 a b e = ground arith

add64_zero : (a : ℤ) → pos 0 ≤ℤ a → a ≤ℤ pos 1152921504606846976 → add64 (pos 0) a ≡ a
unfolding add64 wrap64 ◌+ℤ◌
add64_zero a h k = ground arith

add64_from_zero :
    (a b c : ℤ)
    → pos 0 ≤ℤ a
    → pos 0 ≤ℤ b
    → a ≤ℤ c
    → b ≤ℤ c
    → c ≤ℤ pos 1152921504606846976
    → pos 0 ≤ℤ add64 a b
unfolding add64 wrap64 ◌+ℤ◌
add64_from_zero a b c h k l m n = ground arith

skip-chunks :
    {F : Type 0} (P : Chunk → Type 0) (file : TorrentContentFile F) (s : Scan)
    → All P s.chunks
    → All P (skip_file file s).chunks
unfolding skip_file
skip-chunks P file s p = p

Scans-bind :
    (o : Option Scan) (P R : Scan → Type 0) (f : Scan → Scan)
    → ((s : Scan) → P s → R (f s))
    → Scans P o
    → Scans R (o >>= (λ s. some (f s)))
Scans-bind none P R f step h = tt
Scans-bind (some s) P R f step h = step s h

module _ {F : Type 0} (git_ignore : List Text → Text → Option Bool) (flags : Flags)
    (chunk_size chunk_index : ℤ) where
  put-AtLeast :
      flags.strict ≡ false
      → (file : TorrentContentFile F) (s : Scan) → All (λ c. chunk_size ≤ℤ c.size) s.chunks
      → All
          (λ c. chunk_size ≤ℤ c.size)
          (put_file chunk_index file (
            if ends_chunk git_ignore flags chunk_size s.size file then close_chunk s else s)).chunks
  unfolding put_file close_chunk ends_chunk
  put-AtLeast loose file s p =
      if_ind (λ s'. All (λ c. chunk_size ≤ℤ c.size) (put_file chunk_index file s').chunks)
        (ends_chunk git_ignore flags chunk_size s.size file) (close_chunk s) s
        (λ e.
          All-append (λ c. chunk_size ≤ℤ c.size) s.chunks _ p
            ((le64_iff chunk_size s.size).0 (loose_end _ _ _ loose e), tt))
        (λ _. p)

  -- Without --strict, each chunk before the last one has at least the chunk size.
  pub scan_files-AtLeast :
      flags.strict ≡ false
      → (files : List (TorrentContentFile F))
      → Scans
          (λ s. All (λ c. chunk_size ≤ℤ c.size) s.chunks)
          (scan_files git_ignore flags chunk_size chunk_index 0 files no_scan)
  scan_files-AtLeast loose files =
      scan_files_rule git_ignore flags chunk_size chunk_index
        (λ s. All (λ c. chunk_size ≤ℤ c.size) s.chunks) (λ _. Unit)
        (λ file s p. skip-chunks (λ c. chunk_size ≤ℤ c.size) file s p)
        (λ file s _ _ p. put-AtLeast loose file s p) 0 files no_scan
        (All-of (λ _. Unit) files (λ _. tt)) tt

  skip-IsWithin :
      (file : TorrentContentFile F) (s : Scan)
      → IsWithin chunk_size s
      → IsWithin chunk_size (skip_file file s)
  unfolding skip_file
  skip-IsWithin file s p = record {
    from_zero = p.from_zero;
    to_size = p.to_size;
    chunks = p.chunks;
  }

  put-IsWithin :
      flags.strict ≡ true
      → chunk_size ≤ℤ pos 1152921504606846976
      → (file : TorrentContentFile F) (s : Scan) → pos 0 ≤ℤ file.size
      → is_too_large git_ignore flags chunk_size file ≡ false
      → IsWithin chunk_size s
      → IsWithin chunk_size (
          put_file chunk_index file
            (if ends_chunk git_ignore flags chunk_size s.size file then close_chunk s else s))
  unfolding put_file close_chunk is_too_large ends_chunk
  put-IsWithin strict limit file s from small p =
      let fits : file.size ≤ℤ chunk_size = not_lt64 _ _ (strict_small _ _ strict small) in
      if_ind (λ s'. IsWithin chunk_size (put_file chunk_index file s'))
        (ends_chunk git_ignore flags chunk_size s.size file) (close_chunk s) s
        (λ _.
          let same = add64_zero file.size from (omega (arith, fits, limit)) in
          record {
            from_zero = rw same from;
            to_size = rw same fits;
            chunks =
                All-append (λ c. (pos 0 ≤ℤ c.size) × (c.size ≤ℤ chunk_size)) s.chunks _ p.chunks
                  ((p.from_zero, p.to_size), tt);
          })
        (λ e. record {
          from_zero =
              add64_from_zero s.size file.size chunk_size p.from_zero from p.to_size fits limit;
          to_size = not_lt64 _ _ (strict_goes_on _ _ _ strict e);
          chunks = p.chunks;
        })

  -- With --strict, where no file has a negative size and the chunk size is at most 1 EiB, all chunks
  -- have between 0 bytes and the chunk size.
  pub scan_of-IsWithin :
      flags.strict ≡ true
      → pos 0 ≤ℤ chunk_size
      → chunk_size ≤ℤ pos 1152921504606846976
      → (files : List (TorrentContentFile F)) → All (λ file. pos 0 ≤ℤ file.size) files
      → Scans
          (λ s. All (λ c. (pos 0 ≤ℤ c.size) × (c.size ≤ℤ chunk_size)) s.chunks)
          (scan_of git_ignore flags chunk_size chunk_index files)
  unfolding scan_of close_chunk
  scan_of-IsWithin strict positive limit files sizes =
      Scans-bind (scan_files git_ignore flags chunk_size chunk_index 0 files no_scan)
        (IsWithin chunk_size) _ (λ s. record s { chunks = (close_chunk s).chunks })
        (λ s p.
          All-append (λ c. (pos 0 ≤ℤ c.size) × (c.size ≤ℤ chunk_size)) s.chunks _ p.chunks
            ((p.from_zero, p.to_size), tt))
        (scan_files_rule git_ignore flags chunk_size chunk_index (IsWithin chunk_size)
          (λ file. pos 0 ≤ℤ file.size) (λ file s p. skip-IsWithin file s p)
          (λ file s from small p. put-IsWithin strict limit file s from small p) 0 files no_scan
          sizes (record { from_zero = omega arith; to_size = positive; chunks = tt }))
