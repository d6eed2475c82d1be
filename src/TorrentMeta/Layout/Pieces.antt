-- ===== src/TorrentMeta/Layout/Pieces.antt =====
-- What the layout says of each file: the pieces that hold it, and the bytes of it in the last one.
use ptool.Base.{
  Option, some, ℕ, ◌+◌, ◌*◌, ◌%◌, ◌≤◌, List, [], ◌∷◌, ◌++◌, if◌then◌else◌, ltb, ◌≡◌, ◌≢◌,
}
use ptool.Base.Int.{pos}
use ptool.Base.Text.{Text}
use ptool.TorrentMeta.Data.{TorrentMetaFile}
use ptool.TorrentMeta.Layout.{InfoFile, Layout}

-- The same of a file of the result.
pub record IsPlaced (p b : ℕ) (f : TorrentMetaFile) : Type 0 where
  pub index : ℕ
  pub offset : ℕ
  pub end : ℕ
  pub last : ℕ
  pub length : ℕ
  pub size_eq : f.size ≡ pos length
  pub index_eq : f.start_piece_index ≡ pos index
  pub offset_eq : f.start_piece_offset ≡ pos offset
  pub end_eq : f.end_piece_index ≡ pos end
  pub last_eq : f.last_piece_bytes ≡ pos last
  pub start : index * p + offset ≡ b
  pub within : offset ≤ p
  pub ends : b + length ≤ end * p + p
  pub rest : (if ltb (end * p) b then b else end * p) + last ≡ b + length

-- Files of these lengths one after the other, from the b-th byte.
abbrev pub ArePlaced : ℕ → ℕ → List ℕ → List TorrentMetaFile → Type 0
ArePlaced p b [] [] = Unit
ArePlaced p b (n ∷ ns) (f ∷ fs) = IsPlaced p b f × (f.size ≡ pos n) × ArePlaced p (b + n) ns fs
ArePlaced p b _ _ = ⊥

-- No file but the last one ends where a piece ends.
abbrev pub EndsInside : ℕ → ℕ → List ℕ → Type 0
EndsInside p b [] = Unit
EndsInside p b (n ∷ []) = Unit
EndsInside p b (n ∷ m ∷ ns) = ((b + n) % p ≢ 0) × EndsInside p (b + n) (m ∷ ns)

abbrev total : List ℕ → ℕ
total [] = 0
total (n ∷ ns) = n + total ns

abbrev pub files_of : List (Text × ℕ) → List InfoFile
files_of [] = []
files_of ((path, n) ∷ files) = record { path = path; length = pos n } ∷ files_of files

abbrev pub lengths_of : List (Text × ℕ) → List ℕ
lengths_of [] = []
lengths_of ((path, n) ∷ files) = n ∷ lengths_of files

-- One turn of the loop, at a position that is right.
record Turn (p b n : ℕ) (s s' : Layout) : Type 0 where
  file : TorrentMetaFile
  files_eq : s'.files ≡ s.files ++ file ∷ []
  placed : IsPlaced p b file
  size_eq : file.size ≡ pos n
  index : ℕ
  offset : ℕ
  index_eq : s'.index ≡ pos index
  offset_eq : s'.offset ≡ pos offset
  starts : (b + n) % p ≢ 0 → index * p + offset ≡ b + n
  within : offset ≤ p

-- The loop comes to its end, and puts the files after those that are there.
record Files (p b : ℕ) (ns : List ℕ) (s : Layout) (r : Option Layout) : Type 0 where
  layout : Layout
  files : List TorrentMetaFile
  ends : r ≡ some layout
  files_eq : layout.files ≡ s.files ++ files
  placed : ArePlaced p b ns files
