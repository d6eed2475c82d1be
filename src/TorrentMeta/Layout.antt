-- ===== src/TorrentMeta/Layout.antt =====
-- FromMetaInfo: where the files of a torrent lie in its pieces.
pub mod Position
pub mod Ends
pub mod Pieces
use ptool.Base.{
  ◌>>=◌, Option, none, some, Bool, true, false, ◌&&◌, not, List, [], ◌∷◌, ◌++◌, if◌then◌else◌,
}
use ptool.Base.Int.{ℤ, pos}
use ptool.Base.Int64.{add64, sub64, quot64, rem64, lt64, eq64, min64}
use ptool.Base.Text.{Text, codes, str_eq}
use ptool.TorrentMeta.Data.{TorrentMetaFile}

-- A file of metainfo.Info: its path, joined, and its length.
pub record InfoFile : Type 0 where
  pub path : Text
  pub length : ℤ

-- The variables of the loop.
pub record Layout : Type 0 where
  pub files : List TorrentMetaFile
  pub index : ℤ
  pub offset : ℤ
  pub size : ℤ

abbrev pub no_layout : Layout
no_layout = record { files = []; index = pos 0; offset = pos 0; size = pos 0 }

-- What the loop computes for a file of that length at the offset in the piece.
pub record Place : Type 0 where
  pub end_index : ℤ
  pub last_bytes : ℤ
  pub next_offset : ℤ

-- The loop divides by the piece length for such a file.
unfoldable pub divides : ℤ → ℤ → ℤ → Bool
divides piece_length offset length =
    lt64 (pos 0) (sub64 length (min64 (sub64 piece_length offset) length))

-- Where it divides, the piece length is not 0.
unfoldable pub place : ℤ → ℤ → ℤ → ℤ → Place
place piece_length index offset length =
    let first_left = min64 (sub64 piece_length offset) length in
    let remain = sub64 length first_left in
    let middle = if lt64 (pos 0) remain then quot64 remain piece_length else pos 0 in
    let last = if lt64 (pos 0) remain then rem64 remain piece_length else pos 0 in
    let end = add64 index middle in
    let end' = if lt64 (pos 0) last then add64 end (pos 1) else end in
    record {
      end_index = end';
      last_bytes =
          if lt64 (pos 0) last then last else if eq64 index end then first_left else piece_length;
      next_offset = if eq64 index end' then add64 offset first_left else last;
    }

-- util.Clean is a parameter: it takes out invisible characters.
module _ (clean : Text → Text) (piece_length : ℤ) where
  unfoldable pub lay_file : InfoFile → Layout → Layout
  unfolding place
  lay_file file s =
      let p = place piece_length s.index s.offset file.length in
      record {
        files =
            s.files
            ++ (record {
              path = clean file.path;
              size = file.length;
              start_piece_index = s.index;
              end_piece_index = p.end_index;
              start_piece_offset = s.offset;
              last_piece_bytes = p.last_bytes;
            })
              ∷ [];
        index = p.end_index;
        offset = p.next_offset;
        size = add64 s.size file.length;
      }

  -- One turn of the loop; none: the code panics, since it divides by 0.
  unfoldable pub place_file : InfoFile → Layout → Option Layout
  unfolding lay_file divides
  place_file file s =
      if divides piece_length s.offset file.length && eq64 piece_length (pos 0)
      then none
      else some (lay_file file s)

  unfoldable pub place_files : List InfoFile → Layout → Option Layout
  unfolding place_file
  place_files [] s = some s
  place_files (file ∷ files) s = do s' ← place_file file s; place_files files s'

  -- The parts of the result that FromMetaInfo computes from the name, the length of a torrent of a
  -- single file, the number of pieces and the files. NoName is metainfo's name for no name.
  pub record Contents : Type 0 where
    pub single_file_torrent : Bool
    pub root_dir : Text
    pub content_path : Text
    pub size : ℤ
    pub files : List TorrentMetaFile

  -- The result for a torrent of several files, after the loop.
  unfoldable pub several : Text → Text → Layout → Contents
  several no_name name s =
      let named = not (str_eq name []) && not (str_eq name no_name) in
      record {
        single_file_torrent = false;
        root_dir = if named then clean name else [];
        content_path = if named then clean name else [];
        size = s.size;
        files = s.files;
      }

  -- None: the code panics, since it divides by the piece length 0.
  unfoldable pub contents_of : Text → Text → ℤ → ℤ → List InfoFile → Option Contents
  unfolding place_files several
  contents_of no_name name length pieces_cnt [] =
      if eq64 piece_length (pos 0)
      then none
      else some (record {
        single_file_torrent = true;
        root_dir = [];
        content_path = clean name;
        size = length;
        files =
            (record {
              path = clean name;
              size = length;
              start_piece_index = pos 0;
              end_piece_index = sub64 pieces_cnt (pos 1);
              start_piece_offset = pos 0;
              last_piece_bytes = rem64 length piece_length;
            })
            ∷ [];
      })
  contents_of no_name name length pieces_cnt (file ∷ files) = do
    s ← place_files (file ∷ files) no_layout
    some (several no_name name s)
