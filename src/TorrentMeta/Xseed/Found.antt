-- ===== src/TorrentMeta/Xseed/Found.antt =====
-- What the loops of XseedCheckWithClientTorrent find, for a predicate on the client's files.
use ptool.Base.{
  true, false, not, Option, none, some, List, [], ◌∷◌, ◌++◌, ◌≡◌, refl, sym, ap, ◌∙◌, if◌then◌else◌,
  arith, Option-cases, inl, inr, Bool-cases, bind-some, All,
}
use mathlib.Core.List.{append_assoc}
use ptool.Base.Int.{ℤ}
use ptool.Base.Int64.{eq64_iff}
use ptool.Base.Text.{Text, codes, str_eq, str_eq_iff, cut, has_prefix}
use ptool.Base.Dict.{lookup, insert, lookup-insert}
use ptool.Client.{TorrentContentFile}
use ptool.TorrentMeta.Data.{TorrentMetaFile}
use ptool.TorrentMeta.Xseed.{ClientFiles, put_size, take_file, take_files, has_files}
use ptool.TorrentMeta.Xseed.Folder.{cut-some, not_nil, folder_some}

some_inj : (s s' : ClientFiles) → some s ≡ some s' → s ≡ s'
some_inj s s' h = cc

nothing : (path : Text) (size : ℤ) → lookup path [] ≡ some size → ⊥
unfolding lookup
nothing path size h = ground arith

module _ {F : Type 0} (P : TorrentContentFile F → Type 0) where
  -- Each entry of the map is a file of the client, with its size, whose path is the entry's after
  -- that prefix.
  abbrev pub Found : Text → List (Text × ℤ) → Type 0
  Found prefix sizes =
      (path : Text) (size : ℤ)
      → lookup path sizes ≡ some size
      → (c : TorrentContentFile F) × P c × (c.size ≡ size) × (c.path ≡ prefix ++ path)

  Found-insert :
      (prefix path : Text) (sizes : List (Text × ℤ)) (c : TorrentContentFile F)
      → P c
      → c.path ≡ prefix ++ path
      → Found prefix sizes
      → Found prefix (insert path c.size sizes)
  Found-insert prefix path sizes c p e h x size k = elim (Bool-cases (str_eq path x)) [
    | inl q ↦ (
      c,
      p,
      ground (arith, lookup-insert path x c.size sizes),
      rw (sym ((str_eq_iff path x).0 q)) e,
    )
    | inr q ↦ h x size (ground (arith, lookup-insert path x c.size sizes))
  ]

  pub Found-none : (prefix : Text) (sizes : List (Text × ℤ)) → sizes ≡ [] → Found prefix sizes
  Found-none prefix sizes e path size h = elim (nothing path size (rw e at h)) [ ]

  put_size-Found :
      (prefix path : Text) (c : TorrentContentFile F) (s s' : ClientFiles)
      → P c
      → c.path ≡ prefix ++ path
      → put_size path c.size s ≡ some s'
      → Found prefix s.sizes
      → (s'.root_dir ≡ s.root_dir) × Found prefix s'.sizes
  unfolding put_size
  put_size-Found prefix path c s s' p e h k = elim (Option-cases (lookup path s.sizes)) [
    | inl q ↦
        let found : some (record s { sizes = insert path c.size s.sizes }) ≡ some s' =
          rw (put_size, q) at h in
        let same : record s { sizes = insert path c.size s.sizes } ≡ s' = cc in
        rw (sym same) (refl, Found-insert prefix path s.sizes c p e k)
    | inr (old, q) ↦ ground arith
  ]

  -- With a root folder: all the entries are of that folder, and there is none before it is known.
  abbrev pub Held : ClientFiles → Type 0
  Held s = (s.root_dir ≡ [] → s.sizes ≡ []) × Found (s.root_dir ++ codes "/") s.sizes

  -- The part of take_file after the cut.
  abbrev take_parts : TorrentContentFile F → ClientFiles → Text × Text → Option ClientFiles
  take_parts c s parts =
      if str_eq s.root_dir []
      then put_size parts.1 c.size (record s { root_dir = parts.0 })
      else if not (str_eq s.root_dir parts.0)
      then none
      else put_size parts.1 c.size s

  take_parts-Held :
      (c : TorrentContentFile F) (s s' : ClientFiles) (a b : Text)
      → P c
      → has_prefix c.path (codes "/") ≡ false
      → c.path ≡ a ++ 47 ∷ b
      → take_parts c s (a, b) ≡ some s'
      → Held s
      → Held s'
  take_parts-Held c s s' a b p hc e h held = elim (Bool-cases (str_eq s.root_dir [])) [
    | inl q ↦
        let h' : put_size b c.size (record s { root_dir = a }) ≡ some s' = rw q at h in
        let none_yet = held.0 ((str_eq_iff s.root_dir []).0 q) in
        let (same, found) =
          put_size-Found (a ++ codes "/") b c (record s { root_dir = a }) s' p
            (e ∙ sym (append_assoc a (codes "/") b)) h'
            (Found-none (a ++ codes "/") s.sizes none_yet) in
        (λ z. elim (folder_some c.path a b hc e (sym same ∙ z)) [ ], rw same found)
    | inr q ↦ elim (Bool-cases (str_eq s.root_dir a)) [
      | inl r ↦
          let h' : put_size b c.size s ≡ some s' = rw (q, r) at h in
          let (same, found) =
            put_size-Found (s.root_dir ++ codes "/") b c s s' p
              (rw ((str_eq_iff s.root_dir a).0 r) (e ∙ sym (append_assoc a (codes "/") b))) h'
              held.1 in
          (λ z. elim (not_nil s.root_dir q (sym same ∙ z)) [ ], rw same found)
      | inr r ↦ ground arith
    ]
  ]

  take_file-Held :
      (root : Text) (c : TorrentContentFile F) (s s' : ClientFiles)
      → str_eq root [] ≡ false
      → P c
      → has_prefix c.path (codes "/") ≡ false
      → take_file root c s ≡ some s'
      → Held s
      → Held s'
  unfolding take_file
  take_file-Held root c s s' hr p hc h held =
      let h' = rw (take_file, hr) at h in
      let ((a, b), e, k) = bind-some (cut 47 c.path) (take_parts c s) s' h' in
      take_parts-Held c s s' a b p hc (cut-some 47 c.path a b e) k held

  pub take_files-Held :
      (root : Text) (files : List (TorrentContentFile F)) (s s' : ClientFiles)
      → str_eq root [] ≡ false
      → All (λ c. P c × (has_prefix c.path (codes "/") ≡ false)) files
      → take_files root files s ≡ some s'
      → Held s
      → Held s'
  unfolding take_files
  take_files-Held root [] s s' hr hs h held = rw (sym (some_inj s s' h)) held
  take_files-Held root (c ∷ files) s s' hr hs h held =
      let (t, e, k) = bind-some (take_file root c s) (take_files root files) s' h in
      take_files-Held root files t s' hr hs.1 k (take_file-Held root c s t hr hs.0.0 hs.0.1 e held)

  -- With no root folder.
  pub take_files-Found :
      (files : List (TorrentContentFile F)) (s s' : ClientFiles)
      → All P files
      → take_files [] files s ≡ some s'
      → Found [] s.sizes
      → (s'.root_dir ≡ s.root_dir) × Found [] s'.sizes
  unfolding take_files take_file str_eq
  take_files-Found [] s s' hs h k = rw (sym (some_inj s s' h)) (refl, k)
  take_files-Found (c ∷ files) s s' hs h k =
      let (t, e, rest) = bind-some (take_file [] c s) (take_files [] files) s' h in
      let (same, found) = put_size-Found [] c.path c s t hs.0 refl e k in
      let (same', found') = take_files-Found files t s' hs.1 rest found in (same' ∙ same, found')

  pub has_files-All :
      (prefix : Text) (files : List TorrentMetaFile) (sizes : List (Text × ℤ))
      → has_files files sizes ≡ true
      → Found prefix sizes
      → All
          (λ f. (c : TorrentContentFile F) × P c × (c.size ≡ f.size) × (c.path ≡ prefix ++ f.path))
          files
  unfolding has_files
  has_files-All prefix [] sizes h k = tt
  has_files-All prefix (file ∷ files) sizes h k = elim (Option-cases (lookup file.path sizes)) [
    | inl e ↦ ground arith
    | inr (size, e) ↦
        let same : size ≡ file.size = (eq64_iff size file.size).0 (ground arith) in
        (
          k file.path file.size (e ∙ ap some same),
          has_files-All prefix files sizes (ground arith) k,
        )
  ]
