-- ===== src/Locator/Sound.antt =====
-- What a result of findTorrentFileLinks that is Ok says of the files.
use mathlib.Core.List.{Memᴰ}
use ptool.Base.{
  ℕ, suc, ◌<◌, Bool, true, false, none, some, List, [], ◌∷◌, if◌then◌else◌, length, is_nil, map,
  ◌≡◌, refl, sym, ap, ◌∙◌, inl, inr, Bool-cases, All, All-mono, All-Mem, if_ind, arith, ◌==◌,
}
use ptool.Base.Int.{pos}
use ptool.Base.Int64.{eq64, eq64_iff}
use ptool.Base.Text.{Text, str_eq}
use ptool.Util.Data.{filter}
use ptool.Util.Data.Unique.{NoRepeat}
use ptool.TorrentMeta.Data.{TorrentMetaFile}
use ptool.Locator.{
  LocateState, FsFile, FileLink, is_located, candidates_state, same_size, same_name_and_size,
  link_candidates, new_link, linked_file, count_uses, settle, update_links, find_torrent_file_links,
  get_elem?,
}
use ptool.Locator.Settled.{is_settled, settle-Settles}
use ptool.Locator.Uses.{chosen_more, chosen, IsUsedOnce, chosen-NoRepeat, is_settled-IsUsedOnce}

pos_inj : (a b : ℕ) → pos a ≡ pos b → a ≡ b
pos_inj a b h = cc

length-map : {A B : Type 0} (f : A → B) (xs : List A) → length (map f xs) ≡ length xs
length-map f [] = refl
length-map f (x ∷ xs) = ap suc (length-map f xs)

filter-All :
    {A : Type 0} (P : A → Type 0) (ss : List A) (test : A → Bool)
    → All P ss
    → All (λ s. P s × (test s ≡ true)) (filter ss test)
unfolding filter
filter-All P [] test h = tt
filter-All P (s ∷ ss) test h = elim (Bool-cases (test s)) [
  | inl e ↦ rw e ((h.0, e), filter-All P ss test h.1)
  | inr e ↦ rw e (filter-All P ss test h.1)
]

linked_one :
    (link : FileLink) (f : FsFile)
    → link.linked ≡ (if length link.fs_files == 1 then some 0 else none)
    → link.fs_files ≡ f ∷ []
    → linked_file link ≡ some f
unfolding linked_file get_elem?
linked_one link f e q =
    let first : link.linked ≡ some 0 = rw q at e in rw (linked_file, first, q) refl

-- Files of the folder, one for each of the torrent's, of the same size.
abbrev pub Matches : List FsFile → List TorrentMetaFile → List FsFile → Type 0
Matches infos [] [] = Unit
Matches infos (t ∷ ts) (f ∷ fs) = Memᴰ f infos × (f.size ≡ t.size) × Matches infos ts fs
Matches infos _ _ = ⊥

module _ (base : Text → Text) (infos : List FsFile) where
  abbrev IsCandidate : TorrentMetaFile → FsFile → Type 0
  IsCandidate t f = Memᴰ f infos × (eq64 f.size t.size ≡ true)

  link_candidates-All : (t : TorrentMetaFile) → All (IsCandidate t) (link_candidates base infos t)
  unfolding link_candidates same_name_and_size same_size
  link_candidates-All t =
      let sized = filter-All (λ f. Memᴰ f infos) infos (λ f. eq64 f.size t.size) (All-Mem infos) in
      let named =
        filter-All (IsCandidate t) (same_size base infos t) (λ f. str_eq f.name (base t.path))
          sized in
      if_ind (All (IsCandidate t)) (is_nil (same_name_and_size base infos t)) _ _ (λ _. sized)
        (λ _. All-mono _ (IsCandidate t) _ (λ f h. h.0) named)

  single :
      (t : TorrentMetaFile) (fs : List FsFile)
      → All (IsCandidate t) fs
      → (elim (candidates_state (length fs)) [ LocateState.state_located ↦ true | _ ↦ false ])
        ≡ true
      → (f : FsFile) × IsCandidate t f × (fs ≡ f ∷ [])
  unfolding candidates_state
  single t [] h e = ground arith
  single t (f ∷ []) h e = (f, h.0, refl)
  single t (f ∷ g ∷ fs) h e = ground arith

  new_link-linked :
      (t : TorrentMetaFile)
      → is_located (new_link base infos t) ≡ true
      → (f : FsFile) × (linked_file (new_link base infos t) ≡ some f) × IsCandidate t f
  unfolding new_link linked_file get_elem?
  new_link-linked t e =
      let (f, c, q) = single t (link_candidates base infos t) (link_candidates-All t) e in
      (f, linked_one (new_link base infos t) f refl q, c)

  chosen-Matches :
      (files : List TorrentMetaFile)
      → All (λ l. is_located l ≡ true) (map (new_link base infos) files)
      → Matches infos files (chosen (map (new_link base infos) files))
  chosen-Matches [] h = tt
  chosen-Matches (t ∷ files) h =
      let (f, e, c) = new_link-linked t h.0 in
      rw (chosen_more (new_link base infos t) (map (new_link base infos) files) f e)
        (c.0, (eq64_iff f.size t.size).0 c.1, chosen-Matches files h.1)

update_links_ok :
    (links : List FileLink)
    → length links < 9223372036854775808
    → (update_links links).ok ≡ true
    → All (λ l. is_settled (count_uses links []) l ≡ true) links
      × ((update_links links).links ≡ links)
unfolding update_links
update_links_ok links h e =
    let settled = settle-Settles (count_uses links []) links h in
    let r = settle (count_uses links []) links in
    elim (Bool-cases (eq64 r.1 (pos (length r.0)))) [
      | inl q ↦
          let counted : pos settled.count ≡ pos (length r.0) =
            sym settled.count_eq ∙ (eq64_iff r.1 (pos (length r.0))).0 q in
          let (all, same) =
            settled.full (pos_inj settled.count (length r.0) counted ∙ settled.same_length) in
          (all, rw q same)
      | inr q ↦ ground arith
    ]

-- Where findTorrentFileLinks finds all files of the torrent, the files that it links to are files of
-- the folder, one for each file of the torrent and of its size, and no two have one path.
pub find_torrent_file_links-Matches :
    (base : Text → Text) (infos : List FsFile) (files : List TorrentMetaFile)
    → length files < 9223372036854775808
    → (find_torrent_file_links base infos files).ok ≡ true
    → let found = chosen (find_torrent_file_links base infos files).links in
      Matches infos files found × NoRepeat (map (λ f. f.path) found)
unfolding find_torrent_file_links
find_torrent_file_links-Matches base infos files h e =
    let links = map (new_link base infos) files in
    let few : length links < 9223372036854775808 = rw (length-map (new_link base infos) files) h in
    let (all, same) = update_links_ok links few e in
    let once =
      All-mono _ (IsUsedOnce links) links (λ l s. is_settled-IsUsedOnce links l few s) all in
    rw same (
      chosen-Matches base infos files (All-mono (IsUsedOnce links) _ links (λ l u. u.0) once),
      chosen-NoRepeat links links once (λ p. omega arith),
    )
