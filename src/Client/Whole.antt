-- ===== src/Client/Whole.antt =====
-- DeleteTorrentsAuto of client/client.go deletes files only where no other torrent has them.
use mathlib.Core.List.{Memᴰ, Perm}
use mathlib.Core.List.Perm
use mathlib.Core.List.{perm_middle}
use mathlib.Core.Path.{subst}
use ptool.Base.{
  ◌≡◌, refl, inl, inr, Bool, true, false, not, Option, none, some, List, [], ◌∷◌, ◌++◌,
  if◌then◌else◌, if_ind, any, All, All-Mem, All-zip, Option-cases, not-false, ||-false, ||-true,
  arith,
}
use ptool.Base.Text.{Text}
use ptool.Client.{Torrent}
use ptool.Client.Reads.{Reads}
use ptool.Client.Xseed.{
  is_among, has_xseed_torrent, separate, filter_torrents_xseed, known, delete_some, delete_parts,
  delete_torrents_auto,
}
use ptool.Util.Data.{map_slice}

has_xseed_torrent-false :
    (torrents same : List Torrent)
    → has_xseed_torrent torrents same ≡ false
    → All (λ st. is_among torrents st ≡ true) same
unfolding has_xseed_torrent any
has_xseed_torrent-false torrents [] h = tt
has_xseed_torrent-false torrents (st ∷ same) h =
    let both = ||-false (not (is_among torrents st)) _ h in
    (not-false _ both.0, has_xseed_torrent-false torrents same both.1)

has_xseed_torrent-true :
    (torrents same : List Torrent)
    → has_xseed_torrent torrents same ≡ true
    → (st : Torrent) × Memᴰ st same × (is_among torrents st ≡ false)
unfolding has_xseed_torrent any
has_xseed_torrent-true torrents [] h = cc
has_xseed_torrent-true torrents (st ∷ same) h = elim (||-true (not (is_among torrents st)) _ h) [
  | inl e ↦ (st, Memᴰ.head refl, ground arith)
  | inr e ↦ let (st', m, out) = has_xseed_torrent-true torrents same e in (st', Memᴰ.tail m, out)
]

module _ (client : Reads) where
  -- All torrents with the torrent's content are in the group; or one is not.
  abbrev pub IsWhole : List Torrent → Torrent → Type 0
  IsWhole torrents t =
      (same : List Torrent) × (client.get_torrents_by_content_path t.content_path ≡ some same)
      × All (λ st. is_among torrents st ≡ true) same

  abbrev pub IsShared : List Torrent → Torrent → Type 0
  IsShared torrents t =
      (same : List Torrent) × (client.get_torrents_by_content_path t.content_path ≡ some same)
      × ((st : Torrent) × Memᴰ st same × (is_among torrents st ≡ false))

  -- The two results are the torrents of `rest`, those that are whole in `torrents` and those that
  -- share their content with another torrent. There is none only where the client gives an error for
  -- the content of one of them.
  abbrev pub Separates : List Torrent → List Torrent → Option (List Torrent × List Torrent) → Type 0
  Separates torrents rest none =
      (t : Torrent) × Memᴰ t rest × (client.get_torrents_by_content_path t.content_path ≡ none)
  Separates torrents rest (some (no_xseed, xseed)) =
      All (IsWhole torrents) no_xseed
      × All (IsShared torrents) xseed
      × Perm (no_xseed ++ xseed) rest

  separate_one :
      (torrents rest same : List Torrent) (t : Torrent) (no_xseed xseed : List Torrent)
      → client.get_torrents_by_content_path t.content_path ≡ some same
      → Separates torrents rest (some (no_xseed, xseed))
      → Separates torrents (t ∷ rest) (
          some (
            if has_xseed_torrent torrents same
            then (no_xseed, t ∷ xseed)
            else (t ∷ no_xseed, xseed)))
  separate_one torrents rest same t no_xseed xseed e h =
      if_ind (λ parts. Separates torrents (t ∷ rest) (some parts)) (has_xseed_torrent torrents same)
        _ _
        (λ b. (
          h.0,
          ((same, e, has_xseed_torrent-true torrents same b), h.1),
          Perm.trans (perm_middle no_xseed xseed) (Perm.cons t h.2),
        ))
        (λ b. (((same, e, has_xseed_torrent-false torrents same b), h.0), h.1, Perm.cons t h.2))

  separate-Separates :
      (torrents rest : List Torrent) → Separates torrents rest (separate client torrents rest)
  unfolding separate
  separate-Separates torrents [] = (tt, tt, Perm.refl _)
  separate-Separates torrents (t ∷ rest) =
      elim (Option-cases (client.get_torrents_by_content_path t.content_path)) [
        | inl e ↦ rw (e, separate) (t, Memᴰ.head refl, e)
        | inr (same, e) ↦ elim (Option-cases (separate client torrents rest)) [
          | inl f ↦
              let (t', m, e') =
                subst (Separates torrents rest) f (separate-Separates torrents rest) in
              rw (e, f, separate) (t', Memᴰ.tail m, e')
          | inr ((no_xseed, xseed), f) ↦
              rw (e, f, separate)
                (separate_one torrents rest same t no_xseed xseed e
                  (subst (Separates torrents rest) f (separate-Separates torrents rest)))
        ]
      ]

  -- FilterTorrentsXseed gives an error only where the client gives one for the content of one of the
  -- torrents. Else it divides the torrents into those of whose content all torrents are in the group
  -- and those of whose content one is not, and loses or repeats none.
  pub filter_torrents_xseed-Separates :
      (torrents : List Torrent)
      → Separates torrents torrents (filter_torrents_xseed client torrents)
  unfolding filter_torrents_xseed
  filter_torrents_xseed-Separates torrents = separate-Separates torrents torrents

  hashes-All :
      (P : Torrent → Type 0) (ts : List Torrent)
      → All P ts
      → All (λ hash. (t : Torrent) × P t × (t.info_hash ≡ hash)) (map_slice ts (λ t. t.info_hash))
  unfolding map_slice
  hashes-All P [] h = tt
  hashes-All P (t ∷ ts) h = ((t, h.0, refl), hashes-All P ts h.1)

  -- A torrent of the group whose content only torrents of the group have.
  abbrev pub IsWholeMember : List Torrent → Torrent → Type 0
  IsWholeMember torrents t = Memᴰ t torrents × IsWhole torrents t

  -- The hash is that of such a torrent.
  abbrev pub IsWholeHash : List Torrent → Text → Type 0
  IsWholeHash torrents hash = (t : Torrent) × IsWholeMember torrents t × (t.info_hash ≡ hash)

  abbrev AllFirst : (Torrent → Type 0) → Option (List Torrent × List Torrent) → Type 0
  AllFirst Q none = Unit
  AllFirst Q (some (no_xseed, xseed)) = All Q no_xseed

  separate-AllFirst :
      (torrents rest : List Torrent) (Q : Torrent → Type 0)
      → All Q rest
      → AllFirst Q (separate client torrents rest)
  unfolding separate
  separate-AllFirst torrents [] Q h = tt
  separate-AllFirst torrents (t ∷ rest) Q h =
      elim (Option-cases (client.get_torrents_by_content_path t.content_path)) [
        | inl e ↦ rw (e, separate) tt
        | inr (same, e) ↦ elim (Option-cases (separate client torrents rest)) [
          | inl f ↦ rw (e, f, separate) tt
          | inr ((no_xseed, xseed), f) ↦
              let next : All Q no_xseed =
                subst (AllFirst Q) f (separate-AllFirst torrents rest Q h.1) in
              rw (e, f, separate)
                (if_ind (λ parts. AllFirst Q (some parts)) (has_xseed_torrent torrents same) _ _
                  (λ _. next) (λ _. (h.0, next)))
        ]
      ]

  -- What auto_rule takes of the two results: those without a shared content are of the group.
  abbrev pub Divides : List Torrent → Option (List Torrent × List Torrent) → Type 0
  Divides torrents none = Unit
  Divides torrents (some (no_xseed, xseed)) =
      All (IsWholeMember torrents) no_xseed × All (IsShared torrents) xseed

  both-Divides :
      (torrents : List Torrent) (parts : Option (List Torrent × List Torrent))
      → Separates torrents torrents parts
      → AllFirst (λ t. Memᴰ t torrents) parts
      → Divides torrents parts
  both-Divides torrents none h m = tt
  both-Divides torrents (some (no_xseed, xseed)) h m =
      (All-zip (λ t. Memᴰ t torrents) (IsWhole torrents) no_xseed m h.0, h.1)

  filter_torrents_xseed-Divides :
      (torrents : List Torrent) → Divides torrents (filter_torrents_xseed client torrents)
  unfolding filter_torrents_xseed
  filter_torrents_xseed-Divides torrents =
      both-Divides torrents (separate client torrents torrents)
        (separate-Separates torrents torrents)
        (separate-AllFirst torrents torrents (λ t. Memᴰ t torrents) (All-Mem torrents))

  module _ {S : Type 0} (delete_torrents : List Text → Bool → S → Bool × S) (P : S → Type 0) where
    delete_some_rule :
        (Q : Torrent → Type 0) (ts : List Torrent) (files : Bool) (s : S)
        → ((hashes : List Text) (s : S)
            → All (λ hash. (t : Torrent) × Q t × (t.info_hash ≡ hash)) hashes
            → P s
            → P (delete_torrents hashes files s).1)
        → All Q ts
        → P s
        → P (delete_some client delete_torrents ts files s).1
    unfolding delete_some
    delete_some_rule Q [] files s step h p = p
    delete_some_rule Q (t ∷ ts) files s step h p = step _ s (hashes-All Q (t ∷ ts) h) p

    auto_rule :
        (torrents : List Torrent) (s : S) (parts : Option (List Torrent × List Torrent))
        → ((hashes : List Text) (s : S) → P s → P (delete_torrents hashes false s).1)
        → ((hashes : List Text) (s : S)
            → All (IsWholeHash torrents) hashes
            → P s
            → P (delete_torrents hashes true s).1)
        → Divides torrents parts
        → P s
        → P (delete_parts client delete_torrents parts s).1
    unfolding delete_parts
    auto_rule torrents s none keep erase h p = p
    auto_rule torrents s (some (ts, xseed)) keep erase h p =
        let kept =
          delete_some_rule (IsShared torrents) xseed false s (λ hashes s _. keep hashes s) h.1 p in
        if_ind (λ (r : Bool × S). P r.1) (delete_some client delete_torrents xseed false s).0 _ _
          (λ _. delete_some_rule (IsWholeMember torrents) ts true _ erase h.0 kept) (λ _. kept)

    -- DeleteTorrentsAuto keeps each property of the client that a deletion without files keeps, and
    -- that a deletion with the files keeps where each hash is that of a torrent to delete, and all
    -- torrents with the content of that torrent are among those to delete.
    pub delete_torrents_auto-keeps :
        (info_hashes : List Text) (s : S)
        → ((hashes : List Text) (s : S) → P s → P (delete_torrents hashes false s).1)
        → ((hashes : List Text) (s : S)
            → All (IsWholeHash (known client info_hashes)) hashes
            → P s
            → P (delete_torrents hashes true s).1)
        → P s
        → P (delete_torrents_auto client delete_torrents info_hashes s).1
    unfolding delete_torrents_auto
    delete_torrents_auto-keeps info_hashes s keep erase p =
        auto_rule (known client info_hashes) s _ keep erase
          (filter_torrents_xseed-Divides (known client info_hashes)) p
