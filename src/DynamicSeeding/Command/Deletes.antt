-- ===== src/DynamicSeeding/Command/Deletes.antt =====
-- Which of the torrents of the decision the command deletes, and what that leaves of the client.
use mathlib.Core.List.{append_assoc, append-nil}
use ptool.Base.{
  Bool, true, false, List, [], ◌∷◌, ◌++◌, ◌≡◌, refl, sym, ap, ◌∙◌, ◌⊎◌, inl, inr, map,
  if◌then◌else◌, Bool-cases, All, arith, is_nil, if_ind, Option-cases, not,
}
use ptool.Base.Int.{ℤ, pos, ◌≤ℤ◌, ◌<ℤ◌}
use ptool.Base.Int64.{add64, lt64, le64, le64_iff}
use ptool.Base.Text.{Text, codes, str_eq}
use ptool.Base.Dict.{get_or}
use ptool.Base.Decimal.{sprint}
use ptool.Client
use ptool.Client.Xseed.{known, delete_torrents_auto}
use ptool.Client.Whole.{IsWholeHash, delete_torrents_auto-keeps}
use ptool.Site
use ptool.DynamicSeeding.Data.{Result}
use ptool.DynamicSeeding.Command.{
  World, AddOption, option_of, add_meta_of, Adding, add_site_torrent, add_all, Deleting, choose_one,
  choose_deletes, Done, delete_all, added_of, deletes_of, carry_out,
}

-- `deleted` is the shortest part whose sizes, added to `size`, come to the limit; it is all where
-- they do not.
abbrev pub Reaches : ℤ → ℤ → List Client.Torrent → List Client.Torrent → Type 0
Reaches limit size [] rest = (rest ≡ []) ⊎ (limit ≤ℤ size)
Reaches limit size (t ∷ deleted) rest =
    (size <ℤ limit) × Reaches limit (add64 size t.size) deleted rest

-- The ids that the metadata of the torrents has.
unfoldable pub ids_of : List Client.Torrent → List Text
ids_of [] = []
ids_of (t ∷ ts) =
    let id = get_or (codes "id") t.meta (pos 0) in
    if lt64 (pos 0) id then sprint id ∷ ids_of ts else ids_of ts

pub record Chosen (limit : ℤ) (torrents : List Client.Torrent) (s r : Deleting) : Type 0 where
  pub deleted : List Client.Torrent
  pub rest : List Client.Torrent
  pub parts : torrents ≡ deleted ++ rest
  pub reaches : Reaches limit s.size deleted rest
  pub info_hashes : r.info_hashes ≡ s.info_hashes ++ map (λ t. t.info_hash) deleted
  pub ids : r.ids ≡ s.ids ++ ids_of deleted

not_le64 : (a b : ℤ) → le64 a b ≡ false → b <ℤ a
unfolding le64
not_le64 a b h = ground arith

choose_one-ids :
    (t : Client.Torrent) (s : Deleting) (ts : List Client.Torrent)
    → (choose_one t s).ids ++ ids_of ts ≡ s.ids ++ ids_of (t ∷ ts)
unfolding choose_one ids_of
choose_one-ids t s ts = elim (Bool-cases (lt64 (pos 0) (get_or (codes "id") t.meta (pos 0)))) [
  | inl e ↦ rw e (append_assoc s.ids (sprint (get_or (codes "id") t.meta (pos 0)) ∷ []) (ids_of ts))
  | inr e ↦ rw e refl
]

-- The command deletes the shortest first part of the decision's torrents whose sizes come to the
-- limit, or all of them.
pub choose_deletes-Chosen :
    (limit : ℤ) (torrents : List Client.Torrent) (s : Deleting)
    → Chosen limit torrents s (choose_deletes limit torrents s)
unfolding choose_deletes ids_of choose_one
choose_deletes-Chosen limit [] s = record {
  deleted = [];
  rest = [];
  parts = refl;
  reaches = inl refl;
  info_hashes = sym (append-nil s.info_hashes);
  ids = sym (append-nil s.ids);
}
choose_deletes-Chosen limit (t ∷ torrents) s = elim (Bool-cases (le64 limit s.size)) [
  | inl e ↦ rw e (record {
    deleted = [];
    rest = t ∷ torrents;
    parts = refl;
    reaches = inr ((le64_iff limit s.size).0 e);
    info_hashes = sym (append-nil s.info_hashes);
    ids = sym (append-nil s.ids);
  })
  | inr e ↦
      let next = choose_deletes-Chosen limit torrents (choose_one t s) in
      rw e (record {
        deleted = t ∷ next.deleted;
        rest = next.rest;
        parts = ap (λ ts. t ∷ ts) next.parts;
        reaches = (not_le64 limit s.size e, next.reaches);
        info_hashes =
            next.info_hashes
            ∙ append_assoc s.info_hashes (t.info_hash ∷ []) (map (λ t. t.info_hash) next.deleted);
        ids = next.ids ∙ choose_one-ids t s next.deleted;
      })
]

module _ {S : Type 0} (world : World S) (P : S → Type 0) where
  delete_all-keeps :
      (ignore_file : Text) (deletes : Deleting) (error_cnt : ℤ) (s : S)
      → ((hashes : List Text) (s : S) → P s → P (world.delete_torrents hashes false s).1)
      → ((hashes : List Text) (s' : S)
          → All (IsWholeHash (world.reads s) (known (world.reads s) deletes.info_hashes)) hashes
          → P s'
          → P (world.delete_torrents hashes true s').1)
      → P s
      → P (delete_all world ignore_file deletes error_cnt s).client
  unfolding delete_all
  delete_all-keeps ignore_file deletes error_cnt s keep erase p =
      let kept =
        delete_torrents_auto-keeps (world.reads s) world.delete_torrents P deletes.info_hashes s
          keep erase p in
      let ok =
        (delete_torrents_auto (world.reads s) world.delete_torrents deletes.info_hashes s).0 in
      if_ind (λ (r : Done S). P r.client) (is_nil deletes.info_hashes) _ _ (λ _. p)
        (λ _.
          if_ind (λ (r : Done S). P r.client) (not ok) _ _ (λ _. kept)
            (λ _.
              if_ind (λ (r : Done S). P r.client) (is_nil deletes.ids) _ _ (λ _. kept) (λ _. kept)))

module _ {F S : Type 0} (world : World S) (P : S → Type 0)
    (adds : (contents : Text) (option : AddOption) (meta : List (Text × ℤ)) (s : S)
      → P s
      → P (world.add_torrent contents option meta s).1) where
  add_site_torrent-keeps :
      (category : Text) (tags : List Text) (torrent : Site.Torrent F) (s : Adding S)
      → P s.client
      → P (add_site_torrent world category tags torrent s).client
  unfolding add_site_torrent
  add_site_torrent-keeps category tags torrent s p =
      let name = if str_eq torrent.id [] then torrent.download_url else torrent.id in
      elim (Option-cases (world.download name)) [
        | inl e ↦ rw (add_site_torrent, e) p
        | inr (contents, e) ↦ elim (Option-cases (world.parse contents)) [
          | inl f ↦ rw (add_site_torrent, e, f) p
          | inr (tinfo, f) ↦
              let result =
                world.add_torrent contents (option_of category tags torrent tinfo)
                  (add_meta_of world.trim_space torrent) s.client in
              let kept =
                adds contents (option_of category tags torrent tinfo)
                  (add_meta_of world.trim_space torrent) s.client p in
              rw (add_site_torrent, e, f)
                (if_ind (λ (r : Adding S). P r.client) result.0 _ _ (λ _. kept) (λ _. kept))
        ]
      ]

  add_all-keeps :
      (category : Text) (tags : List Text) (torrents : List (Site.Torrent F)) (s : Adding S)
      → P s.client
      → P (add_all world category tags torrents s).client
  unfolding add_all
  add_all-keeps category tags [] s p = p
  add_all-keeps category tags (torrent ∷ torrents) s p =
      add_all-keeps category tags torrents (add_site_torrent world category tags torrent s)
        (add_site_torrent-keeps category tags torrent s p)

  added_of-keeps : (result : Result F) (s : S) → P s → P (added_of world result s).client
  unfolding added_of
  added_of-keeps result s p =
      add_all-keeps result.add_category result.add_tags result.add_torrents
        (record { error_cnt = pos 0; added_size = pos 0; client = s }) p

  -- The command keeps each property of the client that adding a torrent keeps, that a deletion
  -- without files keeps, and that a deletion with the files keeps where each hash is that of a torrent
  -- to delete that the client knows after the adding, and all torrents with the content of that
  -- torrent are among those to delete.
  pub carry_out-keeps :
      (dry_run : Bool) (result : Result F) (ignore_file : Text) (s : S)
      → ((hashes : List Text) (s : S) → P s → P (world.delete_torrents hashes false s).1)
      → ((hashes : List Text) (s' : S)
          → (let reads = world.reads (added_of world result s).client in
              All (IsWholeHash reads (known reads (deletes_of world result s).info_hashes)) hashes)
          → P s'
          → P (world.delete_torrents hashes true s').1)
      → P s
      → P (carry_out world dry_run result ignore_file s).client
  unfolding carry_out
  carry_out-keeps dry_run result ignore_file s keep erase p =
      let added = added_of world result s in
      if_ind (λ (r : Done S). P r.client) dry_run _ _ (λ _. p)
        (λ _.
          delete_all-keeps world P ignore_file (deletes_of world result s) added.error_cnt
            added.client keep erase (added_of-keeps result s p))
