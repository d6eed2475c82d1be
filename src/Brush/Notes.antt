-- ===== src/Brush/Notes.antt =====
-- What Decide writes into the metadata of the torrents that it stalls and modifies.
use mathlib.Core.Path.{subst, sym}
use mathlib.Core.List.{Memᴰ}
use ptool.Base.{
  ◌≡◌, refl, ◌⊎◌, inl, inr, true, false, ◌&&◌, ◌||◌, List, [], ◌∷◌, arith, All, All-append,
  All-mono, if_ind, if◌then◌else◌,
}
use ptool.Base.Int.{ℤ, pos}
use ptool.Base.Int64.{add64, lt64, le64}
use ptool.Base.Text.{Text, Unicode, codes, str_eq}
use ptool.Base.Dict.{get_or-insert, get_or-delete}
use ptool.Base.Float.{Float}
use ptool.Client.{Torrent, Status}
use ptool.Site
use ptool.Brush.Data.{SiteOption, ClientOption, meta_at, ModifyTorrent, InfoMap, can_stall_torrent}
use ptool.Brush.Mark.{
  Marks, stalled_meta, slow_meta, unmarked_meta, modify_entry, stall, modify, consider,
}
use ptool.Brush.Mark.Rule.{MarkRule, mark_all_rule}
use ptool.Brush.Decide.{
  Stalls, stall_one, stall_from, stall_all, collect_modifies, marks, swept, stalls, resumes,
  kept_stalls, decide,
}
use ptool.Brush.Disjoint.{collect_stalls-All}

-- The entry stalls a downloading torrent of the list: it sets the stall time, and keeps the rest.
pub record IsStallOf (now : ℤ) (ts : List Torrent) (e : ModifyTorrent) : Type 0 where
  pub torrent : Torrent
  pub listed : Memᴰ torrent ts
  pub same_hash : e.info_hash ≡ torrent.info_hash
  pub can_stall : can_stall_torrent torrent ≡ true
  pub meta_of :
      (key : Text)
      → meta_at key e.meta ≡ (if str_eq (codes "stt") key then now else meta_at key torrent.meta)

-- The entry sets the slow check mark to the time and the upload of now, or removes it; it keeps the
-- rest.
pub record IsModifyOf (now : ℤ) (ts : List Torrent) (e : ModifyTorrent) : Type 0 where
  pub torrent : Torrent
  pub listed : Memᴰ torrent ts
  pub same_hash : e.info_hash ≡ torrent.info_hash
  pub mark :
      ((meta_at (codes "sct") e.meta ≡ now) × (meta_at (codes "sctu") e.meta ≡ torrent.uploaded))
      ⊎ ((meta_at (codes "sct") e.meta ≡ pos 0) × (meta_at (codes "sctu") e.meta ≡ pos 0))
  pub others :
      (key : Text)
      → str_eq (codes "sct") key ≡ false
      → str_eq (codes "sctu") key ≡ false
      → meta_at key e.meta ≡ meta_at key torrent.meta

IsStallOf-entry :
    (now : ℤ) (ts : List Torrent) (msg : Text) (t : Torrent)
    → Memᴰ t ts
    → can_stall_torrent t ≡ true
    → IsStallOf now ts (modify_entry t msg (stalled_meta now t))
IsStallOf-entry now ts msg t m c = record {
  torrent = t;
  listed = m;
  same_hash = refl;
  can_stall = c;
  meta_of = λ key. get_or-insert (codes "stt") key now (pos 0) t.meta;
}

slow_meta_at :
    (now : ℤ) (t : Torrent) (key : Text)
    → meta_at key (slow_meta now t) ≡ (
        if str_eq (codes "sctu") key
        then t.uploaded
        else if str_eq (codes "sct") key
        then now
        else meta_at key t.meta)
slow_meta_at now t key = simp get_or-insert

unmarked_meta_at :
    (t : Torrent) (key : Text)
    → meta_at key (unmarked_meta t) ≡ (
        if str_eq (codes "sctu") key
        then pos 0
        else if str_eq (codes "sct") key
        then pos 0
        else meta_at key t.meta)
unmarked_meta_at t key = simp get_or-delete

IsModifyOf-slow :
    (now : ℤ) (ts : List Torrent) (msg : Text) (t : Torrent)
    → Memᴰ t ts
    → IsModifyOf now ts (modify_entry t msg (slow_meta now t))
unfolding str_eq
IsModifyOf-slow now ts msg t m = record {
  torrent = t;
  listed = m;
  same_hash = refl;
  mark = inl (slow_meta_at now t (codes "sct"), slow_meta_at now t (codes "sctu"));
  others = λ key a b. ground (arith, slow_meta_at now t key);
}

IsModifyOf-unmarked :
    (now : ℤ) (ts : List Torrent) (msg : Text) (t : Torrent)
    → Memᴰ t ts
    → IsModifyOf now ts (modify_entry t msg (unmarked_meta t))
unfolding str_eq
IsModifyOf-unmarked now ts msg t m = record {
  torrent = t;
  listed = m;
  same_hash = refl;
  mark = inr (unmarked_meta_at t (codes "sct"), unmarked_meta_at t (codes "sctu"));
  others = λ key a b. ground (arith, unmarked_meta_at t key);
}

-- The entries of the marking loop.
abbrev HasNotes : {F : Type 0} → ℤ → List Torrent → Marks F → Type 0
HasNotes now ts s =
    All (IsStallOf now ts) s.stall_torrents × All (IsModifyOf now ts) s.modify_torrents

mark-HasNotes :
    {F : Type 0} (now : ℤ) (ts : List Torrent)
    → MarkRule {F = F} now (λ t. Memᴰ t ts) (HasNotes now ts)
unfolding stall modify consider
mark-HasNotes now ts = record {
  counted = λ c s p. p;
  stalled = λ msg t s m e p.
      (All-append _ s.stall_torrents _ p.0 (IsStallOf-entry now ts msg t m e, tt), p.1);
  modified = λ msg meta t s m e p. (
    p.0,
    All-append _ s.modify_torrents _ p.1 (
      elim e [
        | inl slow ↦
            subst (λ x. IsModifyOf now ts (modify_entry t msg x)) (sym slow)
              (IsModifyOf-slow now ts msg t m)
        | inr unmarked ↦
            subst (λ x. IsModifyOf now ts (modify_entry t msg x)) (sym unmarked)
              (IsModifyOf-unmarked now ts msg t m)
      ],
      tt,
    ),
  );
  considered = λ score value msg t s m _ p. p;
}

All-Mem : {A : Type 0} (xs : List A) → All (λ x. Memᴰ x xs) xs
All-Mem [] = tt
All-Mem (x ∷ xs) = (Memᴰ.head refl, All-mono _ _ xs (λ y m. Memᴰ.tail m) (All-Mem xs))

module _ (now : ℤ) (ts : List Torrent) where
  stall_one-notes :
      (t : Torrent) (s : Stalls)
      → Memᴰ t ts
      → All (IsStallOf now ts) s.stalls
      → All (IsStallOf now ts) (stall_one now t s).stalls
  unfolding stall_one
  stall_one-notes t s m h =
      if_ind (λ (r : Stalls). All (IsStallOf now ts) r.stalls)
        ((s.flags t.info_hash).delete_flag || (s.flags t.info_hash).stall_flag) _ _ (λ _. h)
        (λ _.
          if_ind (λ (r : Stalls). All (IsStallOf now ts) r.stalls) (can_stall_torrent t) _ _
            (λ c. All-append _ s.stalls _ h (IsStallOf-entry now ts _ t m c, tt)) (λ _. h))

  stall_from-notes :
      (rest : List Torrent) (s : Stalls)
      → All (λ t. Memᴰ t ts) rest
      → All (IsStallOf now ts) s.stalls
      → All (IsStallOf now ts) (stall_from now rest s).stalls
  unfolding stall_from
  stall_from-notes [] s m h = h
  stall_from-notes (t ∷ rest) s m h =
      stall_from-notes rest (stall_one now t s) m.1 (stall_one-notes t s m.0 h)

collect_modifies-keep :
    (P : ModifyTorrent → Type 0) (m : InfoMap) (ms : List ModifyTorrent)
    → All P ms
    → All P (collect_modifies m ms)
unfolding collect_modifies
collect_modifies-keep P m [] h = tt
collect_modifies-keep P m (e ∷ ms) h =
    if_ind (All P) ((m e.info_hash).delete_flag || (m e.info_hash).stall_flag) _ _
      (λ _. collect_modifies-keep P m ms h.1) (λ _. (h.0, collect_modifies-keep P m ms h.1))

module _ {F : Type 0} ⦃fl : Float F⦄ ⦃u : Unicode⦄ (status : Status) (ts : List Torrent)
    (site_ts : List (Site.Torrent F)) (so : SiteOption) (o : ClientOption F) where
  marks-HasNotes : HasNotes so.now ts (marks status ts site_ts so o)
  unfolding marks
  marks-HasNotes = mark_all_rule so.now o _ _ (mark-HasNotes so.now ts) ts _ (All-Mem ts) (tt, tt)

  stalls-notes : All (IsStallOf so.now ts) (stalls status ts site_ts so o).stalls
  unfolding stalls stall_all
  stalls-notes =
      if_ind (λ (r : Stalls). All (IsStallOf so.now ts) r.stalls)
        (le64 (pos 0) status.free_space_on_disk
          && lt64 (add64 status.free_space_on_disk (swept status ts site_ts so o).free_change)
              o.min_disk_space)
        _ _ (λ _. stall_from-notes so.now ts ts _ (All-Mem ts) marks-HasNotes.0)
        (λ _. marks-HasNotes.0)

  -- Each torrent that Decide stalls is a torrent of the client in state "downloading" with no stall
  -- time; its metadata gets the stall time "stt" and keeps every other key. Each torrent that it
  -- modifies is one of the client's; its metadata has the slow check mark "sct" and "sctu" set to
  -- the time and to the torrent's upload, or both removed, and keeps every other key.
  pub decide-notes :
      All (IsStallOf so.now ts) (decide status ts site_ts so o).stall_torrents
      × All (IsModifyOf so.now ts) (decide status ts site_ts so o).modify_torrents
  unfolding decide kept_stalls
  decide-notes =
      let m = (resumes status ts site_ts so o).flags in
      (
        All-mono _ _ (decide status ts site_ts so o).stall_torrents (λ e p. p.0)
            (collect_stalls-All so.now ts m _ (stalls status ts site_ts so o).stalls
              (swept status ts site_ts so o).cnt_downloading stalls-notes),
        collect_modifies-keep _ m (marks status ts site_ts so o).modify_torrents marks-HasNotes.1,
      )
