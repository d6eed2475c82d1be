-- ===== src/Brush/Disjoint.antt =====
-- No torrent stands in two of the lists that Decide returns: what is deleted is not also stalled,
-- resumed or modified, and what is stalled is not also resumed or modified.
use ptool.Base.{
  ◌≡◌, ◌≢◌, ap, Bool, true, false, not, ◌||◌, List, [], ◌∷◌, if◌then◌else◌, All, All-mono, if_ind,
  ||-false,
}
use ptool.Base.Int.{ℤ, pos}
use ptool.Base.Int64.{add64, sub64}
use ptool.Base.Text.{Text, Unicode}
use ptool.Base.Float.{Float}
use ptool.Client.{Torrent, Status}
use ptool.Site
use ptool.Brush.Data.{SiteOption, ClientOption, ModifyTorrent, OperationTorrent, Result, InfoMap}
use ptool.Brush.Decide.{
  counts, collect_stalls, collect_resumes, collect_modifies, marks, swept, stalls, resumes,
  kept_stalls, kept_resumes, decide,
}
use ptool.Brush.Flagged.{deleted-flags, stalls-flags}

-- No hash of the first list is a hash of the second.
abbrev pub Apart : {A B : Type 0} → (A → Text) → (B → Text) → List A → List B → Type 0
Apart f g xs ys = All (λ x. All (λ y. f x ≢ g y) ys) xs

Apart-of_test :
    {A B : Type 0} (f : A → Text) (g : B → Text) (test : Text → Bool) (xs : List A) (ys : List B)
    → All (λ x. test (f x) ≡ true) xs
    → All (λ y. test (g y) ≡ false) ys
    → Apart f g xs ys
Apart-of_test f g test xs ys h k =
    All-mono _ _ xs (λ x p. All-mono _ _ ys (λ y q. λ (e : f x ≡ g y). cc (ap test e)) k) h

-- The lists of a result name different torrents.
pub record IsDisjoint {F : Type 0} (r : Result F) : Type 0 where
  pub delete_stall : Apart (λ d. d.info_hash) (λ m. m.info_hash) r.delete_torrents r.stall_torrents
  pub delete_resume :
      Apart (λ d. d.info_hash) (λ m. m.info_hash) r.delete_torrents r.resume_torrents
  pub delete_modify :
      Apart (λ d. d.info_hash) (λ m. m.info_hash) r.delete_torrents r.modify_torrents
  pub stall_resume : Apart (λ d. d.info_hash) (λ m. m.info_hash) r.stall_torrents r.resume_torrents
  pub stall_modify : Apart (λ d. d.info_hash) (λ m. m.info_hash) r.stall_torrents r.modify_torrents

module _ (now : ℤ) (ts : List Torrent) (m : InfoMap) where
  pub collect_stalls-All :
      (P : ModifyTorrent → Type 0) (ms : List ModifyTorrent) (cnt : ℤ)
      → All P ms
      → All (λ e. P e × ((m e.info_hash).delete_flag ≡ false)) (collect_stalls now ts m ms cnt).0
  unfolding collect_stalls
  collect_stalls-All P [] cnt h = tt
  collect_stalls-All P (e ∷ ms) cnt h =
      if_ind
        (λ (r : List ModifyTorrent × ℤ).
          All (λ e'. P e' × ((m e'.info_hash).delete_flag ≡ false)) r.0)
        (m e.info_hash).delete_flag _ _ (λ _. collect_stalls-All P ms cnt h.1)
        (λ c. (
          (h.0, c),
          collect_stalls-All P ms (if counts now ts m e.info_hash then sub64 cnt (pos 1) else cnt)
              h.1,
        ))

  pub collect_resumes-All :
      (rs : List OperationTorrent) (cnt : ℤ)
      → All
          (λ r. ((m r.info_hash).delete_flag ≡ false) × ((m r.info_hash).stall_flag ≡ false))
          (collect_resumes now ts m rs cnt).0
  unfolding collect_resumes
  collect_resumes-All [] cnt = tt
  collect_resumes-All (r ∷ rs) cnt =
      if_ind
        (λ (k : List OperationTorrent × ℤ).
          All (λ r'. ((m r'.info_hash).delete_flag ≡ false) × ((m r'.info_hash).stall_flag ≡ false))
            k.0)
        ((m r.info_hash).delete_flag || (m r.info_hash).stall_flag) _ _
        (λ _. collect_resumes-All rs cnt)
        (λ c. (
          ||-false _ _ c,
          collect_resumes-All rs
              (if not (counts now ts m r.info_hash) then add64 cnt (pos 1) else cnt),
        ))

collect_modifies-All :
    (m : InfoMap) (ms : List ModifyTorrent)
    → All
        (λ e. ((m e.info_hash).delete_flag ≡ false) × ((m e.info_hash).stall_flag ≡ false))
        (collect_modifies m ms)
unfolding collect_modifies
collect_modifies-All m [] = tt
collect_modifies-All m (e ∷ ms) =
    if_ind
      (λ (k : List ModifyTorrent).
        All (λ e'. ((m e'.info_hash).delete_flag ≡ false) × ((m e'.info_hash).stall_flag ≡ false))
          k)
      ((m e.info_hash).delete_flag || (m e.info_hash).stall_flag) _ _
      (λ _. collect_modifies-All m ms) (λ c. (||-false _ _ c, collect_modifies-All m ms))

module _ {F : Type 0} ⦃fl : Float F⦄ ⦃u : Unicode⦄ (status : Status) (ts : List Torrent)
    (site_ts : List (Site.Torrent F)) (so : SiteOption) (o : ClientOption F) where
  -- Whatever the inputs, also with one info hash at several torrents, the lists that Decide returns
  -- name different torrents: the deleted ones are not stalled, resumed or modified, and the stalled
  -- ones are not resumed or modified.
  pub decide-IsDisjoint : IsDisjoint (decide status ts site_ts so o)
  unfolding decide kept_stalls kept_resumes
  decide-IsDisjoint =
      let m = (resumes status ts site_ts so o).flags in
      let r = decide status ts site_ts so o in
      let is_deleted : Text → Bool = λ hash. (m hash).delete_flag in
      let is_stalled : Text → Bool = λ hash. (m hash).stall_flag in
      let kept =
        collect_stalls-All so.now ts m _ (stalls status ts site_ts so o).stalls
          (swept status ts site_ts so o).cnt_downloading (stalls-flags status ts site_ts so o) in
      let resumed =
        collect_resumes-All so.now ts m (resumes status ts site_ts so o).resumes
          (kept_stalls status ts site_ts so o).1 in
      let modified = collect_modifies-All m (marks status ts site_ts so o).modify_torrents in
      let deleted = deleted-flags status ts site_ts so o in
      let stalled = All-mono _ _ r.stall_torrents (λ e p. p.0) kept in
      record {
        delete_stall =
            Apart-of_test _ _ is_deleted r.delete_torrents r.stall_torrents deleted
              (All-mono _ _ r.stall_torrents (λ e p. p.1) kept);
        delete_resume =
            Apart-of_test _ _ is_deleted r.delete_torrents r.resume_torrents deleted
              (All-mono _ _ r.resume_torrents (λ e p. p.0) resumed);
        delete_modify =
            Apart-of_test _ _ is_deleted r.delete_torrents r.modify_torrents deleted
              (All-mono _ _ r.modify_torrents (λ e p. p.0) modified);
        stall_resume =
            Apart-of_test _ _ is_stalled r.stall_torrents r.resume_torrents stalled
              (All-mono _ _ r.resume_torrents (λ e p. p.1) resumed);
        stall_modify =
            Apart-of_test _ _ is_stalled r.stall_torrents r.modify_torrents stalled
              (All-mono _ _ r.modify_torrents (λ e p. p.1) modified);
      }
