-- ===== src/Brush/Limits.antt =====
-- What Decide adds: the best candidates, no more than allowed, and only where there is space.
use mathlib.Core.List.{append_assoc, append-nil}
use ptool.Base.{
  ◌+◌, ◌≡◌, refl, ap, sym, ◌∙◌, ◌⊎◌, inl, inr, true, ◌&&◌, List, [], ◌∷◌, ◌++◌, map, arith, length,
  length-append, if_ind, &&-true,
}
use ptool.Base.Int.{ℤ, pos, ◌≤ℤ◌, ◌<ℤ◌}
use ptool.Base.Int64.{InRange64, add64, le64, lt64_iff, add64_pos_one}
use ptool.Base.Text.{Unicode}
use ptool.Base.Float.{Float}
use ptool.Client.{Torrent, Status}
use ptool.Site
use ptool.Brush.Data.{SiteOption, ClientOption, AddTorrent, CandidateTorrent}
use ptool.Brush.Add.{Adding, may_add, add_one, add_loop, candidates}
use ptool.Brush.Decide.{swept, kept_resumes, has_space, target_upload_speed, adding, decide}

abbrev pub add_entry : {F : Type 0} → CandidateTorrent F → AddTorrent F
add_entry c = record {
  download_url = c.download_url;
  name = c.name;
  meta = c.meta;
  msg_score = c.score;
}

-- The list is `before`, and then the entries of a first part of the candidates.
pub record Takes {F : Type 0} (cs : List (CandidateTorrent F)) (before adds : List (AddTorrent F))
    : Type 0 where
  pub taken : List (CandidateTorrent F)
  pub left : List (CandidateTorrent F)
  pub split : cs ≡ taken ++ left
  pub made : adds ≡ before ++ map add_entry taken

module _ {F : Type 0} (o : ClientOption F) (target_speed allow_add : ℤ) where
  Takes-none :
      (cs : List (CandidateTorrent F)) (before : List (AddTorrent F)) → Takes cs before before
  Takes-none cs before = record {
    taken = [];
    left = cs;
    split = refl;
    made = sym (append-nil before);
  }

  Takes-cons :
      (c : CandidateTorrent F) (cs : List (CandidateTorrent F)) (before adds : List (AddTorrent F))
      → Takes cs (before ++ add_entry c ∷ []) adds
      → Takes (c ∷ cs) before adds
  Takes-cons c cs before adds t = record {
    taken = c ∷ t.taken;
    left = t.left;
    split = ap (λ (l : List (CandidateTorrent F)). c ∷ l) t.split;
    made = t.made ∙ append_assoc before (add_entry c ∷ []) (map add_entry t.taken);
  }

  add_loop-Takes :
      (cs : List (CandidateTorrent F)) (s : Adding F)
      → Takes cs s.adds (add_loop o target_speed allow_add cs s).adds
  unfolding add_loop add_one
  add_loop-Takes [] s = Takes-none [] s.adds
  add_loop-Takes (c ∷ cs) s =
      if_ind (λ (r : Adding F). Takes (c ∷ cs) s.adds r.adds) (may_add o target_speed allow_add s) _
        _ (λ _. Takes-cons c cs s.adds _ (add_loop-Takes cs (add_one o target_speed allow_add c s)))
        (λ _. Takes-none (c ∷ cs) s.adds)

  -- The counter counts the entries, and these are no more than allowed.
  abbrev Fits : Adding F → Type 0
  Fits s = (s.added ≡ pos (length s.adds)) × ((s.adds ≡ []) ⊎ (pos (length s.adds) ≤ℤ allow_add))

  add_one-Fits :
      InRange64 allow_add
      → (c : CandidateTorrent F) (s : Adding F) → may_add o target_speed allow_add s ≡ true
      → Fits s
      → Fits (add_one o target_speed allow_add c s)
  unfolding add_one may_add
  add_one-Fits range c s m h =
      let n = length s.adds in
      let below : s.added <ℤ allow_add =
        (lt64_iff s.added allow_add).0 (&&-true _ _ (&&-true _ _ m).1).1 in
      let below' : pos n <ℤ allow_add = rw h.0 at below in
      let grown : length (s.adds ++ add_entry c ∷ []) ≡ n + 1 =
        length-append s.adds (add_entry c ∷ []) in
      let exact : add64 (pos n) (pos 1) ≡ pos (n + 1) =
        add64_pos_one n (omega (arith, range.below)) in
      (ap (λ x. add64 x (pos 1)) h.0 ∙ exact ∙ ap pos (sym grown), inr (omega (arith, grown)))

  add_loop-Fits :
      InRange64 allow_add
      → (cs : List (CandidateTorrent F)) (s : Adding F) → Fits s
      → Fits (add_loop o target_speed allow_add cs s)
  unfolding add_loop
  add_loop-Fits range [] s h = h
  add_loop-Fits range (c ∷ cs) s h =
      if_ind Fits (may_add o target_speed allow_add s) _ _
        (λ m. add_loop-Fits range cs _ (add_one-Fits range c s m h)) (λ _. h)

module _ {F : Type 0} ⦃fl : Float F⦄ ⦃u : Unicode⦄ (status : Status) (ts : List Torrent)
    (site_ts : List (Site.Torrent F)) (so : SiteOption) (o : ClientOption F) where
  -- The torrents that Decide adds are the first ones of the sorted candidates, in their order. There
  -- are at most AllowAddTorrents of them (none, if that is negative), and none unless the free space
  -- after the deletions is unknown or above the minimum, and the torrents left are within their
  -- limit.
  pub decide-adds :
      InRange64 so.allow_add_torrents
      → Takes (candidates so site_ts) [] (decide status ts site_ts so o).add_torrents
        × (((decide status ts site_ts so o).add_torrents ≡ [])
            ⊎ ((pos (length (decide status ts site_ts so o).add_torrents) ≤ℤ so.allow_add_torrents)
                × (has_space status o (decide status ts site_ts so o).free_space_change ≡ true)
                × (le64 (swept status ts site_ts so o).cnt o.max_torrents ≡ true)))
  unfolding decide adding
  decide-adds range =
      let start : Adding F = record {
        adds = [];
        added = pos 0;
        cnt = (swept status ts site_ts so o).cnt;
        cnt_downloading = (kept_resumes status ts site_ts so o).1;
        upload_speed = (swept status ts site_ts so o).upload_speed;
      } in
      let cs = candidates so site_ts in
      let space = has_space status o (swept status ts site_ts so o).free_change in
      let few = le64 (swept status ts site_ts so o).cnt o.max_torrents in
      let speed = target_upload_speed status o in
      if_ind
        (λ (r : Adding F).
          Takes cs [] r.adds
          × ((r.adds ≡ [])
              ⊎ ((pos (length r.adds) ≤ℤ so.allow_add_torrents) × (space ≡ true) × (few ≡ true))))
        (space && few) _ _
        (λ c. (
          add_loop-Takes o speed so.allow_add_torrents cs start,
          elim (add_loop-Fits o speed so.allow_add_torrents range cs start (refl, inl refl)).1 [
            | inl e ↦ inl e
            | inr h ↦ inr (h, (&&-true _ _ c).0, (&&-true _ _ c).1)
          ],
        ))
        (λ _. (Takes-none o speed so.allow_add_torrents cs [], inl refl))
