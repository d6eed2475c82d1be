-- ===== src/Brush/Decide.antt =====
-- Decide: the loops of the other modules in their order.
use ptool.Base.{
  Bool, true, false, not, ◌&&◌, ◌||◌, none, some, List, [], ◌∷◌, ◌++◌, if◌then◌else◌, length,
}
use ptool.Base.Int.{ℤ, pos, negsuc}
use ptool.Base.Int64.{add64, sub64, mul64, lt64, le64, eq64, max64}
use ptool.Base.Text.{Text, codes, Unicode, str_eq}
use ptool.Base.Float.{Float}
use ptool.Base.Sort.{stable_sort}
use ptool.Client.{Torrent, Status}
use ptool.Site
use ptool.Brush.Data.{
  SiteOption, ClientOption, ModifyTorrent, OperationTorrent, Result, CandidateClientTorrent,
  InfoMap, no_flags, torrent_of, update, set_stall, set_resume,
  resume_torrents_free_disk_space_tier, count_as_downloading, can_stall_torrent, is_torrent_stalled,
}
use ptool.Brush.Mark.{Marks, modify_entry, stalled_meta, mark_all}
use ptool.Brush.Sweep.{Sweep, operation, sweep}
use ptool.Brush.Add.{Adding, candidates, add_loop}

-- The torrents to stall, and the flags.
pub record Stalls : Type 0 where
  pub stalls : List ModifyTorrent
  pub flags : InfoMap

unfoldable pub stall_one : ℤ → Torrent → Stalls → Stalls
stall_one now t s =
    if (s.flags t.info_hash).delete_flag || (s.flags t.info_hash).stall_flag
    then s
    else if can_stall_torrent t
    then record {
      stalls =
          s.stalls
          ++ modify_entry t (codes "stall all torrents due to insufficient free disk space")
              (stalled_meta now t)
            ∷ [];
      flags = update t.info_hash set_stall s.flags;
    }
    else s

unfoldable pub stall_from : ℤ → List Torrent → Stalls → Stalls
unfolding stall_one
stall_from now [] s = s
stall_from now (t ∷ ts) s = stall_from now ts (stall_one now t s)

-- The torrents to resume, and the flags.
pub record Resumes : Type 0 where
  pub resumes : List OperationTorrent
  pub flags : InfoMap

unfoldable pub resume_one : ℤ → Torrent → Resumes → Resumes
resume_one slow_tier t s =
    if not (str_eq t.state (codes "error"))
      || (lt64 t.upload_speed (mul64 slow_tier (pos 4))
          || (is_torrent_stalled t || (s.flags t.info_hash).resume_flag))
    then s
    else record {
      resumes = s.resumes ++ operation t (codes "resume fast uploading errored torrent") ∷ [];
      flags = update t.info_hash set_resume s.flags;
    }

unfoldable pub resume_from : ℤ → List Torrent → Resumes → Resumes
unfolding resume_one
resume_from slow_tier [] s = s
resume_from slow_tier (t ∷ ts) s = resume_from slow_tier ts (resume_one slow_tier t s)

module _ (now : ℤ) (ts : List Torrent) (flags : InfoMap) where
  unfoldable pub counts : Text → Bool
  counts hash = elim (torrent_of ts hash) [ none ↦ false | some t ↦ count_as_downloading t now ]

  -- The stalls that stay, and cntDownloadingTorrents.
  unfoldable pub collect_stalls : List ModifyTorrent → ℤ → List ModifyTorrent × ℤ
  unfolding counts
  collect_stalls [] cnt = ([], cnt)
  collect_stalls (m ∷ ms) cnt =
      let skip = collect_stalls ms cnt in
      let (kept, cnt') =
        collect_stalls ms (if counts m.info_hash then sub64 cnt (pos 1) else cnt) in
      if (flags m.info_hash).delete_flag then skip else (m ∷ kept, cnt')

  unfoldable pub collect_resumes : List OperationTorrent → ℤ → List OperationTorrent × ℤ
  unfolding counts
  collect_resumes [] cnt = ([], cnt)
  collect_resumes (r ∷ rs) cnt =
      let skip = collect_resumes rs cnt in
      let (kept, cnt') =
        collect_resumes rs (if not (counts r.info_hash) then add64 cnt (pos 1) else cnt) in
      if (flags r.info_hash).delete_flag || (flags r.info_hash).stall_flag
      then skip
      else (r ∷ kept, cnt')

unfoldable pub collect_modifies : InfoMap → List ModifyTorrent → List ModifyTorrent
collect_modifies flags [] = []
collect_modifies flags (m ∷ ms) =
    let rest = collect_modifies flags ms in
    if (flags m.info_hash).delete_flag || (flags m.info_hash).stall_flag then rest else m ∷ rest

module _ {F : Type 0} ⦃fl : Float F⦄ where
  unfoldable pub has_higher_score : CandidateClientTorrent F → CandidateClientTorrent F → Bool
  has_higher_score a b = fl.lt b.score a.score

  module _ (status : Status) (o : ClientOption F) where
    unfoldable pub target_upload_speed : ℤ
    target_upload_speed =
        if le64 status.upload_speed_limit (pos 0)
        then o.default_upload_speed_limit
        else status.upload_speed_limit

    -- The free space is unknown, or more than the minimum after the change.
    unfoldable pub has_space : ℤ → Bool
    has_space change =
        eq64 status.free_space_on_disk (negsuc 0)
        || lt64 o.min_disk_space (add64 status.free_space_on_disk change)

    -- The flags after the deletions, and the stalls that a full disk adds.
    unfoldable pub stall_all : ℤ → List Torrent → ℤ → Stalls → Stalls
    unfolding stall_from
    stall_all now ts change s =
        if le64 (pos 0) status.free_space_on_disk
          && lt64 (add64 status.free_space_on_disk change) o.min_disk_space
        then stall_from now ts s
        else s

    unfoldable pub resume_all : List Torrent → ℤ → Resumes → Resumes
    unfolding resume_from
    resume_all ts change s =
        if le64 (max64 o.min_disk_space resume_torrents_free_disk_space_tier)
          (add64 status.free_space_on_disk change)
        then resume_from o.slow_upload_speed_tier ts s
        else s

abbrev pub is_nonempty {ℓ} : {A : Type ℓ} → List A → Bool
is_nonempty [] = false
is_nonempty (_ ∷ _) = true

module _ {F : Type 0} ⦃fl : Float F⦄ ⦃u : Unicode⦄ (status : Status) (ts : List Torrent)
    (site_ts : List (Site.Torrent F)) (so : SiteOption) (o : ClientOption F) where
  unfoldable pub marks : Marks F
  unfolding mark_all candidates
  marks =
      mark_all so.now o status.free_space_on_disk (is_nonempty (candidates so site_ts)) ts (record {
        cnt_downloading = pos 0;
        modify_torrents = [];
        stall_torrents = [];
        delete_candidates = [];
        flags = λ _. no_flags;
      })

  unfoldable pub swept : Sweep
  unfolding marks sweep has_higher_score stable_sort
  swept =
      sweep so.now status.free_space_on_disk o ts so.allow_add_torrents
        (is_nonempty (candidates so site_ts)) (stable_sort has_higher_score marks.delete_candidates)
        (record {
          deleted = [];
          free_change = pos 0;
          upload_speed = status.upload_speed;
          flags = marks.flags;
          cnt_downloading = marks.cnt_downloading;
          cnt = pos (length ts);
        })

  unfoldable pub stalls : Stalls
  unfolding swept stall_all
  stalls =
      stall_all status o so.now ts swept.free_change
        (record { stalls = marks.stall_torrents; flags = swept.flags })

  unfoldable pub resumes : Resumes
  unfolding stalls resume_all
  resumes = resume_all status o ts swept.free_change (record { resumes = []; flags = stalls.flags })

  unfoldable pub kept_stalls : List ModifyTorrent × ℤ
  unfolding resumes collect_stalls
  kept_stalls = collect_stalls so.now ts resumes.flags stalls.stalls swept.cnt_downloading

  unfoldable pub kept_resumes : List OperationTorrent × ℤ
  unfolding kept_stalls collect_resumes
  kept_resumes = collect_resumes so.now ts resumes.flags resumes.resumes kept_stalls.1

  unfoldable pub adding : Adding F
  unfolding kept_resumes has_space add_loop target_upload_speed
  adding =
      let start : Adding F = record {
        adds = [];
        added = pos 0;
        cnt = swept.cnt;
        cnt_downloading = kept_resumes.1;
        upload_speed = swept.upload_speed;
      } in
      if has_space status o swept.free_change && le64 swept.cnt o.max_torrents
      then add_loop o (target_upload_speed status o) so.allow_add_torrents (candidates so site_ts)
          start
      else start

  unfoldable pub decide : Result F
  unfolding adding collect_modifies
  decide = record {
    delete_torrents = swept.deleted;
    stall_torrents = kept_stalls.0;
    resume_torrents = kept_resumes.0;
    modify_torrents = collect_modifies resumes.flags marks.modify_torrents;
    add_torrents = adding.adds;
    can_add_more =
        le64 adding.cnt o.max_torrents
        && (lt64 adding.cnt_downloading o.max_downloading_torrents
            && (le64 adding.upload_speed (mul64 (target_upload_speed status o) (pos 2))
                && has_space status o swept.free_change));
    free_space_change = swept.free_change;
  }
