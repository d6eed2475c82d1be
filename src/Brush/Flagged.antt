-- ===== src/Brush/Flagged.antt =====
-- The flags of clientTorrentsMap: no step of Decide clears one, and what a loop appends to a list
-- of torrents has its flag set.
use ptool.Base.{
  ◌≡◌, true, not, ◌&&◌, ◌||◌, List, [], ◌∷◌, arith, All, All-append, All-mono, All-of, if_ind,
}
use ptool.Base.Int.{ℤ, pos}
use ptool.Base.Int64.{add64, mul64, lt64, le64, max64}
use ptool.Base.Text.{Text, Unicode, codes, str_eq, str_eq_refl}
use ptool.Base.Float.{Float}
use ptool.Base.Sort.{stable_sort}
use ptool.Client.{Torrent, Status}
use ptool.Site
use ptool.Brush.Data.{
  SiteOption, ClientOption, ModifyTorrent, InfoMap, update, set_stall, set_delete, set_modify,
  set_delete_candidate, set_resume, can_stall_torrent, is_torrent_stalled,
  resume_torrents_free_disk_space_tier,
}
use ptool.Brush.Mark.{stall, modify, consider}
use ptool.Brush.Mark.Rule.{MarkRule, mark_all_rule}
use ptool.Brush.Sweep.{Sweep, delete_one}
use ptool.Brush.Sweep.Rule.{sweep_rule}
use ptool.Brush.Decide.{
  Stalls, Resumes, stall_one, stall_from, stall_all, resume_one, resume_from, resume_all, marks,
  swept, stalls, resumes, has_higher_score,
}

abbrev pub IsDeleted : InfoMap → Text → Type 0
IsDeleted m hash = (m hash).delete_flag ≡ true

abbrev pub IsStalled : InfoMap → Text → Type 0
IsStalled m hash = (m hash).stall_flag ≡ true

-- The second map has the delete and stall flags of the first, and perhaps more.
pub record Keeps (m m' : InfoMap) : Type 0 where
  pub deleted : (hash : Text) → IsDeleted m hash → IsDeleted m' hash
  pub stalled : (hash : Text) → IsStalled m hash → IsStalled m' hash

update_stall-Keeps : (hash : Text) (m : InfoMap) → Keeps m (update hash set_stall m)
unfolding update
update_stall-Keeps hash m = record { deleted = λ k p. ground arith; stalled = λ k p. ground arith }

update_delete-Keeps : (hash : Text) (m : InfoMap) → Keeps m (update hash set_delete m)
unfolding update
update_delete-Keeps hash m = record { deleted = λ k p. ground arith; stalled = λ k p. ground arith }

update_modify-Keeps : (hash : Text) (m : InfoMap) → Keeps m (update hash set_modify m)
unfolding update
update_modify-Keeps hash m = record { deleted = λ k p. ground arith; stalled = λ k p. ground arith }

update_candidate-Keeps : (hash : Text) (m : InfoMap) → Keeps m (update hash set_delete_candidate m)
unfolding update
update_candidate-Keeps hash m = record {
  deleted = λ k p. ground arith;
  stalled = λ k p. ground arith;
}

update_resume-Keeps : (hash : Text) (m : InfoMap) → Keeps m (update hash set_resume m)
unfolding update
update_resume-Keeps hash m = record { deleted = λ k p. ground arith; stalled = λ k p. ground arith }

update_stall_self : (hash : Text) (m : InfoMap) → IsStalled (update hash set_stall m) hash
unfolding update
update_stall_self hash m = rw (str_eq_refl hash)

update_delete_self : (hash : Text) (m : InfoMap) → IsDeleted (update hash set_delete m) hash
unfolding update
update_delete_self hash m = rw (str_eq_refl hash)

-- Every torrent of the list has its stall flag.
abbrev pub AllStalled : InfoMap → List ModifyTorrent → Type 0
AllStalled m ms = All (λ e. IsStalled m e.info_hash) ms

AllStalled-Keeps :
    (m m' : InfoMap) (ms : List ModifyTorrent) → Keeps m m' → AllStalled m ms → AllStalled m' ms
AllStalled-Keeps m m' ms k h = All-mono _ _ ms (λ e p. k.stalled e.info_hash p) h

mark-AllStalled :
    {F : Type 0} (now : ℤ)
    → MarkRule {F = F} now (λ _. Unit {0}) (λ s. AllStalled s.flags s.stall_torrents)
unfolding stall modify consider
mark-AllStalled now = record {
  counted = λ c s p. p;
  stalled = λ msg t s _ _ p.
      All-append _ s.stall_torrents _
        (AllStalled-Keeps s.flags _ s.stall_torrents (update_stall-Keeps t.info_hash s.flags) p)
        (update_stall_self t.info_hash s.flags, tt);
  modified = λ msg meta t s _ _ p.
      AllStalled-Keeps s.flags _ s.stall_torrents (update_modify-Keeps t.info_hash s.flags) p;
  considered = λ score value msg t s _ _ p.
      AllStalled-Keeps s.flags _ s.stall_torrents (update_candidate-Keeps t.info_hash s.flags) p;
}

-- Each deletion has its flag.
abbrev pub IsTracked : Sweep → Type 0
IsTracked s = All (λ d. IsDeleted s.flags d.info_hash) s.deleted

pub delete_one-IsTracked :
    (now : ℤ) (msg : Text) (t : Torrent) (s : Sweep)
    → IsTracked s
    → IsTracked (delete_one now msg t s)
unfolding delete_one
delete_one-IsTracked now msg t s h =
    All-append _ s.deleted _
      (All-mono _ _ s.deleted
        (λ d p. (update_delete-Keeps t.info_hash s.flags).deleted d.info_hash p) h)
      (update_delete_self t.info_hash s.flags, tt)

delete_one-Keeps :
    (now : ℤ) (msg : Text) (t : Torrent) (s : Sweep) → Keeps s.flags (delete_one now msg t s).flags
unfolding delete_one
delete_one-Keeps now msg t s = update_delete-Keeps t.info_hash s.flags

Keeps-refl : (m : InfoMap) → Keeps m m
Keeps-refl m = record { deleted = λ hash p. p; stalled = λ hash p. p }

Keeps-trans : (a b c : InfoMap) → Keeps a b → Keeps b c → Keeps a c
Keeps-trans a b c h k = record {
  deleted = λ hash p. k.deleted hash (h.deleted hash p);
  stalled = λ hash p. k.stalled hash (h.stalled hash p);
}

-- The stalls that a full disk adds have their flag, and no flag is lost.
abbrev StallsFrom : InfoMap → Stalls → Type 0
StallsFrom m s = Keeps m s.flags × AllStalled s.flags s.stalls

stall_one-StallsFrom :
    (m : InfoMap) (now : ℤ) (t : Torrent) (s : Stalls)
    → StallsFrom m s
    → StallsFrom m (stall_one now t s)
unfolding stall_one
stall_one-StallsFrom m now t s h =
    if_ind (StallsFrom m) ((s.flags t.info_hash).delete_flag || (s.flags t.info_hash).stall_flag) _
      _ (λ _. h)
      (λ _.
        if_ind (StallsFrom m) (can_stall_torrent t) _ _
          (λ _. (
            Keeps-trans m s.flags _ h.0 (update_stall-Keeps t.info_hash s.flags),
            All-append _ s.stalls _
                (AllStalled-Keeps s.flags _ s.stalls (update_stall-Keeps t.info_hash s.flags) h.1)
                (update_stall_self t.info_hash s.flags, tt),
          ))
          (λ _. h))

stall_from-StallsFrom :
    (m : InfoMap) (now : ℤ) (ts : List Torrent) (s : Stalls)
    → StallsFrom m s
    → StallsFrom m (stall_from now ts s)
unfolding stall_from
stall_from-StallsFrom m now [] s h = h
stall_from-StallsFrom m now (t ∷ ts) s h =
    stall_from-StallsFrom m now ts (stall_one now t s) (stall_one-StallsFrom m now t s h)

resume_one-Keeps :
    (slow_tier : ℤ) (t : Torrent) (s : Resumes) → Keeps s.flags (resume_one slow_tier t s).flags
unfolding resume_one
resume_one-Keeps slow_tier t s =
    if_ind (λ (r : Resumes). Keeps s.flags r.flags)
      (not (str_eq t.state (codes "error"))
        || (lt64 t.upload_speed (mul64 slow_tier (pos 4))
            || (is_torrent_stalled t || (s.flags t.info_hash).resume_flag)))
      _ _ (λ _. Keeps-refl s.flags) (λ _. update_resume-Keeps t.info_hash s.flags)

resume_from-Keeps :
    (slow_tier : ℤ) (ts : List Torrent) (s : Resumes)
    → Keeps s.flags (resume_from slow_tier ts s).flags
unfolding resume_from
resume_from-Keeps slow_tier [] s = Keeps-refl s.flags
resume_from-Keeps slow_tier (t ∷ ts) s =
    Keeps-trans s.flags (resume_one slow_tier t s).flags _ (resume_one-Keeps slow_tier t s)
      (resume_from-Keeps slow_tier ts (resume_one slow_tier t s))

module _ {F : Type 0} ⦃fl : Float F⦄ ⦃u : Unicode⦄ (status : Status) (ts : List Torrent)
    (site_ts : List (Site.Torrent F)) (so : SiteOption) (o : ClientOption F) where
  marks-AllStalled :
      AllStalled (marks status ts site_ts so o).flags (marks status ts site_ts so o).stall_torrents
  unfolding marks
  marks-AllStalled =
      mark_all_rule so.now o _ _ (mark-AllStalled so.now) ts _ (All-of _ ts (λ _. tt)) tt

  pub swept-IsTracked : IsTracked (swept status ts site_ts so o)
  unfolding swept
  swept-IsTracked =
      sweep_rule so.now _ o ts IsTracked (λ _. Unit {0})
        (λ msg t s _ h. delete_one-IsTracked so.now msg t s h) _ _ _ _
        (All-of _ (stable_sort has_higher_score (marks status ts site_ts so o).delete_candidates)
          (λ _ _ _. tt))
        (All-of _ ts (λ _ _. tt)) tt

  swept-Keeps : Keeps (marks status ts site_ts so o).flags (swept status ts site_ts so o).flags
  unfolding swept
  swept-Keeps =
      sweep_rule so.now _ o ts (λ s. Keeps (marks status ts site_ts so o).flags s.flags)
        (λ _. Unit {0}) (λ msg t s _ h. Keeps-trans _ s.flags _ h (delete_one-Keeps so.now msg t s))
        _ _ _ _
        (All-of _ (stable_sort has_higher_score (marks status ts site_ts so o).delete_candidates)
          (λ _ _ _. tt))
        (All-of _ ts (λ _ _. tt)) (Keeps-refl (marks status ts site_ts so o).flags)

  stalls-StallsFrom :
      StallsFrom (swept status ts site_ts so o).flags (stalls status ts site_ts so o)
  unfolding stalls stall_all
  stalls-StallsFrom =
      let m = (swept status ts site_ts so o).flags in
      let start : StallsFrom m
          (record { stalls = (marks status ts site_ts so o).stall_torrents; flags = m }) =
        (
          Keeps-refl m,
          AllStalled-Keeps _ m (marks status ts site_ts so o).stall_torrents swept-Keeps
              marks-AllStalled,
        ) in
      if_ind (StallsFrom m)
        (le64 (pos 0) status.free_space_on_disk
          && lt64 (add64 status.free_space_on_disk (swept status ts site_ts so o).free_change)
              o.min_disk_space)
        _ _ (λ _. stall_from-StallsFrom m so.now ts _ start) (λ _. start)

  resumes-Keeps : Keeps (stalls status ts site_ts so o).flags (resumes status ts site_ts so o).flags
  unfolding resumes resume_all
  resumes-Keeps =
      let m = (stalls status ts site_ts so o).flags in
      if_ind (λ (r : Resumes). Keeps m r.flags)
        (le64 (max64 o.min_disk_space resume_torrents_free_disk_space_tier)
          (add64 status.free_space_on_disk (swept status ts site_ts so o).free_change))
        _ _ (λ _. resume_from-Keeps o.slow_upload_speed_tier ts _) (λ _. Keeps-refl m)

  -- The deletions have their flags, and the torrents to stall theirs, where the lists are made.
  pub deleted-flags :
      All
        (λ d. IsDeleted (resumes status ts site_ts so o).flags d.info_hash)
        (swept status ts site_ts so o).deleted
  deleted-flags =
      All-mono _ _ (swept status ts site_ts so o).deleted
        (λ d p. resumes-Keeps.deleted d.info_hash (stalls-StallsFrom.0.deleted d.info_hash p))
        swept-IsTracked

  pub stalls-flags :
      AllStalled (resumes status ts site_ts so o).flags (stalls status ts site_ts so o).stalls
  stalls-flags = AllStalled-Keeps _ _ _ resumes-Keeps stalls-StallsFrom.1
