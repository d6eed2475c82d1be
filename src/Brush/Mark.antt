-- ===== src/Brush/Mark.antt =====
-- The second loop of Decide: which client torrents to stall, to modify, and which to consider for
-- deletion.
pub mod Rule
use ptool.Base.{Bool, true, false, not, ◌&&◌, ◌||◌, List, [], ◌∷◌, ◌++◌, if◌then◌else◌}
use ptool.Base.Int.{ℤ, pos}
use ptool.Base.Int64.{add64, sub64, mul64, quot64, lt64, le64, eq64}
use ptool.Base.Text.{Text, codes, str_eq}
use ptool.Base.Dict.{insert, delete}
use ptool.Base.Float.{Float, float}
use ptool.Client.{Torrent}
use ptool.Brush.Data.{
  ClientOption, Meta, meta_at, ModifyTorrent, CandidateClientTorrent, InfoMap, Flags, update,
  set_stall, set_delete_candidate, set_modify, new_torrents_timespan,
  new_torrents_stall_exemption_timespan, no_process_torrent_deletion_timespan,
  ratio_check_min_download_speed, slow_torrents_check_timespan, delete_torrent_immediately_score,
  count_as_downloading, can_stall_torrent,
}

-- The variables that the loop changes.
pub record Marks (F : Type 0) : Type 0 where
  pub cnt_downloading : ℤ
  pub modify_torrents : List ModifyTorrent
  pub stall_torrents : List ModifyTorrent
  pub delete_candidates : List (CandidateClientTorrent F)
  pub flags : InfoMap

-- An entry with a changed copy of the torrent's metadata.
abbrev pub modify_entry : Torrent → Text → Meta → ModifyTorrent
modify_entry t msg meta = record { info_hash = t.info_hash; name = t.name; meta = meta; msg = msg }

-- The metadata with the stall time set, and with the slow check mark set.
abbrev pub stalled_meta : ℤ → Torrent → Meta
stalled_meta now t = insert (codes "stt") now t.meta

abbrev pub slow_meta : ℤ → Torrent → Meta
slow_meta now t = insert (codes "sctu") t.uploaded (insert (codes "sct") now t.meta)

abbrev pub unmarked_meta : Torrent → Meta
unmarked_meta t = delete (codes "sctu") (delete (codes "sct") t.meta)

module _ {F : Type 0} where
  unfoldable pub stall : ℤ → Text → Torrent → Marks F → Marks F
  stall now msg t s = record s {
    stall_torrents = s.stall_torrents ++ modify_entry t msg (stalled_meta now t) ∷ [];
    flags = update t.info_hash set_stall s.flags;
  }

  unfoldable pub modify : Text → Meta → Torrent → Marks F → Marks F
  modify msg meta t s = record s {
    modify_torrents = s.modify_torrents ++ modify_entry t msg meta ∷ [];
    flags = update t.info_hash set_modify s.flags;
  }

  unfoldable pub consider : F → ℤ → Text → Torrent → Marks F → Marks F
  consider score value msg t s = record s {
    delete_candidates =
        s.delete_candidates
        ++ record { info_hash = t.info_hash; score = score; future_value = value; msg = msg } ∷ [];
    flags = update t.info_hash set_delete_candidate s.flags;
  }

module _ {F : Type 0} ⦃fl : Float F⦄ where
  module _ (now : ℤ) (o : ClientOption F) where
    -- The discount ends within the hour, and the torrent is not complete.
    unfoldable pub mark_discount : Torrent → Marks F → Marks F
    unfolding stall
    mark_discount t s =
        if lt64 (pos 0) (meta_at (codes "dcet") t.meta)
          && (le64 (sub64 (meta_at (codes "dcet") t.meta) now) (pos 3600) && le64 t.ctime (pos 0))
        then if can_stall_torrent t then stall now (codes "discount time ends") t s else s
        else s

    -- The average since the slow check mark.
    unfoldable pub average_upload_speed : Torrent → ℤ
    average_upload_speed t =
        quot64 (sub64 t.uploaded (meta_at (codes "sctu") t.meta))
          (sub64 now (meta_at (codes "sct") t.meta))

    unfoldable pub slow_score : Torrent → F
    slow_score t =
        let score = fl.neg (float t.upload_speed) in
        if le64 t.ctime (pos 0)
        then if lt64 (pos 0) (meta_at (codes "stt") t.meta)
          then fl.add score (fl.sub (float now) (float (meta_at (codes "stt") t.meta)))
          else score
        else fl.add score (fl.min (float (sub64 now t.ctime)) (float (pos 86400)))

    unfoldable pub has_low_ratio : Torrent → Bool
    has_low_ratio t =
        can_stall_torrent t
        && (le64 ratio_check_min_download_speed t.download_speed
            && (fl.lt (fl.div (float t.upload_speed) (float t.download_speed)) o.min_ratio
                && le64 new_torrents_stall_exemption_timespan (sub64 now t.atime)))

    -- The torrent is slow at the second check.
    unfoldable pub mark_still_slow : Torrent → Marks F → Marks F
    unfolding stall consider slow_score has_low_ratio
    mark_still_slow t s =
        let s' =
          if has_low_ratio t then stall now (codes "low upload / download ratio") t s else s in
        consider (slow_score t) t.upload_speed (codes "slow uploading speed") t s'

    unfoldable pub mark_slow : Torrent → Marks F → Marks F
    unfolding mark_still_slow modify average_upload_speed
    mark_slow t s =
        if lt64 (pos 0) (meta_at (codes "sct") t.meta)
        then if le64 slow_torrents_check_timespan (sub64 now (meta_at (codes "sct") t.meta))
          then if lt64 (average_upload_speed t) o.slow_upload_speed_tier
            then mark_still_slow t s
            else modify (codes "reset slow check time mark") (slow_meta now t) t s
          else s
        else modify (codes "set slow check time mark") (slow_meta now t) t s

    -- `some` says that there is a torrent to add, len(candidateTorrents) > 0.
    module _ (freespace : ℤ) (some_candidate : Bool) where
      unfoldable pub is_failing : Torrent → Bool
      is_failing t =
          str_eq t.state (codes "error")
          && ((lt64 t.upload_speed o.slow_upload_speed_tier
                || lt64 t.upload_speed (mul64 o.slow_upload_speed_tier (pos 2))
                  && eq64 freespace (pos 0))
              && some_candidate)

      -- The ladder behind the check of the torrent's age.
      unfoldable pub mark_old : Torrent → Marks F → Marks F
      unfolding is_failing consider mark_slow modify
      mark_old t s =
          if is_failing t
          then consider (float delete_torrent_immediately_score) (pos 0)
              (codes "torrent in error state") t s
          else if eq64 t.download_speed (pos 0) && eq64 t.size_completed (pos 0)
          then if lt64 no_process_torrent_deletion_timespan (sub64 now t.atime)
            then consider (float delete_torrent_immediately_score) (pos 0)
                (codes "torrent has no download proccess") t s
            else s
          else if lt64 t.upload_speed o.slow_upload_speed_tier
          then mark_slow t s
          else if lt64 (pos 0) (meta_at (codes "sct") t.meta)
          then modify (codes "remove slow check time mark") (unmarked_meta t) t s
          else s

      unfoldable pub count_downloading : Torrent → Marks F → Marks F
      count_downloading t s =
          if count_as_downloading t now
          then record s { cnt_downloading = add64 s.cnt_downloading (pos 1) }
          else s

      -- The body of the loop.
      unfoldable pub mark_one : Torrent → Marks F → Marks F
      unfolding count_downloading mark_discount mark_old
      mark_one t s =
          let s' = mark_discount t (count_downloading t s) in
          if le64 (sub64 now t.atime) new_torrents_timespan then s' else mark_old t s'

      unfoldable pub mark_all : List Torrent → Marks F → Marks F
      unfolding mark_one
      mark_all [] s = s
      mark_all (t ∷ ts) s = mark_all ts (mark_one t s)
