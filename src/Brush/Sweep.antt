-- ===== src/Brush/Sweep.antt =====
-- The deletions of Decide: the candidates in the order of their scores, then all stalled torrents
-- if the disk is still short of space, then candidates beyond the limit on the number of torrents.
pub mod Rule
use ptool.Base.{
  Bool, true, false, not, ◌&&◌, ◌||◌, Option, none, some, List, [], ◌∷◌, ◌++◌, if◌then◌else◌,
}
use ptool.Base.Int.{ℤ, pos}
use ptool.Base.Int64.{add64, sub64, mul64, neg64, lt64, le64, eq64, min64, max64}
use ptool.Base.Text.{Text, codes}
use ptool.Base.Float.{Float, float}
use ptool.Client.{Torrent}
use ptool.Brush.Data.{
  ClientOption, meta_at, OperationTorrent, CandidateClientTorrent, InfoMap, Flags, torrent_of,
  update, set_delete, delete_torrent_immediately_score, stall_torrent_deletion_timespan,
  delete_torrents_free_disk_space_tier, count_as_downloading, is_torrent_stalled,
}

-- The variables that the loops change.
pub record Sweep : Type 0 where
  pub deleted : List OperationTorrent
  pub free_change : ℤ
  pub upload_speed : ℤ
  pub flags : InfoMap
  pub cnt_downloading : ℤ
  pub cnt : ℤ

abbrev pub operation : Torrent → Text → OperationTorrent
operation t msg = record { info_hash = t.info_hash; name = t.name; msg = msg }

-- What the three loops do to delete a torrent.
unfoldable pub delete_one : ℤ → Text → Torrent → Sweep → Sweep
delete_one now msg t s = record {
  deleted = s.deleted ++ operation t msg ∷ [];
  free_change = add64 s.free_change t.size_completed;
  upload_speed = sub64 s.upload_speed t.upload_speed;
  flags = update t.info_hash set_delete s.flags;
  cnt_downloading =
      if count_as_downloading t now then sub64 s.cnt_downloading (pos 1) else s.cnt_downloading;
  cnt = sub64 s.cnt (pos 1);
}

module _ {F : Type 0} ⦃fl : Float F⦄ (now freespace : ℤ) (o : ClientOption F)
    (ts : List Torrent) where
  unfoldable pub freespace_target : ℤ
  freespace_target =
      min64 (mul64 o.min_disk_space (pos 2))
        (add64 o.min_disk_space delete_torrents_free_disk_space_tier)

  -- The disk is short of space, after the given change.
  unfoldable pub is_short : ℤ → Bool
  unfolding freespace_target
  is_short change =
      le64 (pos 0) freespace
      && (le64 freespace o.min_disk_space && le64 (add64 freespace change) freespace_target)

  unfoldable pub should_delete : CandidateClientTorrent F → Torrent → Sweep → Bool
  unfolding is_short
  should_delete d t s =
      if fl.le (float delete_torrent_immediately_score) d.score || is_short s.free_change
      then true
      else le64 t.ctime (pos 0)
        && (lt64 (pos 0) (meta_at (codes "stt") t.meta)
            && le64 stall_torrent_deletion_timespan (sub64 now (meta_at (codes "stt") t.meta)))

  -- `none` would be a read through a nil pointer; each candidate is one of the client's torrents.
  unfoldable pub purge_candidate : CandidateClientTorrent F → Sweep → Sweep
  unfolding should_delete delete_one
  purge_candidate d s = elim (torrent_of ts d.info_hash) [
    | none ↦ s
    | some t ↦ if should_delete d t s then delete_one now d.msg t s else s
  ]

  unfoldable pub purge_candidates : List (CandidateClientTorrent F) → Sweep → Sweep
  unfolding purge_candidate
  purge_candidates [] s = s
  purge_candidates (d ∷ ds) s = purge_candidates ds (purge_candidate d s)

  unfoldable pub purge_stalled_one : Torrent → Sweep → Sweep
  unfolding delete_one
  purge_stalled_one t s =
      if (s.flags t.info_hash).delete_flag || not (is_torrent_stalled t)
      then s
      else delete_one now
          (codes "delete stalled incomplete torrents due to insufficient disk space") t s

  unfoldable pub purge_stalled_from : List Torrent → Sweep → Sweep
  unfolding purge_stalled_one
  purge_stalled_from [] s = s
  purge_stalled_from (t ∷ rest) s = purge_stalled_from rest (purge_stalled_one t s)

  unfoldable pub purge_stalled : Sweep → Sweep
  unfolding purge_stalled_from is_short
  purge_stalled s = if is_short s.free_change then purge_stalled_from ts s else s

  -- `excess` is cntDeleteDueToMaxTorrents; the loop breaks when it reaches 0.
  unfoldable pub purge_excess_from : List (CandidateClientTorrent F) → ℤ → Sweep → Sweep
  unfolding delete_one
  purge_excess_from [] excess s = s
  purge_excess_from (d ∷ ds) excess s = elim (torrent_of ts d.info_hash) [
    | none ↦ purge_excess_from ds excess s
    | some t ↦
        let skip = purge_excess_from ds excess s in
        let s' = delete_one now (d.msg ++ codes " (delete due to max torrents limit)") t s in
        let next = purge_excess_from ds (sub64 excess (pos 1)) s' in
        if (s.flags t.info_hash).delete_flag
        then skip
        else if eq64 (sub64 excess (pos 1)) (pos 0)
        then s'
        else next
  ]

  -- `allow_add` is AllowAddTorrents, `some_candidate` is len(candidateTorrents) > 0.
  unfoldable pub purge_excess : ℤ → Bool → List (CandidateClientTorrent F) → Sweep → Sweep
  unfolding purge_excess_from
  purge_excess allow_add some_candidate ds s =
      let excess = max64 (sub64 s.cnt o.max_torrents) (neg64 allow_add) in
      if lt64 (pos 0) excess && some_candidate then purge_excess_from ds excess s else s

  unfoldable pub sweep : ℤ → Bool → List (CandidateClientTorrent F) → Sweep → Sweep
  unfolding purge_candidates purge_stalled purge_excess
  sweep allow_add some_candidate ds s =
      purge_excess allow_add some_candidate ds (purge_stalled (purge_candidates ds s))
