-- ===== src/Brush/Mark/Rule.antt =====
-- A proof rule for the marking loop of Decide: what each single mark keeps, the loop keeps.
use ptool.Base.{
  ◌≡◌, refl, Bool, true, false, ◌&&◌, ◌⊎◌, inl, inr, List, [], ◌∷◌, All, if_ind, &&-true,
}
use ptool.Base.Int.{ℤ, pos}
use ptool.Base.Int64.{sub64, lt64, le64, eq64}
use ptool.Base.Text.{Text, codes}
use ptool.Base.Float.{Float}
use ptool.Client.{Torrent}
use ptool.Brush.Data.{
  ClientOption, Meta, meta_at, can_stall_torrent, count_as_downloading, new_torrents_timespan,
  no_process_torrent_deletion_timespan, slow_torrents_check_timespan,
}
use ptool.Brush.Mark.{
  Marks, slow_meta, unmarked_meta, stall, modify, consider, mark_discount, mark_still_slow,
  mark_slow, mark_old, count_downloading, mark_one, mark_all, has_low_ratio, average_upload_speed,
  is_failing,
}

-- A torrent that is past the timespan of new torrents.
abbrev pub IsOld : ℤ → Torrent → Type 0
IsOld now t = le64 (sub64 now t.atime) new_torrents_timespan ≡ false

-- What to show of `P`. The loop marks a torrent `t` only if `Q t`.
pub record MarkRule {F : Type 0} (now : ℤ) (Q : Torrent → Type 0) (P : Marks F → Type 0)
    : Type 0 where
  pub counted : (c : ℤ) (s : Marks F) → P s → P (record s { cnt_downloading = c })
  pub stalled :
      (msg : Text) (t : Torrent) (s : Marks F)
      → Q t
      → can_stall_torrent t ≡ true
      → P s
      → P (stall now msg t s)
  pub modified :
      (msg : Text) (meta : Meta) (t : Torrent) (s : Marks F)
      → Q t
      → (meta ≡ slow_meta now t) ⊎ (meta ≡ unmarked_meta t)
      → P s
      → P (modify msg meta t s)
  pub considered :
      (score : F) (value : ℤ) (msg : Text) (t : Torrent) (s : Marks F)
      → Q t
      → IsOld now t
      → P s
      → P (consider score value msg t s)

module _ {F : Type 0} ⦃fl : Float F⦄ {Q : Torrent → Type 0} {P : Marks F → Type 0} (now : ℤ)
    (o : ClientOption F) (freespace : ℤ) (some_candidate : Bool) (r : MarkRule now Q P) where
  mark_discount_rule : (t : Torrent) (s : Marks F) → Q t → P s → P (mark_discount now o t s)
  unfolding mark_discount
  mark_discount_rule t s q p =
      if_ind P
        (lt64 (pos 0) (meta_at (codes "dcet") t.meta)
          && (le64 (sub64 (meta_at (codes "dcet") t.meta) now) (pos 3600) && le64 t.ctime (pos 0)))
        _ _ (λ _. if_ind P (can_stall_torrent t) _ _ (λ e. r.stalled _ t s q e p) (λ _. p)) (λ _. p)

  mark_still_slow_rule :
      (t : Torrent) (s : Marks F) → Q t → IsOld now t → P s → P (mark_still_slow now o t s)
  unfolding mark_still_slow has_low_ratio
  mark_still_slow_rule t s q old p =
      r.considered _ _ _ t _ q old
        (if_ind P (has_low_ratio now o t) _ _ (λ e. r.stalled _ t s q (&&-true _ _ e).0 p) (λ _. p))

  mark_slow_rule : (t : Torrent) (s : Marks F) → Q t → IsOld now t → P s → P (mark_slow now o t s)
  unfolding mark_slow
  mark_slow_rule t s q old p =
      if_ind P (lt64 (pos 0) (meta_at (codes "sct") t.meta)) _ _
        (λ _.
          if_ind P (le64 slow_torrents_check_timespan (sub64 now (meta_at (codes "sct") t.meta))) _
            _
            (λ _.
              if_ind P (lt64 (average_upload_speed now o t) o.slow_upload_speed_tier) _ _
                (λ _. mark_still_slow_rule t s q old p) (λ _. r.modified _ _ t s q (inl refl) p))
            (λ _. p))
        (λ _. r.modified _ _ t s q (inl refl) p)

  mark_old_rule :
      (t : Torrent) (s : Marks F)
      → Q t
      → IsOld now t
      → P s
      → P (mark_old now o freespace some_candidate t s)
  unfolding mark_old
  mark_old_rule t s q old p =
      if_ind P (is_failing now o freespace some_candidate t) _ _
        (λ _. r.considered _ _ _ t s q old p)
        (λ _.
          if_ind P (eq64 t.download_speed (pos 0) && eq64 t.size_completed (pos 0)) _ _
            (λ _.
              if_ind P (lt64 no_process_torrent_deletion_timespan (sub64 now t.atime)) _ _
                (λ _. r.considered _ _ _ t s q old p) (λ _. p))
            (λ _.
              if_ind P (lt64 t.upload_speed o.slow_upload_speed_tier) _ _
                (λ _. mark_slow_rule t s q old p)
                (λ _.
                  if_ind P (lt64 (pos 0) (meta_at (codes "sct") t.meta)) _ _
                    (λ _. r.modified _ _ t s q (inr refl) p) (λ _. p))))

  mark_one_rule :
      (t : Torrent) (s : Marks F) → Q t → P s → P (mark_one now o freespace some_candidate t s)
  unfolding mark_one count_downloading
  mark_one_rule t s q p =
      let counted : P (count_downloading now o freespace some_candidate t s) =
        if_ind P (count_as_downloading t now) _ _ (λ _. r.counted _ s p) (λ _. p) in
      let first = mark_discount_rule t _ q counted in
      if_ind P (le64 (sub64 now t.atime) new_torrents_timespan) _ _ (λ _. first)
        (λ old. mark_old_rule t _ q old first)

  pub mark_all_rule :
      (ts : List Torrent) (s : Marks F)
      → All Q ts
      → P s
      → P (mark_all now o freespace some_candidate ts s)
  unfolding mark_all
  mark_all_rule [] s q p = p
  mark_all_rule (t ∷ ts) s q p = mark_all_rule ts _ q.1 (mark_one_rule t s q.0 p)
