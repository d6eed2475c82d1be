-- ===== src/Brush/Sweep/Rule.antt =====
-- A proof rule for the deletions of Decide: what each single deletion keeps, all of them keep.
use ptool.Base.{
  ◌≡◌, Bool, true, false, not, ◌&&◌, ◌||◌, List, [], ◌∷◌, ◌++◌, All, some, Option-cases, inl, inr,
  if_ind, ||-false, not-false,
}
use ptool.Base.Int.{ℤ, pos}
use ptool.Base.Int64.{sub64, eq64, neg64, max64, lt64}
use ptool.Base.Text.{Text, codes}
use ptool.Base.Float.{Float}
use ptool.Client.{Torrent}
use ptool.Brush.Data.{ClientOption, CandidateClientTorrent, torrent_of, is_torrent_stalled}
use ptool.Brush.Sweep.{
  Sweep, delete_one, purge_candidate, purge_candidates, purge_stalled_one, purge_stalled_from,
  purge_stalled, purge_excess_from, purge_excess, sweep, should_delete, is_short,
}

-- The torrent of the candidate may be deleted.
abbrev pub MayDelete :
    {F : Type 0} → List Torrent → (Torrent → Type 0) → CandidateClientTorrent F → Type 0
MayDelete ts Q d = (t : Torrent) → torrent_of ts d.info_hash ≡ some t → Q t

-- The last two loops delete only torrents without the delete flag. `Q` holds of the torrents that
-- may be deleted, and such a deletion keeps `P`.
module _ {F : Type 0} ⦃fl : Float F⦄ (now freespace : ℤ) (o : ClientOption F) (ts : List Torrent)
    (P : Sweep → Type 0) (Q : Torrent → Type 0)
    (step : (msg : Text) (t : Torrent) (s : Sweep)
      → Q t
      → (s.flags t.info_hash).delete_flag ≡ false
      → P s
      → P (delete_one now msg t s)) where
  purge_stalled_one_rule :
      (t : Torrent) (s : Sweep)
      → (is_torrent_stalled t ≡ true → Q t)
      → P s
      → P (purge_stalled_one now freespace o ts t s)
  unfolding purge_stalled_one
  purge_stalled_one_rule t s q p =
      if_ind P ((s.flags t.info_hash).delete_flag || not (is_torrent_stalled t)) _ _ (λ _. p)
        (λ e. step _ t s (q (not-false _ (||-false _ _ e).1)) (||-false _ _ e).0 p)

  purge_stalled_rule :
      (rest : List Torrent) (s : Sweep)
      → All (λ t. is_torrent_stalled t ≡ true → Q t) rest
      → P s
      → P (purge_stalled_from now freespace o ts rest s)
  unfolding purge_stalled_from
  purge_stalled_rule [] s q p = p
  purge_stalled_rule (t ∷ rest) s q p =
      purge_stalled_rule rest (purge_stalled_one now freespace o ts t s) q.1
        (purge_stalled_one_rule t s q.0 p)

  purge_excess_rule :
      (ds : List (CandidateClientTorrent F)) (excess : ℤ) (s : Sweep)
      → All (MayDelete ts Q) ds
      → P s
      → P (purge_excess_from now freespace o ts ds excess s)
  unfolding purge_excess_from
  purge_excess_rule [] excess s q p = p
  purge_excess_rule (d ∷ ds) excess s q p = elim (Option-cases (torrent_of ts d.info_hash)) [
    | inl e ↦ rw (e, purge_excess_from) (purge_excess_rule ds excess s q.1 p)
    | inr (t, e) ↦
        rw (e, purge_excess_from)
          (if_ind P (s.flags t.info_hash).delete_flag _ _ (λ _. purge_excess_rule ds excess s q.1 p)
            (λ alive.
              let deleted =
                step (d.msg ++ codes " (delete due to max torrents limit)") t s (q.0 t e) alive p in
              if_ind P (eq64 (sub64 excess (pos 1)) (pos 0)) _ _ (λ _. deleted)
                (λ _. purge_excess_rule ds (sub64 excess (pos 1)) _ q.1 deleted)))
  ]

  pub late_rule :
      (allow_add : ℤ) (some_candidate : Bool) (ds : List (CandidateClientTorrent F)) (s : Sweep)
      → All (MayDelete ts Q) ds
      → All (λ t. is_torrent_stalled t ≡ true → Q t) ts
      → P s
      → P (
          purge_excess now freespace o ts allow_add some_candidate ds
            (purge_stalled now freespace o ts s))
  unfolding purge_excess purge_stalled
  late_rule allow_add some_candidate ds s q r p =
      let second : P (purge_stalled now freespace o ts s) =
        if_ind P (is_short now freespace o ts s.free_change) _ _ (λ _. purge_stalled_rule ts s r p)
          (λ _. p) in
      let s' = purge_stalled now freespace o ts s in
      let excess = max64 (sub64 s'.cnt o.max_torrents) (neg64 allow_add) in
      if_ind P (lt64 (pos 0) excess && some_candidate) _ _
        (λ _. purge_excess_rule ds excess s' q second) (λ _. second)

-- All three loops, where any deletion of a torrent with `Q` keeps `P`.
module _ {F : Type 0} ⦃fl : Float F⦄ (now freespace : ℤ) (o : ClientOption F) (ts : List Torrent)
    (P : Sweep → Type 0) (Q : Torrent → Type 0)
    (step : (msg : Text) (t : Torrent) (s : Sweep) → Q t → P s → P (delete_one now msg t s)) where
  purge_candidate_rule :
      (d : CandidateClientTorrent F) (s : Sweep)
      → MayDelete ts Q d
      → P s
      → P (purge_candidate now freespace o ts d s)
  unfolding purge_candidate
  purge_candidate_rule d s q p = elim (Option-cases (torrent_of ts d.info_hash)) [
    | inl e ↦ rw (e, purge_candidate) p
    | inr (t, e) ↦
        rw (e, purge_candidate)
          (if_ind P (should_delete now freespace o ts d t s) _ _ (λ _. step d.msg t s (q t e) p)
            (λ _. p))
  ]

  purge_candidates_rule :
      (ds : List (CandidateClientTorrent F)) (s : Sweep)
      → All (MayDelete ts Q) ds
      → P s
      → P (purge_candidates now freespace o ts ds s)
  unfolding purge_candidates
  purge_candidates_rule [] s q p = p
  purge_candidates_rule (d ∷ ds) s q p =
      purge_candidates_rule ds (purge_candidate now freespace o ts d s) q.1
        (purge_candidate_rule d s q.0 p)

  pub sweep_rule :
      (allow_add : ℤ) (some_candidate : Bool) (ds : List (CandidateClientTorrent F)) (s : Sweep)
      → All (MayDelete ts Q) ds
      → All (λ t. is_torrent_stalled t ≡ true → Q t) ts
      → P s
      → P (sweep now freespace o ts allow_add some_candidate ds s)
  unfolding sweep
  sweep_rule allow_add some_candidate ds s q r p =
      late_rule now freespace o ts P Q (λ msg t s' h _ p'. step msg t s' h p') allow_add
        some_candidate ds _ q r (purge_candidates_rule ds s q p)
