-- ===== src/Brush/Distinct.antt =====
-- Decide deletes no torrent twice.
use ptool.Base.{
  ◌≡◌, ◌≢◌, refl, ap, sym, ◌∙◌, ◌⊎◌, inl, inr, Bool, false, ◌&&◌, List, [], ◌∷◌, ◌++◌, arith, All,
  All-append, All-mono, All-of, if_ind, Option-cases, if◌then◌else◌,
}
use mathlib.Core.Path.{subst}
use ptool.Base.Int.{ℤ, pos}
use ptool.Base.Int64.{sub64, lt64, le64, eq64}
use ptool.Base.Text.{Text, Unicode, codes, str_eq_iff}
use ptool.Base.Float.{Float}
use ptool.Base.Sort.{insert_sorted, stable_sort, insert_sorted-All, stable_sort-All}
use ptool.Client.{Torrent, Status}
use ptool.Site
use ptool.Brush.Data.{
  SiteOption, ClientOption, CandidateClientTorrent, InfoMap, update, torrent_of, meta_at,
  new_torrents_timespan, no_process_torrent_deletion_timespan, slow_torrents_check_timespan,
}
use ptool.Brush.Mark.{
  Marks, stall, modify, consider, mark_discount, mark_still_slow, mark_slow, mark_old,
  count_downloading, mark_one, mark_all, has_low_ratio, average_upload_speed, is_failing,
}
use ptool.Brush.Mark.Rule.{MarkRule, mark_all_rule}
use ptool.Brush.Sweep.{Sweep, delete_one, purge_candidate, purge_candidates, sweep, should_delete}
use ptool.Brush.Sweep.Rule.{late_rule}
use ptool.Brush.Flagged.{IsTracked, delete_one-IsTracked}
use ptool.Brush.Protected.{torrent_of-hash}
use ptool.Brush.Decide.{marks, swept, decide, has_higher_score}

-- No two items have the same hash.
abbrev pub Distinct : {A : Type 0} → (A → Text) → List A → Type 0
Distinct f [] = Unit
Distinct f (x ∷ xs) = All (λ y. f x ≢ f y) xs × Distinct f xs

Distinct-append_one :
    {A : Type 0} (f : A → Text) (xs : List A) (y : A)
    → Distinct f xs
    → All (λ x. f x ≢ f y) xs
    → Distinct f (xs ++ y ∷ [])
Distinct-append_one f [] y d a = (tt, tt)
Distinct-append_one f (x ∷ xs) y d a =
    (All-append _ xs _ d.0 (a.0, tt), Distinct-append_one f xs y d.1 a.1)

insert_sorted-Distinct :
    {A : Type 0} (f : A → Text) (less : A → A → Bool) (x : A) (xs : List A)
    → All (λ y. f x ≢ f y) xs
    → Distinct f xs
    → Distinct f (insert_sorted less x xs)
unfolding insert_sorted
insert_sorted-Distinct f less x [] a d = (tt, tt)
insert_sorted-Distinct f less x (y ∷ ys) a d =
    if_ind (Distinct f) (less y x) _ _
      (λ _. (
        insert_sorted-All less (λ z. f y ≢ f z) x ys (λ e. a.0 (sym e)) d.0,
        insert_sorted-Distinct f less x ys a.1 d.1,
      ))
      (λ _. (a, d))

stable_sort-Distinct :
    {A : Type 0} (f : A → Text) (less : A → A → Bool) (xs : List A)
    → Distinct f xs
    → Distinct f (stable_sort less xs)
unfolding stable_sort
stable_sort-Distinct f less [] d = tt
stable_sort-Distinct f less (x ∷ xs) d =
    insert_sorted-Distinct f less x (stable_sort less xs)
      (stable_sort-All less (λ y. f x ≢ f y) xs d.0) (stable_sort-Distinct f less xs d.1)

All-both_mono :
    {A : Type 0} {P Q R : A → Type 0} (xs : List A)
    → All P xs
    → All Q xs
    → ((x : A) → P x → Q x → R x)
    → All R xs
All-both_mono [] p q f = tt
All-both_mono (x ∷ xs) p q f = (f x p.0 q.0, All-both_mono xs p.1 q.1 f)

-- A round of the marking loop adds at most one candidate, with the hash of its torrent.
abbrev Grows : {F : Type 0} → Text → Marks F → Marks F → Type 0
Grows {F} hash s s' =
    (s'.delete_candidates ≡ s.delete_candidates)
    ⊎ ((c : CandidateClientTorrent F) × (c.info_hash ≡ hash)
        × (s'.delete_candidates ≡ s.delete_candidates ++ c ∷ []))

consider-Grows :
    {F : Type 0} (score : F) (value : ℤ) (msg : Text) (t : Torrent) (s s' : Marks F)
    → s'.delete_candidates ≡ s.delete_candidates
    → Grows t.info_hash s (consider score value msg t s')
unfolding consider
consider-Grows {F} score value msg t s s' e =
    let c : CandidateClientTorrent F = record {
      info_hash = t.info_hash;
      score = score;
      future_value = value;
      msg = msg;
    } in
    inr (c, refl, ap (λ (l : List (CandidateClientTorrent F)). l ++ c ∷ []) e)

module _ {F : Type 0} ⦃fl : Float F⦄ (now : ℤ) (o : ClientOption F) (freespace : ℤ)
    (some_candidate : Bool) where
  mark_discount-same :
      (t : Torrent) (s : Marks F)
      → (mark_discount now o t s).delete_candidates ≡ s.delete_candidates
  unfolding mark_discount stall
  mark_discount-same t s = ground arith

  mark_slow-Grows :
      (t : Torrent) (s s' : Marks F)
      → s'.delete_candidates ≡ s.delete_candidates
      → Grows t.info_hash s (mark_slow now o t s')
  unfolding mark_slow mark_still_slow modify stall
  mark_slow-Grows t s s' e =
      let P : Marks F → Type 0 = Grows t.info_hash s in
      if_ind P (lt64 (pos 0) (meta_at (codes "sct") t.meta)) _ _
        (λ _.
          if_ind P (le64 slow_torrents_check_timespan (sub64 now (meta_at (codes "sct") t.meta))) _
            _
            (λ _.
              if_ind P (lt64 (average_upload_speed now o t) o.slow_upload_speed_tier) _ _
                (λ _.
                  consider-Grows _ _ _ t s
                    (if has_low_ratio now o t
                      then stall now (codes "low upload / download ratio") t s'
                      else s')
                    (ground arith))
                (λ _. inl e))
            (λ _. inl e))
        (λ _. inl e)

  mark_old-Grows :
      (t : Torrent) (s s' : Marks F)
      → s'.delete_candidates ≡ s.delete_candidates
      → Grows t.info_hash s (mark_old now o freespace some_candidate t s')
  unfolding mark_old modify
  mark_old-Grows t s s' e =
      let P : Marks F → Type 0 = Grows t.info_hash s in
      if_ind P (is_failing now o freespace some_candidate t) _ _
        (λ _. consider-Grows _ _ _ t s s' e)
        (λ _.
          if_ind P (eq64 t.download_speed (pos 0) && eq64 t.size_completed (pos 0)) _ _
            (λ _.
              if_ind P (lt64 no_process_torrent_deletion_timespan (sub64 now t.atime)) _ _
                (λ _. consider-Grows _ _ _ t s s' e) (λ _. inl e))
            (λ _.
              if_ind P (lt64 t.upload_speed o.slow_upload_speed_tier) _ _
                (λ _. mark_slow-Grows t s s' e)
                (λ _.
                  if_ind P (lt64 (pos 0) (meta_at (codes "sct") t.meta)) _ _ (λ _. inl e)
                    (λ _. inl e))))

  count_downloading-same :
      (t : Torrent) (s : Marks F)
      → (count_downloading now o freespace some_candidate t s).delete_candidates
        ≡ s.delete_candidates
  unfolding count_downloading
  count_downloading-same t s = ground arith

  mark_one-Grows :
      (t : Torrent) (s : Marks F)
      → Grows t.info_hash s (mark_one now o freespace some_candidate t s)
  unfolding mark_one
  mark_one-Grows t s =
      let counted = count_downloading now o freespace some_candidate t s in
      let e = mark_discount-same t counted ∙ count_downloading-same t s in
      if_ind (Grows t.info_hash s) (le64 (sub64 now t.atime) new_torrents_timespan) _ _ (λ _. inl e)
        (λ _. mark_old-Grows t s (mark_discount now o t counted) e)

  -- The candidates have different hashes, and none is that of a torrent still to come.
  record Fresh (ts : List Torrent) (ds : List (CandidateClientTorrent F)) : Type 0 where
    distinct : Distinct (λ d. d.info_hash) ds
    ahead : All (λ d. All (λ t. d.info_hash ≢ t.info_hash) ts) ds

  Fresh-tail :
      (t : Torrent) (ts : List Torrent) (ds : List (CandidateClientTorrent F))
      → Fresh (t ∷ ts) ds
      → Fresh ts ds
  Fresh-tail t ts ds h = record {
    distinct = h.distinct;
    ahead = All-mono _ _ ds (λ d p. p.1) h.ahead;
  }

  Fresh-one :
      (t : Torrent) (ts : List Torrent) (ds : List (CandidateClientTorrent F))
      (c : CandidateClientTorrent F)
      → c.info_hash ≡ t.info_hash
      → All (λ t'. t.info_hash ≢ t'.info_hash) ts
      → Fresh (t ∷ ts) ds
      → Fresh ts (ds ++ c ∷ [])
  Fresh-one t ts ds c e new h = record {
    distinct =
        Distinct-append_one _ ds c h.distinct (All-mono _ _ ds (λ d p q. p.0 (q ∙ e)) h.ahead);
    ahead =
        All-append _ ds _ (All-mono _ _ ds (λ d p. p.1) h.ahead)
          (All-mono _ _ ts (λ t' p q. p (sym e ∙ q)) new, tt);
  }

  mark_all-Distinct :
      (ts : List Torrent) (s : Marks F)
      → Distinct (λ t. t.info_hash) ts
      → Fresh ts s.delete_candidates
      → Distinct (λ d. d.info_hash) (mark_all now o freespace some_candidate ts s).delete_candidates
  unfolding mark_all
  mark_all-Distinct [] s u h = h.distinct
  mark_all-Distinct (t ∷ ts) s u h =
      let s' = mark_one now o freespace some_candidate t s in
      mark_all-Distinct ts s' u.1 (elim (mark_one-Grows t s) [
        | inl e ↦ subst (Fresh ts) (sym e) (Fresh-tail t ts s.delete_candidates h)
        | inr (c, same, e) ↦
            subst (Fresh ts) (sym e) (Fresh-one t ts s.delete_candidates c same u.0 h)
      ])

-- The delete flag of each hash is not set.
abbrev AllAlive : {F : Type 0} → InfoMap → List (CandidateClientTorrent F) → Type 0
AllAlive m ds = All (λ d. (m d.info_hash).delete_flag ≡ false) ds

mark-alive :
    {F : Type 0} (now : ℤ)
    → MarkRule {F = F} now (λ _. Unit {0}) (λ s. (hash : Text) → (s.flags hash).delete_flag ≡ false)
unfolding stall modify consider update
mark-alive now = record {
  counted = λ c s p. p;
  stalled = λ msg t s _ _ p hash. ground (arith, p hash);
  modified = λ msg meta t s _ _ p hash. ground (arith, p hash);
  considered = λ score value msg t s _ _ p hash. ground (arith, p hash);
}

-- The deletions are flagged and different.
abbrev IsSound : Sweep → Type 0
IsSound s = IsTracked s × Distinct (λ d. d.info_hash) s.deleted

delete_one-IsSound :
    (now : ℤ) (msg : Text) (t : Torrent) (s : Sweep)
    → (s.flags t.info_hash).delete_flag ≡ false
    → IsSound s
    → IsSound (delete_one now msg t s)
unfolding delete_one
delete_one-IsSound now msg t s alive h = (
  delete_one-IsTracked now msg t s h.0,
  Distinct-append_one _ s.deleted _ h.1 (
      All-mono _ _ s.deleted
        (λ d p. λ (e : d.info_hash ≡ t.info_hash). cc (ap (λ k. (s.flags k).delete_flag) e)) h.0),
)

-- A deletion flags no other hash.
delete_one-alive :
    (now : ℤ) (msg : Text) (t : Torrent) (s : Sweep) (hash : Text)
    → t.info_hash ≢ hash
    → (s.flags hash).delete_flag ≡ false
    → ((delete_one now msg t s).flags hash).delete_flag ≡ false
unfolding delete_one update
delete_one-alive now msg t s hash other h = ground (arith, str_eq_iff t.info_hash hash)

module _ {F : Type 0} ⦃fl : Float F⦄ (now freespace : ℤ) (o : ClientOption F)
    (ts : List Torrent) where
  purge_candidate-IsSound :
      (d : CandidateClientTorrent F) (ds : List (CandidateClientTorrent F)) (s : Sweep)
      → Distinct (λ c. c.info_hash) (d ∷ ds)
      → AllAlive s.flags (d ∷ ds)
      → IsSound s
      → let s' = purge_candidate now freespace o ts d s in IsSound s' × AllAlive s'.flags ds
  unfolding purge_candidate
  purge_candidate-IsSound d ds s u alive h = elim (Option-cases (torrent_of ts d.info_hash)) [
    | inl e ↦ rw (e, purge_candidate) (h, alive.1)
    | inr (t, e) ↦
        let same = torrent_of-hash ts d.info_hash t e in
        rw (e, purge_candidate)
          (if_ind (λ (s' : Sweep). IsSound s' × AllAlive s'.flags ds)
            (should_delete now freespace o ts d t s) _ _
            (λ _. (
              delete_one-IsSound now d.msg t s (ap (λ k. (s.flags k).delete_flag) same ∙ alive.0) h,
              All-both_mono ds u.0 alive.1
                  (λ c p q. delete_one-alive now d.msg t s c.info_hash (λ r. p (sym same ∙ r)) q),
            ))
            (λ _. (h, alive.1)))
  ]

  purge_candidates-IsSound :
      (ds : List (CandidateClientTorrent F)) (s : Sweep)
      → Distinct (λ c. c.info_hash) ds
      → AllAlive s.flags ds
      → IsSound s
      → IsSound (purge_candidates now freespace o ts ds s)
  unfolding purge_candidates
  purge_candidates-IsSound [] s u alive h = h
  purge_candidates-IsSound (d ∷ ds) s u alive h =
      let (h', alive') = purge_candidate-IsSound d ds s u alive h in
      purge_candidates-IsSound ds (purge_candidate now freespace o ts d s) u.1 alive' h'

module _ {F : Type 0} ⦃fl : Float F⦄ ⦃u : Unicode⦄ (status : Status) (ts : List Torrent)
    (site_ts : List (Site.Torrent F)) (so : SiteOption) (o : ClientOption F) where
  -- Where no two torrents of the client have one info hash, no two deletions that Decide returns
  -- have one info hash: no torrent is deleted, or counted as deleted, twice.
  pub decide-Distinct :
      Distinct (λ t. t.info_hash) ts
      → Distinct (λ d. d.info_hash) (decide status ts site_ts so o).delete_torrents
  unfolding decide swept sweep marks
  decide-Distinct different =
      let m = marks status ts site_ts so o in
      let ds = stable_sort has_higher_score m.delete_candidates in
      let alive : (hash : Text) → (m.flags hash).delete_flag ≡ false =
        mark_all_rule so.now o _ _ (mark-alive so.now) ts _ (All-of _ ts (λ _. tt)) (λ _. refl) in
      let distinct : Distinct (λ d. d.info_hash) ds =
        stable_sort-Distinct _ has_higher_score m.delete_candidates
          (mark_all-Distinct so.now o _ _ ts _ different (record { distinct = tt; ahead = tt })) in
      (late_rule so.now _ o ts IsSound (λ _. Unit {0})
        (λ msg t s _ e h. delete_one-IsSound so.now msg t s e h) _ _ ds _
        (All-of _ ds (λ _ _ _. tt)) (All-of _ ts (λ _ _. tt))
        (purge_candidates-IsSound so.now _ o ts ds _ distinct (All-of _ ds (λ d. alive d.info_hash))
          (tt, tt))).1
