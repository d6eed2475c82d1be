-- ===== src/Client/Validity.antt =====
-- What SpeculateTrackerValidity says of a torrent's trackers.
use mathlib.Core.List.{Memᴰ}
use mathlib.Core.Path.{subst}
use ptool.Base.{
  ◌≡◌, refl, ◌⊎◌, inl, inr, Bool, true, false, ◌&&◌, ◌||◌, List, [], ◌∷◌, if◌then◌else◌, if_ind,
  any, All, Bool-cases, arith,
}
use ptool.Base.Int.{ℤ, pos, ◌≤ℤ◌, ◌<ℤ◌}
use ptool.Base.Int64.{lt64, eq64, eq64_iff}
use ptool.Base.Text.{Text, Unicode}
use ptool.Client.Trackers.{
  TorrentTracker, speculate_one, is_working, speculate_loop, speculate_tracker_validity,
}

module _ ⦃u : Unicode⦄ (msgs : List (Text × ℤ)) where
  -- No tracker works, the validity is at most the bound and at most each bad state of a tracker,
  -- and it is the bound or the bad state of a tracker.
  pub record IsLeast (trackers : List TorrentTracker) (bound validity : ℤ) : Type 0 where
    pub none_works : any (is_working msgs) trackers ≡ false
    pub below_bound : validity ≤ℤ bound
    pub below_all :
        All (λ t. (speculate_one msgs t ≤ℤ pos 0) ⊎ (validity ≤ℤ speculate_one msgs t)) trackers
    pub reached :
        (validity ≡ bound)
        ⊎ ((t : TorrentTracker) × Memᴰ t trackers
            × (validity ≡ speculate_one msgs t)
            × (pos 0 <ℤ validity))

  -- Some tracker works, or the loop finds the least bad state.
  abbrev pub Speculates : List TorrentTracker → ℤ → Bool × ℤ → Type 0
  Speculates trackers bound (true, validity) = any (is_working msgs) trackers ≡ true
  Speculates trackers bound (false, validity) = IsLeast trackers bound validity

  -- One tracker more that does not work, with a worse or a lesser bad state than the bound.
  IsLeast-lesser :
      (t : TorrentTracker) (ts : List TorrentTracker) (bound validity : ℤ)
      → is_working msgs t ≡ false
      → pos 0 <ℤ speculate_one msgs t
      → speculate_one msgs t <ℤ bound
      → IsLeast ts (speculate_one msgs t) validity
      → IsLeast (t ∷ ts) bound validity
  unfolding any
  IsLeast-lesser t ts bound validity idle positive lesser h = record {
    none_works = rw idle h.none_works;
    below_bound = omega (arith, h.below_bound, lesser);
    below_all = (inr h.below_bound, h.below_all);
    reached = elim h.reached [
      | inl e ↦ inr (t, Memᴰ.head refl, e, rw e positive)
      | inr (t', m, e, p) ↦ inr (t', Memᴰ.tail m, e, p)
    ];
  }

  IsLeast-skip :
      (t : TorrentTracker) (ts : List TorrentTracker) (bound validity : ℤ)
      → is_working msgs t ≡ false
      → (speculate_one msgs t ≤ℤ pos 0) ⊎ (bound ≤ℤ speculate_one msgs t)
      → IsLeast ts bound validity
      → IsLeast (t ∷ ts) bound validity
  unfolding any
  IsLeast-skip t ts bound validity idle skips h = record {
    none_works = rw idle h.none_works;
    below_bound = h.below_bound;
    below_all =
        (elim skips [ inl z ↦ inl z | inr g ↦ inr (omega (arith, h.below_bound, g)) ], h.below_all);
    reached = elim h.reached [ inl e ↦ inl e | inr (t', m, e, p) ↦ inr (t', Memᴰ.tail m, e, p) ];
  }

  not_lesser :
      (v bound : ℤ) → (lt64 (pos 0) v && lt64 v bound) ≡ false → (v ≤ℤ pos 0) ⊎ (bound ≤ℤ v)
  unfolding lt64
  not_lesser v bound e = ground arith

  lesser : (v bound : ℤ) → (lt64 (pos 0) v && lt64 v bound) ≡ true → (pos 0 <ℤ v) × (v <ℤ bound)
  unfolding lt64
  lesser v bound e = ground arith

  speculate_one-later :
      (t : TorrentTracker) (ts : List TorrentTracker) (bound : ℤ) (r : Bool × ℤ)
      → is_working msgs t ≡ false
      → (let v = speculate_one msgs t in
          Speculates ts (if lt64 (pos 0) v && lt64 v bound then v else bound) r)
      → Speculates (t ∷ ts) bound r
  unfolding any
  speculate_one-later t ts bound (true, validity) idle h = rw idle h
  speculate_one-later t ts bound (false, validity) idle h =
      let v = speculate_one msgs t in
      elim (Bool-cases (lt64 (pos 0) v && lt64 v bound)) [
        | inl e ↦
            IsLeast-lesser t ts bound validity idle (lesser v bound e).0 (lesser v bound e).1
              (subst (λ (c : Bool). IsLeast ts (if c then v else bound) validity) e h)
        | inr e ↦
            IsLeast-skip t ts bound validity idle (not_lesser v bound e)
              (subst (λ (c : Bool). IsLeast ts (if c then v else bound) validity) e h)
      ]

  speculate_loop-Speculates :
      (trackers : List TorrentTracker) (bound : ℤ)
      → Speculates trackers bound (speculate_loop msgs trackers bound)
  unfolding speculate_loop any
  speculate_loop-Speculates [] bound = record {
    none_works = refl;
    below_bound = ground arith;
    below_all = tt;
    reached = inl refl;
  }
  speculate_loop-Speculates (t ∷ ts) bound =
      let v = speculate_one msgs t in
      let bound' = if lt64 (pos 0) v && lt64 v bound then v else bound in
      if_ind (Speculates (t ∷ ts) bound) (is_working msgs t) _ (speculate_loop msgs ts bound')
        (λ w. rw w refl)
        (λ w.
          speculate_one-later t ts bound (speculate_loop msgs ts bound') w
            (speculate_loop-Speculates ts bound'))

  -- Each bad state is at least the bound.
  abbrev AllBeyond : List TorrentTracker → ℤ → Type 0
  AllBeyond trackers bound =
      All (λ t. (speculate_one msgs t ≤ℤ pos 0) ⊎ (bound ≤ℤ speculate_one msgs t)) trackers

  -- The validity of all trackers: OK, where one works or none has a bad state below 999; else, no
  -- tracker works, and it is the least of the bad states of the trackers.
  abbrev pub IsValidityOf : List TorrentTracker → ℤ → Type 0
  IsValidityOf trackers validity =
      ((validity ≡ pos 0) × (any (is_working msgs) trackers ≡ true))
      ⊎ ((validity ≡ pos 0)
          × All (λ t. (speculate_one msgs t ≤ℤ pos 0) ⊎ (pos 999 ≤ℤ speculate_one msgs t)) trackers)
      ⊎ ((any (is_working msgs) trackers ≡ false)
          × (pos 0 <ℤ validity)
          × All (λ t. (speculate_one msgs t ≤ℤ pos 0) ⊎ (validity ≤ℤ speculate_one msgs t)) trackers
          × ((t : TorrentTracker) × Memᴰ t trackers × (validity ≡ speculate_one msgs t)))

  IsValidityOf-loop :
      (trackers : List TorrentTracker) (r : Bool × ℤ)
      → Speculates trackers (pos 999) r
      → IsValidityOf trackers (if r.0 || eq64 r.1 (pos 999) then pos 0 else r.1)
  IsValidityOf-loop trackers (true, validity) h = inl (refl, h)
  IsValidityOf-loop trackers (false, validity) h =
      if_ind (IsValidityOf trackers) (eq64 validity (pos 999)) _ _
        (λ e.
          inr (
            inl (refl, subst (AllBeyond trackers) ((eq64_iff validity (pos 999)).0 e) h.below_all)))
        (λ e. elim h.reached [
          | inl f ↦ let g = (eq64_iff validity (pos 999)).1 f in cc
          | inr (t, m, f, p) ↦ inr (inr (h.none_works, p, h.below_all, (t, m, f)))
        ])

  -- The validity of a torrent's trackers is OK where a tracker works, or where no tracker reports
  -- a known bad state; else it is the least bad state that a tracker reports.
  pub speculate_tracker_validity-IsLeast :
      (trackers : List TorrentTracker)
      → IsValidityOf trackers (speculate_tracker_validity msgs trackers)
  unfolding speculate_tracker_validity
  speculate_tracker_validity-IsLeast trackers =
      IsValidityOf-loop trackers (speculate_loop msgs trackers (pos 999))
        (speculate_loop-Speculates trackers (pos 999))
