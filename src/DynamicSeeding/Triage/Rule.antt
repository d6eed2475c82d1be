-- ===== src/DynamicSeeding/Triage/Rule.antt =====
-- Which torrents the triage of doDynamicSeeding offers for deletion.
use ptool.Base.{
  ◌≡◌, refl, ◌⊎◌, inl, inr, Bool, true, false, not, ◌&&◌, Option, List, [], ◌∷◌, if_ind, All,
  All-append, not-false, &&-true, arith,
}
use ptool.Base.Int.{ℤ, pos}
use ptool.Base.Int64.{sub64, lt64, le64, eq64}
use ptool.Base.Text.{Text, codes, str_eq, Unicode}
use ptool.Client.{Torrent}
use ptool.Client.Match.{has_tag, is_complete}
use ptool.Client.Trackers.{TorrentTracker}
use ptool.DynamicSeeding.Data.{new_torrent_timespan, inactivity_timespan, min_seeding_time}
use ptool.DynamicSeeding.Triage.{
  Class, Triage, put, is_invalid, tracker_status, classify_incomplete, classify_complete, classify,
  triage,
}

module _ ⦃u : Unicode⦄ (msgs : List (Text × ℤ)) (trackers_of : Text → Option (List TorrentTracker))
    (timestamp min_seeders max_seeders : ℤ) (tag : Text) where
  abbrev invalid_of : Torrent → Bool
  invalid_of t =
      is_invalid (tracker_status msgs trackers_of timestamp min_seeders max_seeders tag t)

  -- An incomplete torrent that its trackers refuse and that is not new, or that was not active for
  -- three hours.
  abbrev pub IsHopeless : Torrent → Type 0
  IsHopeless t =
      (is_complete t ≡ false)
      × (((invalid_of t ≡ true) × (lt64 new_torrent_timespan (sub64 timestamp t.atime) ≡ true))
          ⊎ (le64 inactivity_timespan (sub64 timestamp t.activity_time) ≡ true))

  -- A torrent that others seed enough, and that was complete for ten days.
  abbrev pub HasOtherSeeders : Torrent → Type 0
  HasOtherSeeders t =
      (eq64 t.seeders (pos 0) ≡ false)
      × (lt64 (sub64 timestamp t.ctime) min_seeding_time ≡ false)
      × ((lt64 max_seeders t.seeders ≡ true) ⊎ (lt64 min_seeders t.seeders ≡ true))

  -- A complete torrent that is seeding, and that its trackers refuse or others seed.
  abbrev pub IsDispensable : Torrent → Type 0
  IsDispensable t =
      (is_complete t ≡ true)
      × (str_eq t.state (codes "seeding") ≡ true)
      × ((invalid_of t ≡ true) ⊎ HasOtherSeeders t)

  -- The torrent has the site's tag and no "nodel" tag, and there is a reason to delete it.
  pub record IsReplaceable (t : Torrent) : Type 0 where
    pub tagged : has_tag t tag ≡ true
    pub deletable : has_tag t (codes "nodel") ≡ false
    pub reason : IsHopeless t ⊎ IsDispensable t

  -- The class allows to delete the torrent only for a reason.
  abbrev Allows : Type 0 → Class → Type 0
  Allows P Class.invalid_class = P
  Allows P Class.stalled_class = P
  Allows P Class.safe_class = P
  Allows P Class.normal_class = P
  Allows P _ = Unit

  classify_incomplete-Allows :
      (t : Torrent)
      → is_complete t ≡ false
      → Allows (IsHopeless t) (
          classify_incomplete msgs trackers_of timestamp min_seeders max_seeders tag
            (invalid_of t)
            t)
  unfolding classify_incomplete
  classify_incomplete-Allows t incomplete =
      if_ind (Allows (IsHopeless t))
        (invalid_of t && lt64 new_torrent_timespan (sub64 timestamp t.atime)) _ _
        (λ e. (incomplete, inl (&&-true _ _ e)))
        (λ _.
          if_ind (Allows (IsHopeless t))
            (le64 inactivity_timespan (sub64 timestamp t.activity_time)) _ _
            (λ e. (incomplete, inr e)) (λ _. tt))

  classify_complete-Allows :
      (t : Torrent)
      → is_complete t ≡ true
      → Allows (IsDispensable t) (
          classify_complete msgs trackers_of timestamp min_seeders max_seeders tag (invalid_of t) t)
  unfolding classify_complete
  classify_complete-Allows t complete =
      let P = Allows (IsDispensable t) in
      if_ind P (not (str_eq t.state (codes "seeding"))) _ _ (λ _. tt)
        (λ seeding.
          if_ind P (invalid_of t) _ _ (λ e. (complete, not-false _ seeding, inl e))
            (λ _.
              if_ind P (eq64 t.seeders (pos 0)) _ _ (λ _. tt)
                (λ some_seeders.
                  if_ind P (lt64 (sub64 timestamp t.ctime) min_seeding_time) _ _ (λ _. tt)
                    (λ old.
                      if_ind P (lt64 max_seeders t.seeders) _ _
                        (λ e. (complete, not-false _ seeding, inr (some_seeders, old, inl e)))
                        (λ _.
                          if_ind P (lt64 min_seeders t.seeders) _ _
                            (λ e. (complete, not-false _ seeding, inr (some_seeders, old, inr e)))
                            (λ _. tt))))))

  Allows-mono : (P Q : Type 0) (c : Class) → (P → Q) → Allows P c → Allows Q c
  Allows-mono P Q Class.other_class f h = tt
  Allows-mono P Q Class.invalid_class f h = f h
  Allows-mono P Q Class.stalled_class f h = f h
  Allows-mono P Q Class.downloading_class f h = tt
  Allows-mono P Q Class.safe_class f h = f h
  Allows-mono P Q Class.normal_class f h = f h
  Allows-mono P Q Class.protected_class f h = tt
  Allows-mono P Q Class.unknown_class f h = tt

  classify-Allows :
      (t : Torrent)
      → Allows (IsReplaceable t) (classify msgs trackers_of timestamp min_seeders max_seeders tag t)
  unfolding classify
  classify-Allows t =
      let P = Allows (IsReplaceable t) in
      if_ind P (not (has_tag t tag)) _ _ (λ _. tt)
        (λ tagged.
          if_ind P (has_tag t (codes "nodel")) _ _ (λ _. tt)
            (λ nodel.
              if_ind P (not (is_complete t)) _ _
                (λ e.
                  Allows-mono (IsHopeless t) (IsReplaceable t) _
                    (λ r. record { tagged = not-false _ tagged; deletable = nodel; reason = inl r })
                    (classify_incomplete-Allows t (ground arith)))
                (λ e.
                  Allows-mono (IsDispensable t) (IsReplaceable t) _
                    (λ r. record { tagged = not-false _ tagged; deletable = nodel; reason = inr r })
                    (classify_complete-Allows t (not-false _ e)))))

  -- The hash is that of a torrent of the client, with a reason to delete it.
  module _ (IsListed : Torrent → Type 0) where
    abbrev pub Stems : Text → Type 0
    Stems hash = (t : Torrent) × IsListed t × (t.info_hash ≡ hash) × IsReplaceable t

    pub record IsPooled (s : Triage) : Type 0 where
      pub invalid : All Stems s.invalid
      pub stalled : All Stems s.stalled
      pub safe : All Stems s.safe
      pub normal : All Stems s.normal

    put-IsPooled :
        (c : Class) (t : Torrent) (s : Triage)
        → IsListed t
        → Allows (IsReplaceable t) c
        → IsPooled s
        → IsPooled (put c t s)
    unfolding put
    put-IsPooled Class.other_class t s listed h p = record {
      invalid = p.invalid;
      stalled = p.stalled;
      safe = p.safe;
      normal = p.normal;
    }
    put-IsPooled Class.invalid_class t s listed h p = record {
      invalid = All-append Stems s.invalid _ p.invalid ((t, listed, refl, h), tt);
      stalled = p.stalled;
      safe = p.safe;
      normal = p.normal;
    }
    put-IsPooled Class.stalled_class t s listed h p = record {
      invalid = p.invalid;
      stalled = All-append Stems s.stalled _ p.stalled ((t, listed, refl, h), tt);
      safe = p.safe;
      normal = p.normal;
    }
    put-IsPooled Class.downloading_class t s listed h p = record {
      invalid = p.invalid;
      stalled = p.stalled;
      safe = p.safe;
      normal = p.normal;
    }
    put-IsPooled Class.safe_class t s listed h p = record {
      invalid = p.invalid;
      stalled = p.stalled;
      safe = All-append Stems s.safe _ p.safe ((t, listed, refl, h), tt);
      normal = p.normal;
    }
    put-IsPooled Class.normal_class t s listed h p = record {
      invalid = p.invalid;
      stalled = p.stalled;
      safe = p.safe;
      normal = All-append Stems s.normal _ p.normal ((t, listed, refl, h), tt);
    }
    put-IsPooled Class.protected_class t s listed h p = record {
      invalid = p.invalid;
      stalled = p.stalled;
      safe = p.safe;
      normal = p.normal;
    }
    put-IsPooled Class.unknown_class t s listed h p = record {
      invalid = p.invalid;
      stalled = p.stalled;
      safe = p.safe;
      normal = p.normal;
    }

    pub triage-IsPooled :
        (ts : List Torrent) (s : Triage)
        → All IsListed ts
        → IsPooled s
        → IsPooled (triage msgs trackers_of timestamp min_seeders max_seeders tag ts s)
    unfolding triage
    triage-IsPooled [] s listed p = p
    triage-IsPooled (t ∷ ts) s listed p =
        triage-IsPooled ts _ listed.1 (put-IsPooled _ t s listed.0 (classify-Allows t) p)
