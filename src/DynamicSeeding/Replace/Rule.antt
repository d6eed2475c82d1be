-- ===== src/DynamicSeeding/Replace/Rule.antt =====
-- What the last loop of doDynamicSeeding takes from the pools and from the candidates.
use ptool.Base.{
  ◌≡◌, refl, sym, inl, inr, true, not, ℕ, zero, suc, Bool, Option, none, some, List, [], ◌∷◌,
  if◌then◌else◌, if_ind, All, All-append, Option-cases,
}
use mathlib.Core.Path.{subst}
use ptool.Base.Int.{ℤ}
use ptool.Base.Int64.{sub64, lt64, le64}
use ptool.Base.Text.{Text}
use ptool.Client
use ptool.Site
use ptool.Brush.Data.{torrent_of}
use ptool.Brush.Protected.{torrent_of-hash}
use ptool.DynamicSeeding.Replace.{
  Pools, pools_size, Room, pick, pick_invalid, pick_stalled, pick_safe, pick_normal, make_room,
  torrents_of, replace_loop,
}

-- All hashes in the pools have the property.
pub record InPools (Q : Text → Type 0) (p : Pools) : Type 0 where
  pub invalid : All Q p.invalid
  pub stalled : All Q p.stalled
  pub safe : All Q p.safe
  pub normal : All Q p.normal

-- What `pick` gives has the property.
abbrev Picks : (Text → Type 0) → Option (Text × Pools) → Type 0
Picks Q none = Unit
Picks Q (some (hash, p)) = Q hash × InPools Q p

module _ (ts : List Client.Torrent) (Q : Text → Type 0) where
  pick_normal-Picks :
      (replace seeders : ℤ) (p : Pools) (hashes : List Text)
      → InPools Q p
      → All Q hashes
      → Picks Q (pick_normal ts replace seeders p hashes)
  unfolding pick_normal
  pick_normal-Picks replace seeders p [] h k = tt
  pick_normal-Picks replace seeders p (hash ∷ rest) h k =
      if_ind (Picks Q) (le64 replace _) _ _
        (λ _.
          (k.0, record { invalid = h.invalid; stalled = h.stalled; safe = h.safe; normal = k.1 }))
        (λ _. tt)

  pick_safe-Picks :
      (replace seeders : ℤ) (p : Pools) (hashes : List Text)
      → InPools Q p
      → All Q hashes
      → Picks Q (pick_safe ts replace seeders p hashes)
  unfolding pick_safe
  pick_safe-Picks replace seeders p [] h k = pick_normal-Picks replace seeders p p.normal h h.normal
  pick_safe-Picks replace seeders p (hash ∷ rest) h k =
      (k.0, record { invalid = h.invalid; stalled = h.stalled; safe = k.1; normal = h.normal })

  pick_stalled-Picks :
      (replace seeders : ℤ) (p : Pools) (hashes : List Text)
      → InPools Q p
      → All Q hashes
      → Picks Q (pick_stalled ts replace seeders p hashes)
  unfolding pick_stalled
  pick_stalled-Picks replace seeders p [] h k = pick_safe-Picks replace seeders p p.safe h h.safe
  pick_stalled-Picks replace seeders p (hash ∷ rest) h k =
      (k.0, record { invalid = h.invalid; stalled = k.1; safe = h.safe; normal = h.normal })

  pick_invalid-Picks :
      (replace seeders : ℤ) (p : Pools) (hashes : List Text)
      → InPools Q p
      → All Q hashes
      → Picks Q (pick_invalid ts replace seeders p hashes)
  unfolding pick_invalid
  pick_invalid-Picks replace seeders p [] h k =
      pick_stalled-Picks replace seeders p p.stalled h h.stalled
  pick_invalid-Picks replace seeders p (hash ∷ rest) h k =
      (k.0, record { invalid = k.1; stalled = h.stalled; safe = h.safe; normal = h.normal })

  pick-Picks : (replace seeders : ℤ) (p : Pools) → InPools Q p → Picks Q (pick ts replace seeders p)
  unfolding pick
  pick-Picks replace seeders p h = pick_invalid-Picks replace seeders p p.invalid h h.invalid

  -- The hashes that the inner loop deletes and those that it leaves in the pools.
  pub record InRoom (r : Room ts) : Type 0 where
    pub pools : InPools Q r.pools
    pub deletes : All Q r.deletes

  make_room-InRoom :
      (fuel : ℕ) (replace size seeders : ℤ) (r : Room ts)
      → InRoom r
      → InRoom (make_room ts fuel replace size seeders r)
  unfolding make_room
  make_room-InRoom zero replace size seeders r h = h
  make_room-InRoom (suc fuel) replace size seeders r h =
      if_ind InRoom (lt64 r.available size) _ _
        (λ _. elim (Option-cases (pick ts replace seeders r.pools)) [
          | inl e ↦ rw e h
          | inr ((hash, pools), e) ↦
              let q : Picks Q (some (hash, pools)) =
                subst (Picks Q) e (pick-Picks replace seeders r.pools h.pools) in
              rw e (
                make_room-InRoom fuel replace size seeders _
                  (record { pools = q.1; deletes = All-append Q r.deletes _ h.deletes (q.0, tt) }))
        ])
        (λ _. h)

  torrents_of-All :
      (hashes : List Text) → All Q hashes → All (λ t. Q t.info_hash) (torrents_of ts hashes)
  unfolding torrents_of
  torrents_of-All [] h = tt
  torrents_of-All (hash ∷ hashes) h = elim (Option-cases (torrent_of ts hash)) [
    | inl e ↦ rw (e, torrents_of) (torrents_of-All hashes h.1)
    | inr (t, e) ↦
        rw (e, torrents_of)
          (subst Q (sym (torrent_of-hash ts hash t e)) h.0, torrents_of-All hashes h.1)
  ]

  -- The deleted torrents come from the pools, and the added ones from the candidates.
  pub replace_loop-All :
      {F : Type 0} (P : Site.Torrent F → Type 0) (no_del : Bool) (replace : ℤ)
      (torrents : List (Site.Torrent F)) (available : ℤ) (p : Pools)
      → InPools Q p
      → All P torrents
      → All (λ t. Q t.info_hash) (replace_loop ts no_del replace torrents available p).0
        × All P (replace_loop ts no_del replace torrents available p).1
  unfolding replace_loop
  replace_loop-All P no_del replace [] available p h k = (tt, tt)
  replace_loop-All P no_del replace (torrent ∷ torrents) available p h k =
      let start : Room ts = record { available = available; pools = p; deletes = [] } in
      let r : Room ts =
        if not no_del
        then make_room ts (pools_size p) replace torrent.size torrent.seeders start
        else start in
      let room : InRoom r =
        if_ind InRoom (not no_del) _ _
          (λ _.
            make_room-InRoom (pools_size p) replace torrent.size torrent.seeders start
              (record { pools = h; deletes = tt }))
          (λ _. record { pools = h; deletes = tt }) in
      let later =
        replace_loop-All P no_del replace torrents (sub64 r.available torrent.size) r.pools
          room.pools k.1 in
      if_ind
        (λ (x : List Client.Torrent × List (Site.Torrent _)).
          All (λ t. Q t.info_hash) x.0 × All P x.1)
        (lt64 r.available torrent.size) _ _ (λ _. (tt, tt))
        (λ _. (
          All-append (λ t. Q t.info_hash) (torrents_of ts r.deletes) _
              (torrents_of-All r.deletes room.deletes) later.0,
          (k.0, later.1),
        ))

-- With the "nodel" mark of the client's status, nothing is deleted.
pub replace_loop-no_del :
    {F : Type 0} (ts : List Client.Torrent) (replace : ℤ) (torrents : List (Site.Torrent F))
    (available : ℤ) (p : Pools)
    → (replace_loop ts true replace torrents available p).0 ≡ []
unfolding replace_loop torrents_of
replace_loop-no_del ts replace [] available p = refl
replace_loop-no_del ts replace (torrent ∷ torrents) available p =
    if_ind (λ (x : List Client.Torrent × List (Site.Torrent _)). x.0 ≡ [])
      (lt64 available torrent.size) _ _ (λ _. refl)
      (λ _. replace_loop-no_del ts replace torrents _ p)
