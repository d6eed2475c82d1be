-- ===== src/DynamicSeeding/Replace.antt =====
-- The last loop of doDynamicSeeding: it adds candidates while torrents of the client make room.
pub mod Rule
pub mod Fuel
use ptool.Base.{
  ℕ, zero, suc, ◌+◌, Bool, not, ◌&&◌, Option, none, some, List, [], ◌∷◌, ◌++◌, if◌then◌else◌,
  length,
}
use ptool.Base.Int.{ℤ, pos}
use ptool.Base.Int64.{add64, sub64, lt64, le64}
use ptool.Base.Text.{Text}
use ptool.Client
use ptool.Site
use ptool.Brush.Data.{torrent_of}

-- The lists of torrents that may be deleted, by info hash.
pub record Pools : Type 0 where
  pub invalid : List Text
  pub stalled : List Text
  pub safe : List Text
  pub normal : List Text

abbrev pub pools_size : Pools → ℕ
pools_size p = length p.invalid + length p.stalled + length p.safe + length p.normal

module _ (client_torrents : List Client.Torrent) where
  -- A field of clientTorrentsMap[hash].
  unfoldable pub size_of : Text → ℤ
  size_of hash = elim (torrent_of client_torrents hash) [ none ↦ pos 0 | some t ↦ t.size ]

  unfoldable pub seeders_of : Text → ℤ
  seeders_of hash = elim (torrent_of client_torrents hash) [ none ↦ pos 0 | some t ↦ t.seeders ]

  -- The next torrent to delete for one with that many seeders, `none` where the loop breaks.
  pick_normal : ℤ → ℤ → Pools → List Text → Option (Text × Pools)
  pick_normal replace_seeders seeders p [] = none
  pick_normal replace_seeders seeders p (hash ∷ rest) =
      if le64 replace_seeders (sub64 (seeders_of hash) seeders)
      then some (hash, record p { normal = rest })
      else none

  pick_safe : ℤ → ℤ → Pools → List Text → Option (Text × Pools)
  unfolding pick_normal
  pick_safe replace_seeders seeders p [] = pick_normal replace_seeders seeders p p.normal
  pick_safe replace_seeders seeders p (hash ∷ rest) = some (hash, record p { safe = rest })

  pick_stalled : ℤ → ℤ → Pools → List Text → Option (Text × Pools)
  unfolding pick_safe
  pick_stalled replace_seeders seeders p [] = pick_safe replace_seeders seeders p p.safe
  pick_stalled replace_seeders seeders p (hash ∷ rest) = some (hash, record p { stalled = rest })

  pick_invalid : ℤ → ℤ → Pools → List Text → Option (Text × Pools)
  unfolding pick_stalled
  pick_invalid replace_seeders seeders p [] = pick_stalled replace_seeders seeders p p.stalled
  pick_invalid replace_seeders seeders p (hash ∷ rest) = some (hash, record p { invalid = rest })

  unfoldable pub pick : ℤ → ℤ → Pools → Option (Text × Pools)
  unfolding pick_invalid
  pick replace_seeders seeders p = pick_invalid replace_seeders seeders p p.invalid

  -- The state of the inner loop: the available space, the pools, and deleteTorrents.
  pub record Room : Type 0 where
    pub available : ℤ
    pub pools : Pools
    pub deletes : List Text

  -- Each turn takes a torrent from the pools, so `pools_size` turns are enough.
  unfoldable pub make_room : ℕ → ℤ → ℤ → ℤ → Room → Room
  unfolding pick size_of
  make_room zero replace_seeders size seeders r = r
  make_room (suc fuel) replace_seeders size seeders r =
      if lt64 r.available size
      then elim (pick replace_seeders seeders r.pools) [
        | none ↦ r
        | some (hash, pools) ↦ make_room fuel replace_seeders size seeders (record {
          available = add64 r.available (size_of hash);
          pools = pools;
          deletes = r.deletes ++ hash ∷ [];
        })
      ]
      else r

  -- The torrents of the hashes, in their order.
  unfoldable pub torrents_of : List Text → List Client.Torrent
  torrents_of [] = []
  torrents_of (hash ∷ hashes) =
      let rest = torrents_of hashes in
      elim (torrent_of client_torrents hash) [ none ↦ rest | some t ↦ t ∷ rest ]

  module _ {F : Type 0} (no_del : Bool) (replace_seeders : ℤ) where
    -- The deletions and additions of the result.
    unfoldable pub replace_loop :
        List (Site.Torrent F) → ℤ → Pools → List Client.Torrent × List (Site.Torrent F)
    unfolding make_room torrents_of
    replace_loop [] available p = ([], [])
    replace_loop (torrent ∷ torrents) available p =
        let start : Room = record { available = available; pools = p; deletes = [] } in
        let r =
          if not no_del
          then make_room (pools_size p) replace_seeders torrent.size torrent.seeders start
          else start in
        let (deletes, adds) = replace_loop torrents (sub64 r.available torrent.size) r.pools in
        if lt64 r.available torrent.size
        then ([], [])
        else (torrents_of r.deletes ++ deletes, torrent ∷ adds)
