-- ===== src/Tests/Brush.antt =====
-- A brush round with a nearly full disk.
use ptool.Base.{◌≡◌, refl, ◌⊎◌, [], ◌∷◌, All, arith, map, length, true}
use ptool.Base.Int.{ℤ, pos, ◌≤ℤ◌}
use ptool.Base.Int64.{le64}
use ptool.Base.Text.{codes}
use ptool.Brush.Data.{Result}
use ptool.Brush.Add.{candidates}
use ptool.Brush.Decide.{swept, has_space, decide}
use ptool.Brush.Disjoint.{IsDisjoint, decide-IsDisjoint}
use ptool.Brush.Protected.{
  HasUniqueHashes, IsDeletable, Finds, Accounts, decide-deletes, decide-Accounts,
}
use ptool.Brush.Distinct.{Distinct, decide-Distinct}
use ptool.Brush.Limits.{Takes, decide-adds}
use ptool.Brush.Admitted.{IsMadeFrom, candidates-IsMadeFrom}
use ptool.Brush.Notes.{IsStallOf, IsModifyOf, decide-notes}
use ptool.Tests.Samples.{
  program, tenths, ascii, client_torrents, full_status, site_torrents, site_option, client_option,
}

abbrev round : Result ℤ
round = decide full_status client_torrents site_torrents site_option client_option

round_deletes : map (λ d. d.info_hash) round.delete_torrents ≡ codes "b1" ∷ codes "c2" ∷ []
unfolding program
round_deletes = refl

round_stalls : map (λ d. d.info_hash) round.stall_torrents ≡ codes "d3" ∷ []
unfolding program
round_stalls = refl

round_adds : map (λ a. a.name) round.add_torrents ≡ codes "popular" ∷ []
unfolding program
round_adds = refl

decide-IsDisjoint_example :
    IsDisjoint (decide full_status client_torrents site_torrents site_option client_option)
decide-IsDisjoint_example =
    decide-IsDisjoint full_status client_torrents site_torrents site_option client_option

unique : HasUniqueHashes client_torrents
unfolding program
unique = (refl, (refl, (refl, (refl, tt))))

decide-deletes_example :
    All
      (λ d. Finds client_torrents (IsDeletable (pos 100000)) d.info_hash)
      (decide full_status client_torrents site_torrents site_option client_option).delete_torrents
decide-deletes_example =
    decide-deletes full_status client_torrents site_torrents site_option client_option unique

decide-Accounts_example :
    let s = swept full_status client_torrents site_torrents site_option client_option in
    Accounts client_torrents (pos 1501000) (pos 4) s
    × (round.delete_torrents ≡ s.deleted)
    × (round.free_space_change ≡ s.free_change)
decide-Accounts_example =
    decide-Accounts full_status client_torrents site_torrents site_option client_option unique

different : Distinct (λ t. t.info_hash) client_torrents
different = ground arith

decide-Distinct_example : Distinct (λ d. d.info_hash) round.delete_torrents
decide-Distinct_example =
    decide-Distinct full_status client_torrents site_torrents site_option client_option different

decide-adds_example :
    Takes (candidates site_option site_torrents) [] round.add_torrents
    × ((round.add_torrents ≡ [])
        ⊎ ((pos (length round.add_torrents) ≤ℤ pos 1)
            × (has_space full_status client_option round.free_space_change ≡ true)
            × (le64
                  (swept full_status client_torrents site_torrents site_option client_option).cnt
                  (pos 50)
                ≡ true)))
decide-adds_example =
    decide-adds full_status client_torrents site_torrents site_option client_option
      (record { above = omega arith; below = omega arith })

candidates-IsMadeFrom_example :
    All (IsMadeFrom site_option site_torrents) (candidates site_option site_torrents)
unfolding program
candidates-IsMadeFrom_example = candidates-IsMadeFrom site_option refl site_torrents

decide-notes_example :
    All (IsStallOf (pos 100000) client_torrents) round.stall_torrents
    × All (IsModifyOf (pos 100000) client_torrents) round.modify_torrents
decide-notes_example =
    decide-notes full_status client_torrents site_torrents site_option client_option
