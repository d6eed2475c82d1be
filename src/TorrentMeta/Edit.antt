-- ===== src/TorrentMeta/Edit.antt =====
-- The methods of TorrentMeta that change it. `none` is ErrNoChange: then nothing is changed.
pub mod Trackers
use ptool.Base.{
  ℕ, zero, suc, ◌-◌, Bool, true, false, not, ◌&&◌, ◌||◌, Option, none, some, List, [], ◌∷◌, ◌++◌,
  if◌then◌else◌, any, length, is_nil,
}
use ptool.Base.Int.{ℤ, pos, negsuc}
use ptool.Base.Int64.{le64, eq64}
use ptool.Base.Text.{Text, str_eq}
use ptool.TorrentMeta.Data.{TorrentMeta, MetaInfo, Info}

unfoldable pub is_private : TorrentMeta → Bool
is_private meta = elim meta.info.private_flag [ none ↦ false | some p ↦ p ]

bool_eq : Bool → Bool → Bool
bool_eq true b = b
bool_eq false b = not b

unfoldable pub set_info_private : Bool → TorrentMeta → Option TorrentMeta
unfolding is_private bool_eq
set_info_private private_new meta =
    if bool_eq private_new (is_private meta)
    then none
    else some (record meta {
      info = record meta.info { private_flag = if private_new then some true else none };
      info_changed = true;
    })

unfoldable pub update_info_source : Text → TorrentMeta → Option TorrentMeta
update_info_source source meta =
    if str_eq meta.info.source source
    then none
    else some (record meta { info = record meta.info { source = source }; info_changed = true })

unfoldable pub update_info_name : Text → TorrentMeta → Option TorrentMeta
update_info_name name meta =
    if str_eq meta.info.name name
    then none
    else some (record meta { info = record meta.info { name = name }; info_changed = true })

unfoldable pub update_created_by : Text → TorrentMeta → Option TorrentMeta
update_created_by created_by meta =
    if str_eq meta.meta_info.created_by created_by
    then none
    else some (record meta { meta_info = record meta.meta_info { created_by = created_by } })

unfoldable pub update_comment : Text → TorrentMeta → Option TorrentMeta
update_comment comment meta =
    if str_eq meta.meta_info.comment comment
    then none
    else some (record meta { meta_info = record meta.meta_info { comment = comment } })

unfoldable pub update_creation_date : ℤ → TorrentMeta → Option TorrentMeta
update_creation_date creation_date meta =
    if eq64 meta.meta_info.creation_date creation_date
    then none
    else some (record meta { meta_info = record meta.meta_info { creation_date = creation_date } })

-- Some tier has a tracker that the test holds of.
unfoldable pub any_tracker : (Text → Bool) → List (List Text) → Bool
unfolding any
any_tracker f tiers = any (any f) tiers

unfoldable pub update_tracker : Text → TorrentMeta → Option TorrentMeta
unfolding any_tracker
update_tracker tracker meta =
    let has_other = any_tracker (λ a. not (str_eq a tracker)) meta.meta_info.announce_list in
    if str_eq tracker []
    then none
    else if str_eq meta.meta_info.announce tracker && not has_other
    then none
    else some (record meta {
      meta_info = record meta.meta_info { announce = tracker; announce_list = [] };
    })

-- The tracker at the end of the tier at that position, or in a new tier at the end.
unfoldable pub put_at : ℕ → Text → List (List Text) → List (List Text)
put_at n tracker [] = (tracker ∷ []) ∷ []
put_at zero tracker (tier ∷ tiers) = (tier ++ tracker ∷ []) ∷ tiers
put_at (suc n) tracker (tier ∷ tiers) = tier ∷ put_at n tracker tiers

unfoldable pub put_tracker : ℤ → Text → List (List Text) → List (List Text)
unfolding put_at
put_tracker (pos n) tracker tiers = put_at n tracker tiers
put_tracker (negsuc n) tracker tiers = put_at (length tiers) tracker tiers

-- AddTracker's result, where the tracker is new.
unfoldable pub with_tracker : Text → ℤ → MetaInfo → MetaInfo
unfolding put_tracker
with_tracker tracker tier m =
    let tiers =
      if is_nil m.announce_list && not (str_eq m.announce [])
      then (m.announce ∷ []) ∷ []
      else m.announce_list in
    record m {
      announce_list = put_tracker tier tracker tiers;
      announce = if str_eq m.announce [] then tracker else m.announce;
    }

unfoldable pub add_tracker : Text → ℤ → TorrentMeta → Option TorrentMeta
unfolding any_tracker with_tracker
add_tracker tracker tier meta =
    if str_eq tracker [] || str_eq meta.meta_info.announce tracker
    then none
    else if any_tracker (λ a. str_eq a tracker) meta.meta_info.announce_list
    then none
    else some (record meta { meta_info = with_tracker tracker tier meta.meta_info })

-- al[:j] and al[j+1:] for the first j with the tracker; `none` where there is none.
unfoldable pub cut_out : Text → List Text → Option (List Text)
cut_out tracker [] = none
cut_out tracker (a ∷ al) =
    let rest = cut_out tracker al in
    if str_eq a tracker then some al else elim rest [ none ↦ none | some al' ↦ some (a ∷ al') ]

-- The tiers without the first occurrence, and without its tier where that is left empty.
unfoldable pub cut_tracker : Text → List (List Text) → Option (List (List Text))
unfolding cut_out
cut_tracker tracker [] = none
cut_tracker tracker (tier ∷ tiers) =
    let rest = cut_tracker tracker tiers in
    elim (cut_out tracker tier) [
      | some tier' ↦ if is_nil tier' then some tiers else some (tier' ∷ tiers)
      | none ↦ elim rest [ none ↦ none | some tiers' ↦ some (tier ∷ tiers') ]
    ]

unfoldable pub remove_tracker : Text → TorrentMeta → Option TorrentMeta
unfolding cut_tracker
remove_tracker tracker meta =
    let m = meta.meta_info in
    let announced = str_eq m.announce tracker in
    let m' = if announced then record m { announce = [] } else m in
    if str_eq tracker [] then none else elim (cut_tracker tracker m.announce_list) [
      | some tiers ↦ some (record meta { meta_info = record m' { announce_list = tiers } })
      | none ↦ if announced then some (record meta { meta_info = m' }) else none
    ]
